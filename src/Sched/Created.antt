-- ===== src/Sched/Created.antt =====
-- `task_create`: what the new task looks like and which lists it is in.
use qemu_usage_test.Base.{
  ℕ, ◌≡◌, ◌≢◌, refl, ap, List, [], ◌∷◌, ◌++◌, true, Outcome, done, ne→==, eq→==, arith, take, add32,
  sub32, some,
}
use qemu_usage_test.Round.{div_round_up}
use qemu_usage_test.Memory.{null}
use qemu_usage_test.Spin.{spin_lock, spin_unlock}
use qemu_usage_test.Links.{list_add, list_add_tail}
use qemu_usage_test.Links.Shape.{IsList, Absent, Apart, Absent-append}
use qemu_usage_test.Mm.{pf_zero, mm_kget_page, MemPool}
use qemu_usage_test.Memory.{Memory}
use qemu_usage_test.Sched.{
  Sched, TaskStruct, TaskStatus, task_blocked, task_magic, prio_default, all_tasks, queued_tasks,
  ready_head, write_task, set_status, valid_priority, allocate_pid,
}
use qemu_usage_test.Sched.Nodes.{cleared_twice, two_added}
use qemu_usage_test.Sched.Create.{
  clear_nodes, clear_task, task_struct_init, saved_stack, create_in_page, task_create,
}

abbrev pub new_task : ℕ → List ℕ → ℕ → ℕ → TaskStruct
new_task tsk name priority pid = record {
  pid = pid;
  status = task_blocked;
  name = take 15 name;
  sp = add32 tsk 4096;
  priority = priority;
  time_slice_init = div_round_up priority prio_default;
  time_slice_res = div_round_up priority prio_default;
  pg_dir = 0;
  magic = task_magic;
}

allocate_eq :
    (s : Sched)
    → s.pid_slock ≡ 1
    → allocate_pid s
      ≡ done (add32 s.next_pid 1, record s { next_pid = add32 s.next_pid 1; pid_slock = 1 })
unfolding allocate_pid spin_lock spin_unlock
allocate_eq s free = rw free refl

module _ (tsk : ℕ) (name : List ℕ) (priority : ℕ) (s : Sched) where
  abbrev pub initialized : Sched
  initialized =
      let t = new_task tsk name priority 0 in
      record s {
        tasks = write_task tsk (new_task tsk name priority (add32 s.next_pid 1)) (
            write_task tsk (record t { time_slice_init = 0; time_slice_res = 0 })
              (clear_task tsk s).tasks);
        links = list_add (all_tasks tsk) s.all_tasks_list (clear_nodes tsk s.links);
        list_slock = 1;
        next_pid = add32 s.next_pid 1;
        pid_slock = 1;
      }

  abbrev listed : Sched
  listed = record s {
    tasks =
        write_task tsk
          (record (new_task tsk name priority 0) { time_slice_init = 0; time_slice_res = 0 })
          (clear_task tsk s).tasks;
    links = list_add (all_tasks tsk) s.all_tasks_list (clear_nodes tsk s.links);
    list_slock = 1;
  }

  pub init_eq :
      tsk ≢ null
      → valid_priority priority ≡ true
      → s.list_slock ≡ 1
      → s.pid_slock ≡ 1
      → task_struct_init tsk (some name) priority s ≡ done initialized
  unfolding task_struct_init spin_lock spin_unlock
  init_eq h valid free pid_free = rw (ne→== tsk 0 h, valid, free, allocate_eq listed pid_free) refl

-- What `task_create` leaves.
pub record Created (tsk : ℕ) (name : List ℕ) (priority : ℕ) (status : TaskStatus) (s : Sched)
    (ts rs : List ℕ) (r : Outcome (ℕ × Sched)) : Type 0 where
  pub s' : Sched
  pub returns : r ≡ done (add32 s.next_pid 1, s')
  pub listed : IsList s'.links s.all_tasks_list (all_tasks tsk ∷ ts)
  pub ready : IsList s'.links (ready_head s priority) (rs ++ queued_tasks tsk ∷ [])
  pub fields : s'.tasks tsk ≡ record (new_task tsk name priority (add32 s.next_pid 1)) {
    status = status;
    sp = sub32 (sub32 (add32 tsk 4096) 12) 28;
  }
  pub others : (t : ℕ) → t ≢ tsk → s'.tasks t ≡ s.tasks t
  pub current : s'.current ≡ s.current
  pub links_eq :
      s'.links
      ≡ list_add_tail
          (queued_tasks tsk)
          (ready_head s priority)
          (list_add (all_tasks tsk) s.all_tasks_list (clear_nodes tsk (clear_nodes tsk s.links)))
  pub unlocked : s'.list_slock ≡ 1
  pub pid_unlocked : s'.pid_slock ≡ 1
  pub same_pool : s'.pool ≡ s.pool
  pub same_heads : (s'.all_tasks_list ≡ s.all_tasks_list) × (s'.ready_task_list ≡ s.ready_task_list)

module _ (task_exit switch_initial : ℕ) (tsk proc params : ℕ) (name : List ℕ) (priority : ℕ)
    (status : TaskStatus) (s : Sched) where
  abbrev created : Sched
  created =
      let s1 =
        saved_stack task_exit switch_initial tsk proc params
          (initialized tsk name priority (clear_task tsk s)) in
      set_status tsk status (record s1 {
        links = list_add_tail (queued_tasks tsk) (ready_head s1 (s1.tasks tsk).priority) s1.links;
        list_slock = 1;
      })

  create_in_page-Created :
      {ts rs : List ℕ}
      → tsk ≢ null
      → valid_priority priority ≡ true
      → s.list_slock ≡ 1
      → s.pid_slock ≡ 1
      → IsList s.links s.all_tasks_list ts
      → IsList s.links (ready_head s priority) rs
      → Absent (all_tasks tsk) ((s.all_tasks_list ∷ ts) ++ ready_head s priority ∷ rs)
      → Absent (queued_tasks tsk) ((s.all_tasks_list ∷ ts) ++ ready_head s priority ∷ rs)
      → Apart (s.all_tasks_list ∷ ts) (ready_head s priority ∷ rs)
      → Created tsk name priority status s ts rs
          (create_in_page task_exit switch_initial tsk proc params (some name) priority status s)
  unfolding create_in_page saved_stack spin_lock spin_unlock
  create_in_page-Created {ts} {rs} h valid free pid_free all ready a q apart =
      let e = init_eq tsk name priority (clear_task tsk s) h valid free pid_free in
      let (ap, ar) =
        Absent-append (all_tasks tsk) (s.all_tasks_list ∷ ts) (ready_head s priority ∷ rs) a in
      let (qp, qr) =
        Absent-append (queued_tasks tsk) (s.all_tasks_list ∷ ts) (ready_head s priority ∷ rs) q in
      let two =
        two_added (all_tasks tsk) (queued_tasks tsk) (cleared_twice tsk all ap qp)
          (cleared_twice tsk ready ar qr) a q (omega arith) apart in
      record {
        s' = created;
        returns = rw (e, eq→== tsk tsk refl) refl;
        listed = rw (eq→== tsk tsk refl) two.0;
        ready = rw (eq→== tsk tsk refl) two.1;
        fields = rw (eq→== tsk tsk refl) refl;
        others = λ t k. rw (ne→== t tsk k) refl;
        current = refl;
        links_eq = rw (eq→== tsk tsk refl) refl;
        unlocked = refl;
        pid_unlocked = refl;
        same_pool = refl;
        same_heads = (refl, refl);
      }

-- For a routine that is not NULL, a name, a valid priority, free locks and a page from the
-- allocator whose two list nodes are new to the list of all tasks and to the ready list of the
-- priority, which share no node, `task_create` returns the next process id, puts the task at the
-- front of the list of all tasks and at the end of the ready list, gives all of its fields their
-- values and changes no other task.
pub task_create-Created :
    (task_exit switch_initial proc params : ℕ) (name : List ℕ) (priority : ℕ) (status : TaskStatus)
    (s : Sched) {tsk : ℕ} {pool : MemPool} {mem : Memory} {ts rs : List ℕ}
    → proc ≢ null
    → mm_kget_page pf_zero s.pool s.mem ≡ done (tsk, pool, mem)
    → tsk ≢ null
    → valid_priority priority ≡ true
    → s.list_slock ≡ 1
    → s.pid_slock ≡ 1
    → IsList s.links s.all_tasks_list ts
    → IsList s.links (ready_head s priority) rs
    → Absent (all_tasks tsk) ((s.all_tasks_list ∷ ts) ++ ready_head s priority ∷ rs)
    → Absent (queued_tasks tsk) ((s.all_tasks_list ∷ ts) ++ ready_head s priority ∷ rs)
    → Apart (s.all_tasks_list ∷ ts) (ready_head s priority ∷ rs)
    → Created tsk name priority status
        (record s { pool = pool; mem = mem })
        ts
        rs
        (task_create task_exit switch_initial proc params (some name) priority status s)
unfolding task_create
task_create-Created te si proc params name priority status s {tsk} {pool} {mem} {ts} {rs} hp got h
      valid free pid_free all ready a q apart =
    rw (ne→== proc 0 hp, got, ne→== tsk 0 h)
      (create_in_page-Created te si tsk proc params name priority status
        (record s { pool = pool; mem = mem }) h valid free pid_free all ready a q apart)
