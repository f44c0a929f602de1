-- ===== src/Sched/Stage.antt =====
-- While sched_init makes tasks: what holds between two of them.
use qemu_usage_test.Base.{
  ℕ, ◌+◌, ◌*◌, ◌≡◌, ◌≢◌, refl, sym, ap, ◌∙◌, List, [], ◌∷◌, ◌++◌, true, some, done, arith,
}
use mathlib.Core.Path.{subst, subst₂}
use qemu_usage_test.Memory.{Memory, null}
use qemu_usage_test.Links.{list_add, list_add_tail}
use qemu_usage_test.Links.Shape.{IsList, Absent, Apart, Distinct, Absent-append}
use qemu_usage_test.Links.Insert.{list_add-IsList}
use qemu_usage_test.Links.Frame.{list_add-frame}
use qemu_usage_test.Mm.{MemPool, pf_zero, mm_kget_page}
use qemu_usage_test.Sched.{
  Sched, task_running, task_ready, prio_default, all_tasks, queued_tasks, ready_head, set_status,
  valid_priority,
}
use qemu_usage_test.Sched.Create.{clear_nodes, task_create}
use qemu_usage_test.Sched.Nodes.{clear_nodes-IsList, cleared_twice, two_added-frame}
use qemu_usage_test.Sched.Created.{initialized, task_create-Created}
use qemu_usage_test.Sched.Start.{init_name, idle_name}

-- The allocator gives the page at `page`, whatever the memory holds.
abbrev pub Grants : MemPool → ℕ → MemPool → Type 0
Grants pool page pool' =
    (mem : Memory) → (mem' : Memory) × (mm_kget_page pf_zero pool mem ≡ done (page, pool', mem'))

-- While tasks are made: the locks are free, `c` runs, nobody waits at `wait`, and the lists of all
-- tasks (at `all`) and of ready tasks of the default priority hold these nodes.
pub record Stage (wait all lists c : ℕ) (ts rs : List ℕ) (s : Sched) : Type 0 where
  pub unlocked : s.list_slock ≡ 1
  pub pid_unlocked : s.pid_slock ≡ 1
  pub heads : (s.all_tasks_list ≡ all) × (s.ready_task_list ≡ lists)
  pub tasks : IsList s.links all ts
  pub ready : IsList s.links (lists + 8 * prio_default) rs
  pub nobody : IsList s.links wait []
  pub current : s.current ≡ c

-- What a new node must be new to.
pub record IsNew (wait all lists : ℕ) (ts rs : List ℕ) (node : ℕ) : Type 0 where
  pub in_none : Absent node ((all ∷ ts) ++ (lists + 8 * prio_default) ∷ rs)
  pub not_wait : node ≢ wait

pub record AreApart (wait all lists : ℕ) (ts rs : List ℕ) : Type 0 where
  pub both : Apart (all ∷ ts) ((lists + 8 * prio_default) ∷ rs)
  pub wait_tasks : Absent wait (all ∷ ts)
  pub wait_ready : Absent wait ((lists + 8 * prio_default) ∷ rs)

pub valid_default : valid_priority prio_default ≡ true
unfolding valid_priority
valid_default = refl

-- The node lists of the new task do not touch the waiting list.
created_nobody :
    {wait all lists c : ℕ} {ts rs : List ℕ} (s : Sched) (page : ℕ)
    → Stage wait all lists c ts rs s
    → IsNew wait all lists ts rs (all_tasks page)
    → IsNew wait all lists ts rs (queued_tasks page)
    → AreApart wait all lists ts rs
    → IsList
        (list_add_tail
          (queued_tasks page)
          (lists + 8 * prio_default)
          (list_add (all_tasks page) all (clear_nodes page (clear_nodes page s.links))))
        wait
        []
created_nobody {wait} {all} {lists} {c} {ts} {rs} s page st new_a new_q apart =
    let R = lists + 8 * prio_default in
    let (aT, aR) = Absent-append (all_tasks page) (all ∷ ts) (R ∷ rs) new_a.in_none in
    let (qT, qR) = Absent-append (queued_tasks page) (all ∷ ts) (R ∷ rs) new_q.in_none in
    two_added-frame (all_tasks page) (queued_tasks page) (cleared_twice page st.tasks aT qT)
      (cleared_twice page st.ready aR qR)
      (cleared_twice page st.nobody (new_a.not_wait, tt) (new_q.not_wait, tt)) new_a.in_none
      apart.both (new_a.not_wait, tt) (new_q.not_wait, tt) (apart.wait_tasks, tt)
      (apart.wait_ready, tt)

module _ (wait all lists c : ℕ) (task_exit switch_initial proc params : ℕ)
    (proc_ne : proc ≢ null) where
  -- One more task.
  pub create-Stage :
      {ts rs : List ℕ} (s : Sched) (page : ℕ) {pool : MemPool}
      → Stage wait all lists c ts rs s
      → Grants s.pool page pool
      → page ≢ null
      → IsNew wait all lists ts rs (all_tasks page)
      → IsNew wait all lists ts rs (queued_tasks page)
      → AreApart wait all lists ts rs
      → (pid : ℕ) × (s' : Sched) × (task_create task_exit switch_initial proc params
            (some idle_name)
            prio_default
            task_ready
            s
          ≡ done (pid, s'))
        × Stage wait all lists c (all_tasks page ∷ ts) (rs ++ queued_tasks page ∷ []) s'
        × (s'.pool ≡ pool)
  create-Stage {ts} {rs} s page {pool} st grants some_page new_a new_q apart =
      let (mem', got) = grants s.mem in
      let R = lists + 8 * prio_default in
      let head : ready_head s prio_default ≡ R = ap (λ l. l + 8 * prio_default) st.heads.1 in
      let all_is = subst (λ h. IsList s.links h ts) (sym st.heads.0) st.tasks in
      let ready_is = subst (λ h. IsList s.links h rs) (sym head) st.ready in
      let fresh : (n : ℕ)
          → IsNew wait all lists ts rs n
          → Absent n ((s.all_tasks_list ∷ ts) ++ ready_head s prio_default ∷ rs) =
        λ n new.
          subst₂ (λ h k. Absent n ((h ∷ ts) ++ k ∷ rs)) (sym st.heads.0) (sym head) new.in_none in
      let made =
        task_create-Created task_exit switch_initial proc params idle_name prio_default task_ready s
          proc_ne got some_page valid_default st.unlocked st.pid_unlocked all_is ready_is
          (fresh (all_tasks page) new_a) (fresh (queued_tasks page) new_q)
          (subst₂ (λ h k. Apart (h ∷ ts) (k ∷ rs)) (sym st.heads.0) (sym head) apart.both) in
      let nobody =
        subst₂
          (λ h k.
            IsList
              (list_add_tail (queued_tasks page) k
                (list_add (all_tasks page) h (clear_nodes page (clear_nodes page s.links))))
              wait [])
          (sym st.heads.0) (sym head) (created_nobody s page st new_a new_q apart) in
      (
        _,
        made.s',
        made.returns,
        record {
          unlocked = made.unlocked;
          pid_unlocked = made.pid_unlocked;
          heads = (made.same_heads.0 ∙ st.heads.0, made.same_heads.1 ∙ st.heads.1);
          tasks = subst (λ h. IsList made.s'.links h (all_tasks page ∷ ts)) st.heads.0 made.listed;
          ready =
              subst (λ h. IsList made.s'.links h (rs ++ queued_tasks page ∷ [])) head made.ready;
          nobody = subst (λ l. IsList l wait []) (sym made.links_eq) nobody;
          current = made.current ∙ st.current;
        },
        made.same_pool,
      )

module _ (wait : ℕ) (s : Sched) where
  -- What the start of init_tasks leaves: the calling task is in both lists, and runs.
  abbrev pub first_task : Sched
  first_task =
      let s1 = initialized s.current init_name prio_default (record s { init_task = s.current }) in
      record (set_status s.current task_running s1) {
        links = list_add (queued_tasks s.current) (ready_head s prio_default) s1.links;
      }

  pub first-Stage :
      IsList s.links s.all_tasks_list []
      → IsList s.links (ready_head s prio_default) []
      → IsList s.links wait []
      → Distinct (
          wait
          ∷ ready_head s prio_default
          ∷ s.all_tasks_list
          ∷ all_tasks s.current
          ∷ queued_tasks s.current
          ∷ [])
      → Stage wait s.all_tasks_list s.ready_task_list s.current
          (all_tasks s.current ∷ [])
          (queued_tasks s.current ∷ [])
          first_task
  first-Stage tasks ready nobody apart =
      let t = s.current in
      let l1 = clear_nodes t s.links in
      let tasks1 = clear_nodes-IsList t tasks (omega arith) (omega arith) in
      let ready1 = clear_nodes-IsList t ready (omega arith) (omega arith) in
      let nobody1 = clear_nodes-IsList t nobody (omega arith) (omega arith) in
      let tasks2 = list_add-IsList (all_tasks t) tasks1 (omega arith) tt in
      let ready2 = (list_add-frame ready1 (all_tasks t) tasks1 (omega arith) (omega arith)).0 in
      let nobody2 = (list_add-frame nobody1 (all_tasks t) tasks1 (omega arith) (omega arith)).0 in
      record {
        unlocked = refl;
        pid_unlocked = refl;
        heads = (refl, refl);
        tasks = (list_add-frame tasks2 (queued_tasks t) ready2 (omega arith) (omega arith)).0;
        ready = list_add-IsList (queued_tasks t) ready2 (omega arith) tt;
        nobody = (list_add-frame nobody2 (queued_tasks t) ready2 (omega arith) (omega arith)).0;
        current = refl;
      }
