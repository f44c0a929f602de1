-- ===== src/Sched/Create.antt =====
-- kernel/sched.c: the creation of tasks.
use qemu_usage_test.Base.{
  ℕ, ◌-◌, ◌^◌, ◌||◌, not, List, [], Option, none, some, Outcome, done, ◌>>=◌, ◌==◌, if◌then◌else◌,
  take, add32, sub32, shr32, u8,
}
use qemu_usage_test.Round.{div_round_up}
use qemu_usage_test.Vaddr.{page_size}
use qemu_usage_test.Memory.{Memory, poke, null}
use qemu_usage_test.Links.{Links, set_next, set_prev, list_add, list_add_tail}
use qemu_usage_test.Mm.{pf_zero, mm_kget_page}
use qemu_usage_test.Sched.{
  Sched, TaskStruct, TaskStatus, task_running, task_blocked, task_magic, prio_default, all_tasks,
  queued_tasks, ready_head, write_task, set_status, valid_priority, under_list_slock, allocate_pid,
}

-- `*(uint32_t *)a = v`
unfoldable pub store32 : ℕ → ℕ → Memory → Memory
store32 a v mem =
    poke
      (poke (poke (poke mem a (u8 v)) (add32 a 1) (u8 (shr32 v 8))) (add32 a 2) (u8 (shr32 v 16)))
      (add32 a 3) (u8 (shr32 v 24))

abbrev pub zero_task : TaskStruct
zero_task = record {
  pid = 0;
  status = task_running;
  name = [];
  sp = 0;
  priority = 0;
  time_slice_init = 0;
  time_slice_res = 0;
  pg_dir = 0;
  magic = 0;
}

-- The two list nodes of a task with NULL in all four links.
unfoldable pub clear_nodes : ℕ → Links → Links
unfolding set_next set_prev
clear_nodes tsk l = set_next (all_tasks tsk) null (
    set_prev (all_tasks tsk) null
      (set_next (queued_tasks tsk) null (set_prev (queued_tasks tsk) null l)))

-- The `task_struct` at the start of a page of zeros.
abbrev pub clear_task : ℕ → Sched → Sched
clear_task tsk s = record s {
  tasks = write_task tsk zero_task s.tasks;
  links = clear_nodes tsk s.links;
}

-- `name` is the string that the pointer leads to, `none` for NULL.
unfoldable pub task_struct_init : ℕ → Option (List ℕ) → ℕ → Sched → Outcome Sched
unfolding clear_nodes
task_struct_init tsk none priority s = done s
task_struct_init tsk (some name) priority s =
    if (tsk == null) || not (valid_priority priority) then done s else (do
      let s = clear_task tsk s
      let t = record zero_task {
        status = task_blocked;
        sp = add32 tsk page_size;
        priority = priority;
        magic = task_magic;
        name = take 15 name;
      }
      s ←
          under_list_slock
            (λ s. record s { links = list_add (all_tasks tsk) s.all_tasks_list s.links })
            (record s { tasks = write_task tsk t s.tasks })
      r ← allocate_pid s
      let (pid, s) = r
      let slice = div_round_up priority prio_default
      done (record s {
        tasks =
            write_task tsk (record t { pid = pid; time_slice_init = slice; time_slice_res = slice })
              s.tasks;
      }))

-- `(pid_t)-1`
abbrev pub no_pid : ℕ
no_pid = 2 ^ 32 - 1

-- The size of `struct kernel_proc_stack`, three pointers, and of `struct switch_frame`, seven words.
abbrev pub sizeof_kernel_proc_stack : ℕ
sizeof_kernel_proc_stack = 12

abbrev pub sizeof_switch_frame : ℕ
sizeof_switch_frame = 28

-- `task_exit` and `switch_initial` are the addresses of the two routines.
module _ (task_exit switch_initial : ℕ) where
  -- The saved stack of a new task.
  unfoldable pub saved_stack : ℕ → ℕ → ℕ → Sched → Sched
  saved_stack tsk proc params s =
      let proc_stack = sub32 (s.tasks tsk).sp sizeof_kernel_proc_stack in
      let mem = store32 (add32 proc_stack 8) params s.mem in
      let mem = store32 (add32 proc_stack 4) task_exit mem in
      let mem = store32 proc_stack proc mem in
      let switch_stack = sub32 proc_stack sizeof_switch_frame in
      let mem = store32 (add32 switch_stack 16) switch_initial mem in
      record s {
        mem = mem;
        tasks = write_task tsk (record (s.tasks tsk) { sp = switch_stack }) s.tasks;
      }

  -- What `task_create` does with its page.
  unfoldable pub create_in_page :
      ℕ → ℕ → ℕ → Option (List ℕ) → ℕ → TaskStatus → Sched → Outcome (ℕ × Sched)
  unfolding saved_stack
  create_in_page tsk proc params name priority status s = do
    s ← task_struct_init tsk name priority (clear_task tsk s)
    let s = saved_stack tsk proc params s
    s ←
        under_list_slock
          (λ s. record s {
            links = list_add_tail (queued_tasks tsk) (ready_head s (s.tasks tsk).priority) s.links;
          })
          s
    let s = set_status tsk status s
    done ((s.tasks tsk).pid, s)

  unfoldable pub task_create :
      ℕ → ℕ → Option (List ℕ) → ℕ → TaskStatus → Sched → Outcome (ℕ × Sched)
  unfolding create_in_page
  task_create proc params name priority status s = if proc == null then done (no_pid, s) else do
    r ← mm_kget_page pf_zero s.pool s.mem
    let (tsk, pool, mem) = r
    let s = record s { pool = pool; mem = mem }
    if tsk == null then done (no_pid, s) else create_in_page tsk proc params name priority status s
