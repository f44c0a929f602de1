-- ===== src/Sched/Start.antt =====
-- kernel/sched.c: the start of the scheduler.
use qemu_usage_test.Base.{ℕ, ◌+◌, zero, suc, List, [], ◌∷◌, some, Outcome, done, ◌>>=◌}
use qemu_usage_test.Memory.{null}
use qemu_usage_test.Spin.{spin_lock_init}
use qemu_usage_test.Links.{list_head_init, list_add}
use qemu_usage_test.Sched.{
  Sched, task_running, task_ready, prio_default, queued_tasks, ready_head, set_status,
}
use qemu_usage_test.Sched.Create.{task_struct_init, task_create}
use qemu_usage_test.Semaphore.{Semaphore, sema_init, sema_down}

-- PRIO_NUM
abbrev pub prio_num : ℕ
prio_num = 64

-- The heads of the ready lists up to `n`.
unfoldable pub init_ready_lists : ℕ → Sched → Sched
init_ready_lists zero s = s
init_ready_lists (suc n) s =
    let s = init_ready_lists n s in record s { links = list_head_init (ready_head s n) s.links }

-- "init" and "idle"
abbrev pub init_name : List ℕ
init_name = 105 ∷ 110 ∷ 105 ∷ 116 ∷ []

abbrev pub idle_name : List ℕ
idle_name = 105 ∷ 100 ∷ 108 ∷ 101 ∷ []

-- The semaphore lies at `sem`; `idle_proc` is the address of the
-- idle task's routine.
module _ (task_exit switch_initial idle_proc sem : ℕ) where
  -- The tasks are made, up to the wait for the first idle task.
  unfoldable pub init_tasks : Sched → Outcome Sched
  init_tasks s = do
    let s = record s { init_task = s.current }
    s ← task_struct_init s.init_task (some init_name) prio_default s
    let s = set_status s.init_task task_running s
    let s = record s {
      links =
          list_add (queued_tasks s.init_task) (ready_head s (s.tasks s.init_task).priority) s.links;
    }
    r ←
        task_create task_exit switch_initial idle_proc sem (some idle_name) prio_default task_ready
          s
    r ←
        task_create task_exit switch_initial idle_proc null (some idle_name) prio_default task_ready
          r.1
    done r.1

  unfoldable pub sched_init : Sched → Outcome (Semaphore × Sched)
  sched_init s = do
    let (sema, s) = sema_init (record { slock = 0; count = 0; wait = sem + 8 }) 0 s
    let s = record s {
      pid_slock = spin_lock_init s.pid_slock;
      list_slock = spin_lock_init s.list_slock;
    }
    let s = init_ready_lists prio_num s
    let s = record s { links = list_head_init s.all_tasks_list s.links }
    s ← init_tasks s
    sema_down sema s
