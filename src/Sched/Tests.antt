-- ===== src/Sched/Tests.antt =====
-- The theorems at the small kernel.
use qemu_usage_test.Base.{◌≡◌, refl, [], ◌∷◌, done, some, arith}
use qemu_usage_test.Str.{memset}
use qemu_usage_test.Spin.{spin_lock, spin_unlock}
use qemu_usage_test.Bitmap.{find_first_bits_group, set_multi_bits}
use qemu_usage_test.Mm.{pf_zero, mm_kget_page, mm_kget_pages}
use qemu_usage_test.Links.Shape.{IsList}
use qemu_usage_test.Sched.Saved.{Saved, saved_stack-Saved}
use qemu_usage_test.Sched.Start.{sched_init}
use qemu_usage_test.Sched.Stage.{Grants}
use qemu_usage_test.Sched.Started.{SchedStarted, sched_init-SchedStarted}
use qemu_usage_test.Sched.{
  Sched, task_running, task_ready, task_blocked, valid_priority, schedule, task_exit,
}
use qemu_usage_test.Sched.Sample.{kernel, test_task, test_links, test_pool}
use qemu_usage_test.Sched.Create.{task_create, saved_stack}
use qemu_usage_test.Sched.Created.{Created, task_create-Created}
use qemu_usage_test.Sched.Life.{Exited, task_exit-Exited}
use qemu_usage_test.Sched.Switch.{IsReady, Switched, schedule_running}

kernel-IsReady : IsReady (kernel task_running task_blocked) (0x1030 ∷ 0x2030 ∷ [])
kernel-IsReady = record { linked = omega arith; distinct = omega arith }

schedule_running_example :
    Switched
      (kernel task_running task_blocked)
      0x1030
      (0x2030 ∷ 0x1030 ∷ [])
      (schedule (kernel task_running task_blocked))
schedule_running_example =
    schedule_running refl (omega arith) [] (0x2030 ∷ []) refl kernel-IsReady refl

stopped-IsReady : IsReady (kernel task_ready task_blocked) (0x1030 ∷ 0x2030 ∷ [])
stopped-IsReady = record { linked = omega arith; distinct = omega arith }

one_page :
    mm_kget_page pf_zero (test_pool 1) (λ a. 7)
    ≡ done (0xc0102000, test_pool 3, (memset 0xc0102000 0 4096 (λ a. 7)).1)
unfolding mm_kget_page mm_kget_pages spin_lock spin_unlock find_first_bits_group set_multi_bits
one_page = refl

all_tasks-IsList : IsList test_links 900 []
all_tasks-IsList = record { linked = (refl, refl); distinct = (tt, tt) }

task_create-Created_example :
    Created 0xc0102000
      (105 ∷ [])
      31
      task_ready
      (record (kernel task_running task_blocked) {
        pool = test_pool 3;
        mem = (memset 0xc0102000 0 4096 (λ a. 7)).1;
      })
      []
      (0x1030 ∷ 0x2030 ∷ [])
      (task_create 11 12 13 14 (some (105 ∷ [])) 31 task_ready (kernel task_running task_blocked))
task_create-Created_example =
    task_create-Created 11 12 13 14 (105 ∷ []) 31 task_ready (kernel task_running task_blocked)
      (omega arith) one_page (omega arith) (unfold valid_priority in refl) refl refl
      all_tasks-IsList kernel-IsReady (omega arith) (omega arith) (omega arith)

task_exit-Exited_example :
    Exited
      (kernel task_running task_blocked)
      0x2030
      (0x2030 ∷ [])
      (task_exit (kernel task_running task_blocked))
task_exit-Exited_example =
    task_exit-Exited (kernel task_running task_blocked) [] (0x2030 ∷ []) refl (omega arith)
      kernel-IsReady refl

-- A page that is handed out, whatever the memory holds.
first_page-Grants : Grants (test_pool 1) 0xc0102000 (test_pool 3)
unfolding mm_kget_page mm_kget_pages spin_lock spin_unlock find_first_bits_group set_multi_bits
first_page-Grants mem = ((memset 0xc0102000 0 4096 mem).1, refl)

second_page-Grants : Grants (test_pool 3) 0xc0103000 (test_pool 7)
unfolding mm_kget_page mm_kget_pages spin_lock spin_unlock find_first_bits_group set_multi_bits
second_page-Grants mem = ((memset 0xc0103000 0 4096 mem).1, refl)

abbrev unstarted : Sched
unstarted = record (kernel task_running task_blocked) { all_tasks_list = 2000 }

sched_init-SchedStarted_example :
    SchedStarted 0x4000 0xc0102000 0xc0103000 unstarted (sched_init 11 12 13 0x4000 unstarted)
sched_init-SchedStarted_example =
    sched_init-SchedStarted 11 12 13 0x4000 (omega arith) unstarted 0xc0102000 0xc0103000
      (omega arith) (omega arith) (omega arith) first_page-Grants second_page-Grants (omega arith)
      (λ k h. omega arith)

-- A new task at 0xc0102000 with an empty stack.
abbrev new : Sched
new = record (kernel task_running task_blocked) {
  tasks = λ t. record (test_task task_blocked) { sp = 0xc0103000 };
}

saved_stack-Saved_example :
    Saved 0xc0102000 0xc0103000 13 14 11 12 new (saved_stack 11 12 0xc0102000 13 14 new)
saved_stack-Saved_example =
    saved_stack-Saved 11 12 0xc0102000 13 14 new (omega arith) (omega arith) refl refl (omega arith)
      (omega arith) (omega arith) (omega arith)
