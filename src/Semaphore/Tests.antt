-- ===== src/Semaphore/Tests.antt =====
-- The theorems at the small kernel, with a semaphore that the task at 0x3000 waits for.
use qemu_usage_test.Base.{◌≡◌, refl, [], ◌∷◌, done, arith}
use qemu_usage_test.Links.Shape.{IsList}
use qemu_usage_test.Sched.{Sched, task_running, task_blocked, valid_task}
use qemu_usage_test.Sched.Sample.{kernel, test_links}
use qemu_usage_test.Sched.Switch.{IsReady}
use qemu_usage_test.Semaphore.{Semaphore, sema_down, sema_up}
use qemu_usage_test.Semaphore.Laws.{Waiting, Woken, sema_up-Woken, sema_down-sema_up}
use qemu_usage_test.Semaphore.Down.{Asleep, sema_down-Asleep}

abbrev kernel_waiting : Sched
kernel_waiting = kernel task_running task_blocked

abbrev sema : Semaphore
sema = record { slock = 1; count = 0; wait = 0x4008 }

wait-IsList : IsList test_links 0x4008 (0x3030 ∷ [])
wait-IsList = record { linked = omega arith; distinct = omega arith }

nodes-IsReady : IsReady kernel_waiting (0x1030 ∷ 0x2030 ∷ [])
nodes-IsReady = record { linked = omega arith; distinct = omega arith }

first-Waiting : Waiting sema kernel_waiting 0x3000 [] (0x1030 ∷ 0x2030 ∷ [])
first-Waiting = record {
  free = refl;
  unlocked = refl;
  wait = wait-IsList;
  ready = nodes-IsReady;
  apart = omega arith;
  valid = unfold valid_task in refl;
  blocked = refl;
}

sema_up-Woken_example :
    Woken sema kernel_waiting 0x3000 [] (0x1030 ∷ 0x2030 ∷ []) (sema_up sema kernel_waiting)
sema_up-Woken_example = sema_up-Woken sema kernel_waiting 0x3000 first-Waiting refl

sema_down-sema_up_example :
    (sema1 : Semaphore) × (s1 : Sched) × (sema_up sema kernel_waiting ≡ done (sema1, s1))
    × ((s1.tasks 0x3000).status ≡ task_running)
    × (sema_down sema1 s1 ≡ done (record sema { count = 0; slock = 1 }, s1))
sema_down-sema_up_example = sema_down-sema_up sema kernel_waiting 0x3000 first-Waiting refl

sema_down-Asleep_example :
    Asleep sema kernel_waiting 0x2030 (0x3030 ∷ []) (0x2030 ∷ []) (sema_down sema kernel_waiting)
sema_down-Asleep_example =
    sema_down-Asleep sema kernel_waiting [] (0x2030 ∷ []) refl refl refl (omega arith) wait-IsList
      nodes-IsReady (omega arith) refl
