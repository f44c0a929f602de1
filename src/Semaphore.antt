-- ===== src/Semaphore.antt =====
-- kernel/sync.c, the semaphores, over the scheduler's state.
pub mod Laws
pub mod Down
mod Tests
use qemu_usage_test.Base.{ℕ, Outcome, done, ◌>>=◌, if◌then◌else◌, not, add32, sub32}
use qemu_usage_test.Spin.{spin_lock, spin_unlock, spin_lock_init}
use qemu_usage_test.Links.{list_head_init, list_empty, list_pop}
use qemu_usage_test.Sched.{Sched, queued_entry, not_positive, task_suspend, task_resume, schedule}

-- `count` is the word of an int32_t, `wait` the address of the list head.
pub record Semaphore : Type 0 where
  pub slock : ℕ
  pub count : ℕ
  pub wait : ℕ

unfoldable pub sema_init : Semaphore → ℕ → Sched → Semaphore × Sched
sema_init sema count s = (
  record sema { count = count; slock = spin_lock_init sema.slock },
  record s { links = list_head_init sema.wait s.links },
)

unfoldable pub sema_down : Semaphore → Sched → Outcome (Semaphore × Sched)
sema_down sema s = do
  let curr = s.current
  slock ← spin_lock sema.slock
  let sema = record sema { slock = slock }
  if not_positive sema.count
      then (do
        s ← task_suspend curr sema.wait s
        let sema = record sema { slock = spin_unlock sema.slock }
        s ← schedule s
        done (sema, s))
      else done (record sema { count = sub32 sema.count 1; slock = spin_unlock sema.slock }, s)

-- The waiting task at the front is woken.
pub wake_first : Semaphore → Sched → Outcome Sched
wake_first sema s =
    let (node, links) = list_pop sema.wait s.links in
    task_resume (queued_entry node) (record s { links = links })

unfoldable pub sema_up : Semaphore → Sched → Outcome (Semaphore × Sched)
unfolding wake_first
sema_up sema s = do
  slock ← spin_lock sema.slock
  let sema = record sema { count = add32 sema.count 1; slock = slock }
  s ←
      if not (not_positive sema.count)
      then (if not (list_empty sema.wait s.links) then wake_first sema s else done s)
      else done s
  done (record sema { slock = spin_unlock sema.slock }, s)
