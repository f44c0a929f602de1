-- ===== src/Devices/Ide/Setup.antt =====
-- What the start of the driver leaves: adaptors that can be used at once.
use qemu_usage_test.Base.{ℕ, ◌≡◌, ◌≢◌, refl, true, arith, ne→==, eq→==}
use qemu_usage_test.Spin.{spin_lock_init, spin_unlock}
use qemu_usage_test.Links.{Links, list_head_init, list_empty}
use qemu_usage_test.Semaphore.{sema_init}
use qemu_usage_test.Devices.Ide.Transfer.{Ide}
use qemu_usage_test.Devices.Ide.Start.{init_channel}
use qemu_usage_test.Devices.Ide.Settled.{Unused}

pub head_init-empty : (h : ℕ) (l : Links) → list_empty h (list_head_init h l) ≡ true
unfolding list_empty list_head_init
head_init-empty h l = rw (eq→== h h refl, eq→== h h refl) refl

-- Another list that is set up leaves an empty one empty.
head_init-others :
    (h k : ℕ) (l : Links) → h ≢ k → list_empty h l ≡ true → list_empty h (list_head_init k l) ≡ true
unfolding list_empty list_head_init
head_init-others h k l d e = rw (ne→== h k d) e

-- The list heads of the four semaphores lie at different addresses.
pub record HeadsApart (s : Ide) : Type 0 where
  pub first : (s.channels 0).sema_wait.wait ≢ (s.channels 0).sema_rw.wait
  pub second : (s.channels 1).sema_wait.wait ≢ (s.channels 1).sema_rw.wait
  pub waits : (s.channels 0).sema_wait.wait ≢ (s.channels 1).sema_wait.wait
  pub wait_rw : (s.channels 0).sema_wait.wait ≢ (s.channels 1).sema_rw.wait
  pub rw_wait : (s.channels 0).sema_rw.wait ≢ (s.channels 1).sema_wait.wait
  pub rws : (s.channels 0).sema_rw.wait ≢ (s.channels 1).sema_rw.wait

-- Where the list heads of the four semaphores are apart, setting up both adaptors leaves each of
-- them unused: its own lock and those of its semaphores are free, one task may read or write, no
-- interrupt is pending, nobody waits and the two have different interrupts.
pub init_channel-Unused :
    (s : Ide)
    → HeadsApart s
    → Unused 0 (init_channel 1 (init_channel 0 s)) × Unused 1 (init_channel 1 (init_channel 0 s))
unfolding init_channel sema_init spin_lock_init spin_unlock
init_channel-Unused s h =
    let w0 = (s.channels 0).sema_wait.wait in
    let r0 = (s.channels 0).sema_rw.wait in
    let w1 = (s.channels 1).sema_wait.wait in
    let r1 = (s.channels 1).sema_rw.wait in
    let l0 = list_head_init r0 (list_head_init w0 s.sched.links) in
    let l1 = list_head_init w1 l0 in
    (
      record {
        adaptor = omega arith;
        apart = omega arith;
        lock_free = refl;
        rw_free = refl;
        rw_count = refl;
        rw_empty = head_init-others r0 r1 l1 h.rws (
            head_init-others r0 w1 l0 h.rw_wait
              (head_init-empty r0 (list_head_init w0 s.sched.links)));
        wait_free = refl;
        wait_count = refl;
        wait_empty = head_init-others w0 r1 l1 h.wait_rw (
            head_init-others w0 w1 l0 h.waits (
              head_init-others w0 r0 (list_head_init w0 s.sched.links) h.first
                (head_init-empty w0 s.sched.links)));
      },
      record {
        adaptor = omega arith;
        apart = omega arith;
        lock_free = refl;
        rw_free = refl;
        rw_count = refl;
        rw_empty = head_init-empty r1 l1;
        wait_free = refl;
        wait_count = refl;
        wait_empty = head_init-others w1 r1 l1 h.second (head_init-empty w1 l0);
      },
    )
