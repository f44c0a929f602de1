-- ===== src/Sched/Life.antt =====
-- The end of a task, and its time slices.
use mathlib.Core.Path.{subst}
use qemu_usage_test.Base.{
  ℕ, zero, suc, ◌+◌, ◌^◌, ◌≤◌, ◌<◌, ◌≡◌, ◌≢◌, refl, ◌∙◌, List, ◌∷◌, ◌++◌, true, false, Outcome,
  done, ne→==, eq→==, arith, sub32,
}
use qemu_usage_test.Memory.{null}
use qemu_usage_test.Spin.{spin_lock, spin_unlock}
use qemu_usage_test.Links.{list_del}
use qemu_usage_test.Links.Shape.{IsList, Absent}
use qemu_usage_test.Links.Laws.{list_del-IsList, Absent-del}
use qemu_usage_test.Sched.{
  Sched, task_dying, is_running, queued_tasks, queued_entry, ready_head, prio_default, set_status,
  not_positive, schedule, task_exit, task_tick, write_task,
}
use qemu_usage_test.Sched.Switch.{IsReady, switched, schedule_stopped_eq}

-- What `task_exit` leaves.
pub record Exited (s : Sched) (first : ℕ) (nodes : List ℕ) (r : Outcome Sched) : Type 0 where
  pub s' : Sched
  pub returns : r ≡ done s'
  pub current : s'.current ≡ queued_entry first
  pub queued : IsReady s' nodes
  pub dying : (s'.tasks s.current).status ≡ task_dying
  pub page_kept : s'.pool ≡ s.pool

abbrev exiting : Sched → Sched
exiting s = record (set_status s.current task_dying s) {
  links = list_del (queued_tasks s.current) s.links;
  list_slock = 1;
}

exit_eq : (s s' : Sched) → s.list_slock ≡ 1 → schedule (exiting s) ≡ done s' → task_exit s ≡ done s'
unfolding task_exit spin_lock spin_unlock
exit_eq s s' free e = rw (free, e) refl

entry_ne : (f c : ℕ) → c ≢ 0 → queued_tasks c ≢ f → c ≢ queued_entry f
entry_ne f c h k = omega arith

-- Where the list lock is free and other tasks are ready at the default priority, `task_exit` marks
-- the current task as dying, takes it off the ready list and goes on with the first task that is
-- left, and the page of the dying task stays allocated.
pub task_exit-Exited :
    (s : Sched) (ys zs : List ℕ) {first : ℕ} {rest : List ℕ}
    → s.list_slock ≡ 1
    → s.current ≢ null
    → IsReady s (ys ++ queued_tasks s.current ∷ zs)
    → ys ++ zs ≡ first ∷ rest
    → Exited s first (first ∷ rest) (task_exit s)
task_exit-Exited s ys zs {first} {rest} free h ready e =
    let c = queued_tasks s.current in
    let left : IsReady (exiting s) (first ∷ rest) =
      subst (IsList (list_del c s.links) (ready_head s prio_default)) e
        (list_del-IsList ys c zs ready) in
    let out : Absent c (first ∷ rest) = subst (Absent c) e (Absent-del c ys zs ready.distinct.1) in
    let stopped : is_running ((exiting s).tasks s.current).status ≡ false =
      rw (eq→== s.current s.current refl) refl in
    record {
      s' = switched (queued_entry first) (exiting s);
      returns = exit_eq s _ free (schedule_stopped_eq (exiting s) h left stopped);
      current = refl;
      queued = left;
      dying =
          rw
            (
              ne→== s.current (queued_entry first) (entry_ne first s.current h out.0),
              eq→== s.current s.current refl,
            )
            refl;
      page_kept = refl;
    }

-- `n` ticks of the timer
abbrev pub ticks : ℕ → Sched → Sched
ticks zero s = s
ticks (suc n) s = task_tick (ticks n s)

-- What `n` ticks before the end of the slice leave of the current task and of the request.
record Ticking (s s' : Sched) (n : ℕ) : Type 0 where
  pub current : s'.current ≡ s.current
  pub res : (s'.tasks s.current).time_slice_res + n ≡ (s.tasks s.current).time_slice_res
  pub init : (s'.tasks s.current).time_slice_init ≡ (s.tasks s.current).time_slice_init
  pub request : s'.sched_on_return ≡ s.sched_on_return

tick_kept :
    (s : Sched)
    → 1 < (s.tasks s.current).time_slice_res
    → (s.tasks s.current).time_slice_res < 2 ^ 31
    → Ticking s (task_tick s) 1
unfolding task_tick
tick_kept s h k = rw go_on (record {
  current = refl;
  res = rw (eq→== s.current s.current refl) (omega arith);
  init = rw (eq→== s.current s.current refl) refl;
  request = refl;
})
  where
    go_on : not_positive (sub32 (s.tasks s.current).time_slice_res 1) ≡ false
    go_on = ground (arith, h, k)

-- A tick at the end of a slice.
abbrev pub restarted : Sched → Sched
restarted s = record s {
  sched_on_return = true;
  tasks =
      write_task s.current
        (record (s.tasks s.current) { time_slice_res = (s.tasks s.current).time_slice_init })
        s.tasks;
}

pub tick_over : (s : Sched) → (s.tasks s.current).time_slice_res ≡ 1 → task_tick s ≡ restarted s
unfolding task_tick
tick_over s h = rw stop refl
  where
    stop : not_positive (sub32 (s.tasks s.current).time_slice_res 1) ≡ true
    stop = ground (arith, h)

tick_last :
    (s : Sched)
    → (s.tasks s.current).time_slice_res ≡ 1
    → ((task_tick s).sched_on_return ≡ true)
      × (((task_tick s).tasks s.current).time_slice_res ≡ (s.tasks s.current).time_slice_init)
unfolding task_tick
tick_last s h = rw (tick_over s h, eq→== s.current s.current refl) (refl, refl)

ticks-Ticking :
    (n : ℕ) (s : Sched)
    → (s.tasks s.current).time_slice_res < 2 ^ 31
    → n < (s.tasks s.current).time_slice_res
    → Ticking s (ticks n s) n
ticks-Ticking zero s h k = record { current = refl; res = omega arith; init = refl; request = refl }
ticks-Ticking (suc n) s h k =
    let before = ticks-Ticking n s h (omega arith) in
    let step : Ticking (ticks n s) (task_tick (ticks n s)) 1 =
      tick_kept (ticks n s) (rw before.current (omega (arith, before.res)))
        (rw before.current (omega (arith, before.res))) in
    record {
      current = step.current ∙ before.current;
      res = omega (
        arith,
        before.res,
        subst
            (λ c.
              ((task_tick (ticks n s)).tasks c).time_slice_res + 1
              ≡ ((ticks n s).tasks c).time_slice_res)
            before.current step.res,
      );
      init =
          subst
            (λ c.
              ((task_tick (ticks n s)).tasks c).time_slice_init
              ≡ ((ticks n s).tasks c).time_slice_init)
            before.current step.init
          ∙ before.init;
      request = step.request ∙ before.request;
    }

-- From a residual time slice of `r + 1`, the first `r` calls of `task_tick` do not ask for a
-- schedule, and the next one does and starts a new slice.
pub ticks_slice :
    (s : Sched) (r : ℕ)
    → (s.tasks s.current).time_slice_res ≡ suc r
    → suc r < 2 ^ 31
    → ((n : ℕ) → n ≤ r → (ticks n s).sched_on_return ≡ s.sched_on_return)
      × ((ticks (suc r) s).sched_on_return ≡ true)
      × (((ticks (suc r) s).tasks s.current).time_slice_res ≡ (s.tasks s.current).time_slice_init)
ticks_slice s r full h =
    let before = ticks-Ticking r s (omega arith) (omega arith) in
    let last = tick_last (ticks r s) (rw before.current (omega (arith, before.res))) in
    (
      (λ n k. (ticks-Ticking n s (omega arith) (omega arith)).request),
      last.0,
      subst
            (λ c.
              ((task_tick (ticks r s)).tasks c).time_slice_res
              ≡ ((ticks r s).tasks c).time_slice_init)
            before.current last.1
          ∙ before.init,
    )
