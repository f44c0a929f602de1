-- ===== src/Semaphore/Down.antt =====
-- `sema_down` where the current task has to wait.
use qemu_usage_test.Base.{
  ℕ, ◌≡◌, ◌≢◌, refl, sym, List, ◌∷◌, ◌++◌, true, false, Outcome, done, ne→==, eq→==, arith,
}
use mathlib.Core.Path.{subst}
use qemu_usage_test.Spin.{spin_lock, spin_unlock}
use qemu_usage_test.Links.{list_del, list_add}
use qemu_usage_test.Links.Shape.{IsList, Absent, Apart, Apart-sym, Apart-del, Absent-append}
use qemu_usage_test.Links.Laws.{Absent-del, list_del-IsList}
use qemu_usage_test.Links.Insert.{list_add-IsList}
use qemu_usage_test.Links.Frame.{list_del-frame, list_add-frame}
use qemu_usage_test.Sched.{
  Sched, task_blocked, queued_tasks, queued_entry, ready_head, prio_default, not_positive,
  is_running, set_status, task_suspend, schedule,
}
use qemu_usage_test.Memory.{null}
use qemu_usage_test.Sched.Switch.{IsReady, switched, schedule_stopped_eq}
use qemu_usage_test.Semaphore.{Semaphore, sema_down}

-- What `sema_down` leaves where the current task has to wait.
pub record Asleep (sema : Semaphore) (s : Sched) (first : ℕ) (ws nodes : List ℕ)
    (r : Outcome (Semaphore × Sched)) : Type 0 where
  pub s' : Sched
  pub returns : r ≡ done (record sema { slock = 1 }, s')
  pub waiting : IsList s'.links sema.wait (queued_tasks s.current ∷ ws)
  pub ready : IsReady s' nodes
  pub blocked : (s'.tasks s.current).status ≡ task_blocked
  pub current : s'.current ≡ queued_entry first

abbrev asleep : ℕ → ℕ → Sched → Sched
asleep tsk wait s = record (set_status tsk task_blocked s) {
  links = list_add (queued_tasks tsk) wait (list_del (queued_tasks tsk) s.links);
  list_slock = 1;
}

suspend_eq :
    (tsk wait : ℕ) (s : Sched)
    → s.list_slock ≡ 1
    → task_suspend tsk wait s ≡ done (asleep tsk wait s)
unfolding task_suspend spin_lock spin_unlock
suspend_eq tsk wait s free = rw free refl

sema_down_eq :
    (sema : Semaphore) (s s' : Sched)
    → sema.slock ≡ 1
    → s.list_slock ≡ 1
    → not_positive sema.count ≡ true
    → schedule (asleep s.current sema.wait s) ≡ done s'
    → sema_down sema s ≡ done (record sema { slock = 1 }, s')
unfolding sema_down spin_lock spin_unlock
sema_down_eq sema s s' free unlocked h e =
    rw (free, h, suspend_eq s.current sema.wait s unlocked, e) refl

entry_ne : (f c : ℕ) → c ≢ 0 → queued_tasks c ≢ f → c ≢ queued_entry f
entry_ne f c h k = omega arith

module _ (sema : Semaphore) (s : Sched) (ys zs : List ℕ) {ws : List ℕ} {first : ℕ}
    {rest : List ℕ} where
  -- Where the count is not positive, the locks are free and other tasks are ready at the default
  -- priority in a list that shares no node with the waiting list, `sema_down` moves the current
  -- task from the ready list to the front of the waiting list, as blocked, and goes on with the
  -- first task that is left.
  pub sema_down-Asleep :
      sema.slock ≡ 1
      → s.list_slock ≡ 1
      → not_positive sema.count ≡ true
      → s.current ≢ null
      → IsList s.links sema.wait ws
      → IsReady s (ys ++ queued_tasks s.current ∷ zs)
      → Apart (sema.wait ∷ ws) (ready_head s prio_default ∷ (ys ++ queued_tasks s.current ∷ zs))
      → ys ++ zs ≡ first ∷ rest
      → Asleep sema s first ws (first ∷ rest) (sema_down sema s)
  sema_down-Asleep free unlocked h some_task wait ready apart e =
      let c = queued_tasks s.current in
      let s2 = asleep s.current sema.wait s in
      let wait1 : IsList (list_del c s.links) sema.wait ws =
        list_del-frame wait ys c zs ready apart in
      let ready1 : IsList (list_del c s.links) (ready_head s prio_default) (first ∷ rest) =
        subst (IsList (list_del c s.links) (ready_head s prio_default)) e
          (list_del-IsList ys c zs ready) in
      let W = sema.wait ∷ ws in
      let R = ready_head s prio_default in
      let back = Apart-sym W (R ∷ (ys ++ c ∷ zs)) apart in
      let (c_out, rest_out) = Apart-del c ys zs W back.1 in
      let not_ready : Absent c (first ∷ rest) =
        subst (Absent c) e (Absent-del c ys zs ready.distinct.1) in
      let c_head = (Absent-append R ys (c ∷ zs) ready.distinct.0).1.0 in
      let ready2 : IsReady s2 (first ∷ rest) =
        (list_add-frame ready1 c wait1 ((λ e. c_head (sym e)), not_ready)
          (back.0, subst (λ xs. Apart xs W) e rest_out)).0 in
      let stopped : is_running (s2.tasks s.current).status ≡ false =
        rw (eq→== s.current s.current refl) refl in
      record {
        s' = switched (queued_entry first) s2;
        returns =
            sema_down_eq sema s _ free unlocked h (schedule_stopped_eq s2 some_task ready2 stopped);
        waiting = list_add-IsList c wait1 c_out.0 c_out.1;
        ready = ready2;
        blocked =
            rw
              (
                ne→== s.current (queued_entry first)
                    (entry_ne first s.current some_task not_ready.0),
                eq→== s.current s.current refl,
              )
              refl;
        current = refl;
      }
