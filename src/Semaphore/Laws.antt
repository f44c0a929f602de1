-- ===== src/Semaphore/Laws.antt =====
-- What the semaphores do to the lists and the tasks.
use qemu_usage_test.Base.{
  ℕ, ◌≡◌, ◌≢◌, refl, sym, ap, ◌∙◌, List, [], ◌∷◌, ◌++◌, true, false, Outcome, done, ne→==, eq→==,
  Bool-cases, inl, inr, arith, sub32, add32,
}
use mathlib.Core.Path.{subst}
use qemu_usage_test.Spin.{spin_lock, spin_unlock}
use qemu_usage_test.Links.{Links, list_empty, list_pop, list_del, list_add_tail}
use qemu_usage_test.Links.Shape.{IsList, Absent, Apart, Distinct, Apart-sym}
use qemu_usage_test.Links.Laws.{list_empty_iff, list_pop-IsList}
use qemu_usage_test.Links.Insert.{list_add_tail-IsList}
use qemu_usage_test.Links.Frame.{list_del-frame, list_add-frame}
use qemu_usage_test.Sched.{
  Sched, task_running, is_blocked, queued_tasks, queued_entry, ready_head, not_positive, valid_task,
  set_status, task_resume,
}
use qemu_usage_test.Semaphore.{Semaphore, sema_down, sema_up, wake_first}

-- A semaphore with a positive count is taken at once.
pub sema_down_taken :
    (sema : Semaphore) (s : Sched)
    → sema.slock ≡ 1
    → not_positive sema.count ≡ false
    → sema_down sema s ≡ done (record sema { count = sub32 sema.count 1; slock = 1 }, s)
unfolding sema_down spin_lock spin_unlock
sema_down_taken sema s free h = rw (free, h) refl

resume-blocked :
    (tsk : ℕ) (s : Sched)
    → s.list_slock ≡ 1
    → valid_task (s.tasks tsk) ≡ true
    → is_blocked (s.tasks tsk).status ≡ true
    → task_resume tsk s
      ≡ done (record (set_status tsk task_running s) {
        links = list_add_tail (queued_tasks tsk) (ready_head s (s.tasks tsk).priority) s.links;
        list_slock = 1;
      })
unfolding task_resume spin_lock spin_unlock
resume-blocked tsk s free valid blocked = rw (valid, free, blocked, eq→== tsk tsk refl) refl

-- What `sema_up` leaves where it wakes the task `w`.
pub record Woken (sema : Semaphore) (s : Sched) (w : ℕ) (ws rs : List ℕ)
    (r : Outcome (Semaphore × Sched)) : Type 0 where
  pub s' : Sched
  pub returns : r ≡ done (record sema { count = add32 sema.count 1; slock = 1 }, s')
  pub waiting : IsList s'.links sema.wait ws
  pub ready : IsList s'.links (ready_head s (s.tasks w).priority) (rs ++ queued_tasks w ∷ [])
  pub running : (s'.tasks w).status ≡ task_running
  pub others : (t : ℕ) → t ≢ w → s'.tasks t ≡ s.tasks t
  pub current : s'.current ≡ s.current
  pub unlocked : s'.list_slock ≡ 1

sema_up_eq :
    (sema : Semaphore) (s s' : Sched)
    → sema.slock ≡ 1
    → not_positive (add32 sema.count 1) ≡ false
    → list_empty sema.wait s.links ≡ false
    → wake_first (record sema { count = add32 sema.count 1; slock = 0 }) s ≡ done s'
    → sema_up sema s ≡ done (record sema { count = add32 sema.count 1; slock = 1 }, s')
unfolding sema_up spin_lock spin_unlock
sema_up_eq sema s s' free up some_wait e = rw (free, up, some_wait, e) refl

pop-frame :
    {l : Links} {head other x : ℕ} {xs zs : List ℕ}
    → IsList l other zs
    → IsList l head (x ∷ xs)
    → Apart (other ∷ zs) (head ∷ x ∷ xs)
    → IsList (list_pop head l).1 other zs
unfolding list_pop
pop-frame {l} {head} {other} {x} {xs} {zs} kept is apart =
    let e : l.next head ≡ x = is.linked.0 in
    subst (λ n. IsList (list_del n l) other zs) (sym e) (list_del-frame kept [] x xs is apart)

Absent-head : (h x : ℕ) (xs : List ℕ) → Distinct (h ∷ x ∷ xs) → Absent x (h ∷ xs)
Absent-head h x xs d = ((λ e. d.0.0 (sym e)), d.1.0)

list_empty-cons :
    {l : Links} {head x : ℕ} {xs : List ℕ} → IsList l head (x ∷ xs) → list_empty head l ≡ false
list_empty-cons {l} {head} is = elim (Bool-cases (list_empty head l)) [
  | inl e ↦ cc ((list_empty_iff is).0 e)
  | inr e ↦ e
]

-- The task `w` is the first of those that wait for the semaphore; `rs` is the ready list of its
-- priority.
pub record Waiting (sema : Semaphore) (s : Sched) (w : ℕ) (ws rs : List ℕ) : Type 0 where
  pub free : sema.slock ≡ 1
  pub unlocked : s.list_slock ≡ 1
  pub wait : IsList s.links sema.wait (queued_tasks w ∷ ws)
  pub ready : IsList s.links (ready_head s (s.tasks w).priority) rs
  pub apart : Apart (sema.wait ∷ queued_tasks w ∷ ws) (ready_head s (s.tasks w).priority ∷ rs)
  pub valid : valid_task (s.tasks w) ≡ true
  pub blocked : is_blocked (s.tasks w).status ≡ true

module _ (sema : Semaphore) (s : Sched) (w : ℕ) where
  abbrev popped : Sched
  popped = record s { links = (list_pop sema.wait s.links).1 }

  abbrev woken : Sched
  woken = record (set_status w task_running popped) {
    links = list_add_tail (queued_tasks w) (ready_head s (s.tasks w).priority) popped.links;
    list_slock = 1;
  }

  wake_first_eq :
      {ws rs : List ℕ} (sema' : Semaphore)
      → Waiting sema s w ws rs
      → sema'.wait ≡ sema.wait
      → wake_first sema' s ≡ done woken
  unfolding wake_first
  wake_first_eq sema' is same =
      let entry : queued_entry ((list_pop sema.wait s.links).0) ≡ w =
        ap queued_entry (list_pop-IsList is.wait).0 ∙ omega arith in
      rw (same, entry) (resume-blocked w popped is.unlocked is.valid is.blocked)

  -- Where a valid blocked task waits at the front of a semaphore whose count plus one is
  -- positive, whose lock and the list lock are free and whose list shares no node with the ready
  -- list of that task's priority, `sema_up` takes the task off the waiting list, puts it at the
  -- end of that ready list as running and raises the count, and changes no other task.
  pub sema_up-Woken :
      {ws rs : List ℕ}
      → Waiting sema s w ws rs
      → not_positive (add32 sema.count 1) ≡ false
      → Woken sema s w ws rs (sema_up sema s)
  sema_up-Woken {ws} {rs} is up =
      let back =
        Apart-sym (sema.wait ∷ queued_tasks w ∷ ws) (ready_head s (s.tasks w).priority ∷ rs)
          is.apart in
      let node : (list_pop sema.wait s.links).0 ≡ queued_tasks w = (list_pop-IsList is.wait).0 in
      let rest : IsList popped.links sema.wait ws = (list_pop-IsList is.wait).1 in
      let kept : IsList popped.links (ready_head s (s.tasks w).priority) rs =
        pop-frame is.ready is.wait back in
      record {
        s' = woken;
        returns =
            sema_up_eq sema s woken is.free up (list_empty-cons is.wait) (wake_first_eq _ is refl);
        waiting =
            (list_add-frame rest (queued_tasks w) kept
              (Absent-head sema.wait (queued_tasks w) ws is.wait.distinct)
              (is.apart.0, is.apart.1.1)).1;
        ready = list_add_tail-IsList (queued_tasks w) kept (λ e. is.apart.1.0.0 e) is.apart.1.0.1;
        running = rw (eq→== w w refl) refl;
        others = λ t h. rw (ne→== t w h) refl;
        current = refl;
        unlocked = refl;
      }

-- Where a valid blocked task waits for a semaphore of count 0, as in the statement on `sema_up`,
-- the call `sema_up` makes that task run and yet leaves a count that the next `sema_down` takes at
-- once, so that one release lets two tasks pass.
pub sema_down-sema_up :
    (sema : Semaphore) (s : Sched) (w : ℕ) {ws rs : List ℕ}
    → Waiting sema s w ws rs
    → sema.count ≡ 0
    → (sema1 : Semaphore) × (s1 : Sched) × (sema_up sema s ≡ done (sema1, s1))
      × ((s1.tasks w).status ≡ task_running)
      × (sema_down sema1 s1 ≡ done (record sema { count = 0; slock = 1 }, s1))
sema_down-sema_up sema s w is zero =
    let r = sema_up-Woken sema s w is (rw zero refl) in
    (
      record sema { count = add32 sema.count 1; slock = 1 },
      r.s',
      r.returns,
      r.running,
      sema_down_taken (record sema { count = add32 sema.count 1; slock = 1 }) r.s' refl
            (rw zero refl)
          ∙ rw zero refl,
    )
