-- ===== src/Sched/Switch.antt =====
-- `schedule`: which task runs next, and what becomes of the ready list.
use qemu_usage_test.Base.{
  ℕ, ◌≡◌, ◌≢◌, refl, sym, ap, ◌∙◌, List, [], ◌∷◌, ◌++◌, true, false, ◌==◌, Outcome, done, fault,
  ne→==, eq→==, Bool-cases, inl, inr, arith,
}
use mathlib.Core.Path.{subst, subst₂}
use mathlib.Core.List.{append-nil}
use native.Mathlib.Decide.{ℕ_discrete}
use qemu_usage_test.Memory.{null}
use qemu_usage_test.Spin.{spin_lock, spin_unlock}
use qemu_usage_test.Links.{list_del, list_add_tail}
use qemu_usage_test.Links.Shape.{IsList, Absent-append}
use qemu_usage_test.Links.Laws.{Absent-del, list_del-IsList}
use qemu_usage_test.Links.Insert.{list_add_tail-IsList}
use qemu_usage_test.Sched.{
  Sched, TaskStruct, task_running, is_running, queued_tasks, queued_entry, ready_head, prio_default,
  set_status, next_task_to_run, schedule, switch_to, task_sched_post_proc,
}

-- The ready list that `schedule` takes tasks from.
abbrev pub IsReady : Sched → List ℕ → Type 0
IsReady s nodes = IsList s.links (ready_head s prio_default) nodes

module _ (s : Sched) where
  abbrev rotated : Sched
  rotated = record s {
    links =
        list_add_tail (queued_tasks s.current) (ready_head s prio_default)
          (list_del (queued_tasks s.current) s.links);
    list_slock = 1;
  }

  next_running :
      s.list_slock ≡ 1
      → is_running (s.tasks s.current).status ≡ true
      → next_task_to_run s ≡ done (queued_entry (s.links.next (ready_head s prio_default)), rotated)
  unfolding next_task_to_run spin_lock spin_unlock
  next_running free running = rw (running, free) refl

  next_stopped :
      is_running (s.tasks s.current).status ≡ false
      → next_task_to_run s ≡ done (queued_entry (s.links.next (ready_head s prio_default)), s)
  unfolding next_task_to_run
  next_stopped stopped = rw stopped refl

  pub post_proc_kept : (prev : ℕ) → prev ≢ null → task_sched_post_proc prev s ≡ done s
  unfolding task_sched_post_proc
  post_proc_kept prev h = rw (ne→== prev 0 h) refl

-- `task_sched_post_proc` does nothing for any previous task, whatever its status, and reads through
-- NULL if there is none.
pub task_sched_post_proc_lem :
    (prev : ℕ) (s : Sched)
    → (prev ≢ null → task_sched_post_proc prev s ≡ done s) × (task_sched_post_proc null s ≡ fault)
unfolding task_sched_post_proc
task_sched_post_proc_lem prev s = (post_proc_kept s prev, refl)

abbrev pub switched : ℕ → Sched → Sched
switched next s = record (set_status next task_running s) { current = next }

schedule_from :
    (s s1 : Sched) (next : ℕ)
    → next_task_to_run s ≡ done (next, s1)
    → s1.current ≡ s.current
    → s.current ≢ null
    → schedule s ≡ done (switched next s1)
unfolding schedule switch_to
schedule_from s s1 next e same h = elim (Bool-cases (s.current == next)) [
  | inl stay ↦
      rw (e, stay)
        (ap (λ c. done (record (set_status next task_running s1) { current = c }))
          (ground (arith, stay, same)))
  | inr move ↦ rw (e, move) (post_proc_kept (switched next s1) s.current h)
]

-- What `schedule` leaves: the task of the node `first` runs and the ready list holds `nodes`.
pub record Switched (s : Sched) (first : ℕ) (nodes : List ℕ) (r : Outcome Sched) : Type 0 where
  pub s' : Sched
  pub returns : r ≡ done s'
  pub current : s'.current ≡ queued_entry first
  pub queued : IsReady s' nodes
  pub running : (s'.tasks s'.current).status ≡ task_running
  pub others : (t : ℕ) → t ≢ queued_entry first → s'.tasks t ≡ s.tasks t
  pub slice : (t : ℕ) → (s'.tasks t).time_slice_res ≡ (s.tasks t).time_slice_res
  pub slice_init : (t : ℕ) → (s'.tasks t).time_slice_init ≡ (s.tasks t).time_slice_init
  pub unlocked : s'.list_slock ≡ 1

write_self : (t : ℕ) (s : Sched) → ((set_status t task_running s).tasks t).status ≡ task_running
write_self t s = rw (eq→== t t refl) refl

slice_kept :
    (n t : ℕ) (s : Sched) → ((switched n s).tasks t).time_slice_res ≡ (s.tasks t).time_slice_res
slice_kept n t s = elim (ℕ_discrete t n) [
  | yes e ↦ rw (eq→== t n e) (ap (λ u. (s.tasks u).time_slice_res) (sym e))
  | no h ↦ rw (ne→== t n h) refl
]

slice_init_kept :
    (n t : ℕ) (s : Sched) → ((switched n s).tasks t).time_slice_init ≡ (s.tasks t).time_slice_init
slice_init_kept n t s = elim (ℕ_discrete t n) [
  | yes e ↦ rw (eq→== t n e) (ap (λ u. (s.tasks u).time_slice_init) (sym e))
  | no h ↦ rw (ne→== t n h) refl
]

switched-Switched :
    (s s1 : Sched) (first : ℕ) (nodes : List ℕ)
    → schedule s ≡ done (switched (queued_entry first) s1)
    → s1.list_slock ≡ 1
    → IsReady s1 nodes
    → ((t : ℕ) → s1.tasks t ≡ s.tasks t)
    → Switched s first nodes (schedule s)
switched-Switched s s1 first nodes e free ready same = record {
  s' = switched (queued_entry first) s1;
  returns = e;
  current = refl;
  queued = ready;
  running = write_self (queued_entry first) s1;
  others = λ t h. rw (ne→== t (queued_entry first) h) (same t);
  slice = λ t. slice_kept (queued_entry first) t s1 ∙ ap TaskStruct.time_slice_res (same t);
  slice_init =
      λ t. slice_init_kept (queued_entry first) t s1 ∙ ap TaskStruct.time_slice_init (same t);
  unlocked = free;
}

pub schedule_stopped_eq :
    (s : Sched) {first : ℕ} {rest : List ℕ}
    → s.current ≢ null
    → IsReady s (first ∷ rest)
    → is_running (s.tasks s.current).status ≡ false
    → schedule s ≡ done (switched (queued_entry first) s)
schedule_stopped_eq s {first} {rest} h ready stopped =
    let next : s.links.next (ready_head s prio_default) ≡ first = ready.linked.0 in
    schedule_from s s (queued_entry first)
      (next_stopped s stopped ∙ ap (λ n. done (queued_entry n, s)) next) refl h

module _ {s : Sched} (free : s.list_slock ≡ 1) (h : s.current ≢ null) where
  -- Where the list lock is free and the current task runs and is somewhere in the ready list of
  -- the default priority, `schedule` goes on with the task that was at the front of the list,
  -- marks it as running, moves the task that called to the end of the list and changes no other
  -- task.
  pub schedule_running :
      (ys zs : List ℕ) {first : ℕ} {rest : List ℕ}
      → ys ++ queued_tasks s.current ∷ zs ≡ first ∷ rest
      → IsReady s (first ∷ rest)
      → is_running (s.tasks s.current).status ≡ true
      → Switched s first ((ys ++ zs) ++ queued_tasks s.current ∷ []) (schedule s)
  schedule_running ys zs {first} {rest} e ready running =
      let next : s.links.next (ready_head s prio_default) ≡ first = ready.linked.0 in
      let is = subst (IsReady s) (sym e) ready in
      switched-Switched s (rotated s) first _
        (schedule_from s (rotated s) (queued_entry first)
          (next_running s free running ∙ ap (λ n. done (queued_entry n, rotated s)) next) refl h)
        refl
        (list_add_tail-IsList (queued_tasks s.current)
          (list_del-IsList ys (queued_tasks s.current) zs is)
          (λ e. (Absent-append _ ys (queued_tasks s.current ∷ zs) is.distinct.0).1.0 (sym e))
          (Absent-del (queued_tasks s.current) ys zs is.distinct.1))
        (λ t. refl)

  -- Where the list lock is free and the current task does not run any more, `schedule` goes on
  -- with the task at the front of the ready list of the default priority, marks it as running,
  -- and leaves the list as it is.
  pub schedule_stopped :
      {first : ℕ} {rest : List ℕ}
      → IsReady s (first ∷ rest)
      → is_running (s.tasks s.current).status ≡ false
      → Switched s first (first ∷ rest) (schedule s)
  schedule_stopped {first} {rest} ready stopped =
      switched-Switched s s first _ (schedule_stopped_eq s h ready stopped) free ready (λ t. refl)

pub queued_entry-queued_tasks : (c : ℕ) → queued_entry (queued_tasks c) ≡ c
queued_entry-queued_tasks c = omega arith

-- Where the running task is itself at the front of the ready list, a first `schedule` leaves it
-- running, and only a second one goes on with the next task, behind which the list is rotated.
pub schedule_twice :
    (s : Sched) {d : ℕ} {rest : List ℕ}
    → s.list_slock ≡ 1
    → s.current ≢ null
    → IsReady s (queued_tasks s.current ∷ d ∷ rest)
    → is_running (s.tasks s.current).status ≡ true
    → (s' : Sched) × (schedule s ≡ done s')
      × (s'.current ≡ s.current)
      × Switched s' d ((d ∷ rest) ++ queued_tasks s.current ∷ []) (schedule s')
schedule_twice s {d} {rest} free h ready running =
    let r = schedule_running free h [] (d ∷ rest) refl ready running in
    let same : r.s'.current ≡ s.current = r.current ∙ queued_entry-queued_tasks s.current in
    let second =
      schedule_running {s = r.s'} r.unlocked (λ e. h (sym same ∙ e)) (d ∷ rest) [] {first = d}
        (ap (λ c. d ∷ rest ++ queued_tasks c ∷ []) same) r.queued (ap is_running r.running) in
    (
      r.s',
      r.returns,
      same,
      subst₂ (λ c xs. Switched r.s' d (xs ++ queued_tasks c ∷ []) (schedule r.s')) same
          (append-nil (d ∷ rest)) second,
    )
