-- ===== src/Devices/Gates/Turns.antt =====
-- Timer interrupts one after the other, while no task acts: what one of them leaves of the ready
-- tasks and their time slices.
use mathlib.Core.Path.{subst}
use mathlib.Core.List.{map-append}
use native.Mathlib.Decide.{ℕ_discrete}
use qemu_usage_test.Base.{
  ℕ, ◌-◌, ◌^◌, ◌≤◌, ◌<◌, ◌≡◌, ◌≢◌, refl, sym, ap, ◌∙◌, true, false, List, [], ◌∷◌, ◌++◌, map, done,
  All, All-append, All-split, All-imp, eq→==, ne→==, sub32, arith,
}
use qemu_usage_test.Memory.{null}
use qemu_usage_test.Sched.{
  Sched, TaskStruct, is_running, queued_tasks, write_task, not_positive, task_tick, schedule,
}
use qemu_usage_test.Sched.Switch.{IsReady, Switched, schedule_running, queued_entry-queued_tasks}
use qemu_usage_test.Sched.Life.{restarted}

-- Time slices from 1 to `m` ticks.
pub record IsSliced (m : ℕ) (t : TaskStruct) : Type 0 where
  pub left : 0 < t.time_slice_res
  pub left_bounded : t.time_slice_res ≤ m
  pub full : 0 < t.time_slice_init
  pub full_bounded : t.time_slice_init ≤ m

abbrev pub HasSlice : ℕ → (ℕ → TaskStruct) → ℕ → Type 0
HasSlice m tasks t = (t ≢ null) × IsSliced m (tasks t)

-- The ready tasks of the default priority in their order, while one of them runs.
pub record Turning (m : ℕ) (ts : List ℕ) (s : Sched) : Type 0 where
  pub lock_free : s.list_slock ≡ 1
  pub ready : IsReady s (map queued_tasks ts)
  pub running : is_running (s.tasks s.current).status ≡ true
  pub slices : All (HasSlice m s.tasks) ts

-- The state behind a tick that does not end the slice.
abbrev pub ticked : Sched → Sched
ticked s = record s {
  sched_on_return = false;
  tasks =
      write_task s.current
        (record (s.tasks s.current) { time_slice_res = (s.tasks s.current).time_slice_res - 1 })
        s.tasks;
}

tick_on :
    (s : Sched)
    → 1 < (s.tasks s.current).time_slice_res
    → (s.tasks s.current).time_slice_res < 2 ^ 31
    → task_tick (record s { sched_on_return = false }) ≡ ticked s
unfolding task_tick
tick_on s h k =
    let less : sub32 (s.tasks s.current).time_slice_res 1 ≡ (s.tasks s.current).time_slice_res - 1 =
      omega arith in
    let go_on : not_positive ((s.tasks s.current).time_slice_res - 1) ≡ false =
      ground (arith, h, k) in
    rw (less, go_on) refl

write-HasSlice :
    (m : ℕ) (tasks : ℕ → TaskStruct) (c : ℕ) (u : TaskStruct)
    → IsSliced m u
    → (t : ℕ) → HasSlice m tasks t
    → HasSlice m (write_task c u tasks) t
write-HasSlice m tasks c u l t h = elim (ℕ_discrete t c) [
  | yes e ↦ (h.0, rw (eq→== t c e) l)
  | no ne ↦ (h.0, rw (ne→== t c ne) (h.1))
]

-- The tasks `ys`, `t` and `zs` in this order, with `t` running.
module _ (m : ℕ) (small : m < 2 ^ 31) (ys zs : List ℕ) (s : Sched)
    (turning : Turning m (ys ++ s.current ∷ zs) s) where
  pub current_slice : HasSlice m s.tasks s.current
  current_slice = (All-split (HasSlice m s.tasks) ys (s.current ∷ zs) turning.slices).1.0

  pub ticked-Turning :
      1 < (s.tasks s.current).time_slice_res → Turning m (ys ++ s.current ∷ zs) (ticked s)
  ticked-Turning h =
      let u : TaskStruct = record (s.tasks s.current) {
        time_slice_res = (s.tasks s.current).time_slice_res - 1;
      } in
      let l : IsSliced m u = record {
        left = omega arith;
        left_bounded = omega (arith, current_slice.1.left_bounded);
        full = current_slice.1.full;
        full_bounded = current_slice.1.full_bounded;
      } in
      record {
        lock_free = turning.lock_free;
        ready = turning.ready;
        running = rw (eq→== s.current s.current refl) turning.running;
        slices =
            All-imp (HasSlice m s.tasks) (HasSlice m (write_task s.current u s.tasks))
              (write-HasSlice m s.tasks s.current u l) (ys ++ s.current ∷ zs) turning.slices;
      }

  pub tick_eq :
      1 < (s.tasks s.current).time_slice_res
      → task_tick (record s { sched_on_return = false }) ≡ ticked s
  tick_eq h = tick_on s h (omega (arith, current_slice.1.left_bounded))

  queued_rotated :
      (map queued_tasks ys ++ map queued_tasks zs) ++ queued_tasks s.current ∷ []
      ≡ map queued_tasks ((ys ++ zs) ++ s.current ∷ [])
  queued_rotated = sym (
      map-append queued_tasks (ys ++ zs) (s.current ∷ [])
      ∙ ap (λ l. l ++ queued_tasks s.current ∷ []) (map-append queued_tasks ys zs))

  -- The end of a slice: the task at the front runs, and `t` is at the end.
  pub schedule-Turning :
      {first : ℕ} {rest : List ℕ}
      → ys ++ s.current ∷ zs ≡ first ∷ rest
      → (s' : Sched) × (schedule (restarted s) ≡ done s')
        × (s'.current ≡ first)
        × Turning m ((ys ++ zs) ++ s.current ∷ []) s'
  schedule-Turning {first} {rest} e =
      let h = current_slice in
      let u : TaskStruct = record (s.tasks s.current) {
        time_slice_res = (s.tasks s.current).time_slice_init;
      } in
      let l : IsSliced m u = record {
        left = h.1.full;
        left_bounded = h.1.full_bounded;
        full = h.1.full;
        full_bounded = h.1.full_bounded;
      } in
      let nodes : map queued_tasks ys ++ queued_tasks s.current ∷ map queued_tasks zs
          ≡ queued_tasks first ∷ map queued_tasks rest =
        sym (map-append queued_tasks ys (s.current ∷ zs)) ∙ ap (map queued_tasks) e in
      let still : is_running ((restarted s).tasks s.current).status ≡ true =
        rw (eq→== s.current s.current refl) turning.running in
      let sw : Switched (restarted s) (queued_tasks first)
          ((map queued_tasks ys ++ map queued_tasks zs) ++ queued_tasks s.current ∷ [])
          (schedule (restarted s)) =
        schedule_running {s = restarted s} turning.lock_free h.0 (map queued_tasks ys)
          (map queued_tasks zs) nodes (subst (IsReady s) (ap (map queued_tasks) e) turning.ready)
          still in
      let kept : (t : ℕ) → HasSlice m s.tasks t → HasSlice m sw.s'.tasks t = λ t k.
        let k' = write-HasSlice m s.tasks s.current u l t k in
        (
          k.0,
          record {
            left = rw (sw.slice t) k'.1.left;
            left_bounded = rw (sw.slice t) k'.1.left_bounded;
            full = rw (sw.slice_init t) k'.1.full;
            full_bounded = rw (sw.slice_init t) k'.1.full_bounded;
          },
        ) in
      let parts = All-split (HasSlice m s.tasks) ys (s.current ∷ zs) turning.slices in
      let turned : All (HasSlice m s.tasks) ((ys ++ zs) ++ s.current ∷ []) =
        All-append (HasSlice m s.tasks) (ys ++ zs) (s.current ∷ [])
          (All-append (HasSlice m s.tasks) ys zs parts.0 parts.1.1) (h, tt) in
      (
        sw.s',
        sw.returns,
        sw.current ∙ queued_entry-queued_tasks first,
        record {
          lock_free = sw.unlocked;
          ready = subst (IsReady sw.s') queued_rotated sw.queued;
          running = ap is_running sw.running;
          slices =
              All-imp (HasSlice m s.tasks) (HasSlice m sw.s'.tasks) kept
                ((ys ++ zs) ++ s.current ∷ []) turned;
        },
      )
