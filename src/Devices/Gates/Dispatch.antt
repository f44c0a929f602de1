-- ===== src/Devices/Gates/Dispatch.antt =====
-- `generic_isr`, and preemption by the timer.
use mathlib.Core.Path.{subst}
use qemu_usage_test.Base.{
  ℕ, ◌≤◌, ◌<◌, ◌≡◌, ◌≢◌, refl, sym, ap, ◌∙◌, true, false, List, [], ◌∷◌, ◌++◌, Option, some,
  Outcome, done, load, lt→ltb, ltb, leb, ◌&&◌, le→leb, eq→==, ◌>>=◌, arith,
}
use qemu_usage_test.Memory.{null}
use qemu_usage_test.Sched.{Sched, is_running, queued_tasks, queued_entry, task_tick, schedule}
use qemu_usage_test.Sched.Switch.{IsReady, Switched, schedule_running}
use qemu_usage_test.Sched.Life.{restarted, tick_over}
use qemu_usage_test.Devices.Pic.{pic_end_of_interrupt}
use qemu_usage_test.Devices.{outb}
use qemu_usage_test.Devices.Timer.{systick_intr}
use qemu_usage_test.Devices.Gates.{
  Cpu, hardware_intr_start, intr_count, end_external, handle, generic_isr,
}

abbrev pub entered : Cpu → Cpu
entered c = record c {
  in_interrupt_flag = true;
  sched = record (c.sched) { sched_on_return = false };
}

module _ (call : ℕ → ℕ → Cpu → Outcome Cpu) (isr_table : List (Option ℕ)) (vec_no : ℕ)
    (c : Cpu) where
  handle_external :
      {isr : ℕ} {c' : Cpu}
      → load isr_table vec_no ≡ done (some isr)
      → call isr vec_no (entered c) ≡ done c'
      → handle call true isr_table vec_no c ≡ end_external vec_no c'
  unfolding handle
  handle_external e k = rw e (ap (λ r. r >>= end_external vec_no) k)

  -- An external interrupt with a handler comes down to the part behind the handler.
  pub generic_isr_external :
      {isr : ℕ} {c' : Cpu}
      → 32 ≤ vec_no
      → vec_no < 256
      → load isr_table vec_no ≡ done (some isr)
      → call isr vec_no (entered c) ≡ done c'
      → generic_isr call isr_table vec_no c ≡ end_external vec_no c'
  unfolding generic_isr
  generic_isr_external {isr} {c'} lo hi e k =
      let external : (leb hardware_intr_start vec_no && ltb vec_no intr_count) ≡ true =
        rw (le→leb 32 vec_no lo, lt→ltb vec_no 256 hi) refl in
      subst (λ b. handle call b isr_table vec_no c ≡ end_external vec_no c') (sym external)
        (handle_external e k)

-- What the timer's interrupt leaves where the slice of the current task is over.
pub record Preempted (c : Cpu) (first : ℕ) (nodes : List ℕ) (r : Outcome Cpu) : Type 0 where
  pub c' : Cpu
  pub returns : r ≡ done c'
  pub outside : c'.in_interrupt_flag ≡ false
  pub acknowledged : c'.writes ≡ c.writes ++ outb 0x20 0x20 ∷ []
  pub current : c'.sched.current ≡ queued_entry first
  pub queued : IsReady c'.sched nodes

-- The state behind an interrupt of the timer, with the scheduler's state `s`.
abbrev pub after_timer : Cpu → Sched → Cpu
after_timer c s = record c {
  in_interrupt_flag = false;
  writes = c.writes ++ outb 0x20 0x20 ∷ [];
  sched = s;
}

module _ (call : ℕ → ℕ → Cpu → Outcome Cpu) (isr_table : List (Option ℕ)) (systick : ℕ) (c : Cpu)
    (e : load isr_table 32 ≡ done (some systick))
    (k : call systick 32 (entered c) ≡ systick_intr (entered c)) where
  -- A tick that does not ask for a schedule.
  pub timer_goes_on :
      (s : Sched)
      → task_tick (entered c).sched ≡ s
      → s.sched_on_return ≡ false
      → generic_isr call isr_table 32 c ≡ done (after_timer c s)
  unfolding end_external systick_intr pic_end_of_interrupt
  timer_goes_on s tick kept =
      generic_isr_external call isr_table 32 c (omega arith) (omega arith) e k
      ∙ rw (tick, kept) refl

  pub timer_schedules :
      (s' : Sched)
      → (c.sched.tasks c.sched.current).time_slice_res ≡ 1
      → schedule (restarted (entered c).sched) ≡ done s'
      → generic_isr call isr_table 32 c ≡ done (after_timer c s')
  unfolding end_external systick_intr pic_end_of_interrupt
  timer_schedules s' over returns =
      generic_isr_external call isr_table 32 c (omega arith) (omega arith) e k
      ∙ rw (tick_over (entered c).sched over, returns) refl

module _ (call : ℕ → ℕ → Cpu → Outcome Cpu) (isr_table : List (Option ℕ)) (systick : ℕ)
    (c : Cpu) where
  -- Where the timer handler is at vector 32, the list lock is free and the current task runs, is
  -- in the ready list of the default priority and is at the last tick of its slice, `generic_isr`
  -- for the timer acknowledges the interrupt, leaves the interrupt state and goes on with the
  -- task at the front of the list, with the old task at its end.
  pub timer_preempts :
      (ys zs : List ℕ) {first : ℕ} {rest : List ℕ}
      → load isr_table 32 ≡ done (some systick)
      → call systick 32 (entered c) ≡ systick_intr (entered c)
      → c.sched.list_slock ≡ 1
      → c.sched.current ≢ null
      → ys ++ queued_tasks c.sched.current ∷ zs ≡ first ∷ rest
      → IsReady c.sched (first ∷ rest)
      → is_running (c.sched.tasks c.sched.current).status ≡ true
      → (c.sched.tasks c.sched.current).time_slice_res ≡ 1
      → Preempted c first
          ((ys ++ zs) ++ queued_tasks c.sched.current ∷ [])
          (generic_isr call isr_table 32 c)
  timer_preempts ys zs {first} {rest} e k free h ready_eq ready running over =
      let s = restarted (entered c).sched in
      let still : is_running (s.tasks s.current).status ≡ true =
        rw (eq→== c.sched.current c.sched.current refl) running in
      let sw : Switched s first ((ys ++ zs) ++ queued_tasks c.sched.current ∷ []) (schedule s) =
        schedule_running {s = s} free h ys zs ready_eq ready still in
      record {
        c' = after_timer c sw.s';
        returns = timer_schedules call isr_table systick c e k sw.s' over sw.returns;
        outside = refl;
        acknowledged = refl;
        current = sw.current;
        queued = sw.queued;
      }
