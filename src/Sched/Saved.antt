-- ===== src/Sched/Saved.antt =====
-- The stack that task_create saves for a new task: what kernel/switch.S finds there.
use qemu_usage_test.Base.{
  ℕ, ◌+◌, ◌-◌, ◌%◌, ◌^◌, ◌≤◌, ◌<◌, ◌≡◌, ◌⊎◌, inl, refl, ◌∙◌, add32, sub32, eq→==, arith,
}
use qemu_usage_test.Memory.{Memory}
use qemu_usage_test.Paging
use qemu_usage_test.Paging.{load32}
use qemu_usage_test.Paging.Words.{load32-store32, load32-store32_apart, store32-outside}
use qemu_usage_test.Sched.{Sched, current_at}
use qemu_usage_test.Sched.Create.{store32, saved_stack}

-- Below the end of the address space, a store of a word is a store of four bytes in a row.
store32-plain : (a v : ℕ) (mem : Memory) → a + 4 ≤ 2 ^ 32 → store32 a v mem ≡ Paging.store32 a v mem
unfolding store32 Paging.store32
store32-plain a v mem h =
    let e1 : add32 a 1 ≡ a + 1 = omega arith in
    let e2 : add32 a 2 ≡ a + 2 = omega arith in
    let e3 : add32 a 3 ≡ a + 3 = omega arith in rw (e1, e2, e3) refl

-- The saved frame below the end `top` of a stack: the registers of `switch_to`, the address that it
-- returns to, and behind them the routine, its return address and its argument.
pub record Saved (tsk top proc params task_exit switch_initial : ℕ) (s s' : Sched) : Type 0 where
  pub sp : (s'.tasks tsk).sp ≡ top - 40
  pub resumes : load32 (top - 40 + 16) s'.mem ≡ switch_initial
  pub runs : load32 (top - 12) s'.mem ≡ proc
  pub returns_to : load32 (top - 8) s'.mem ≡ task_exit
  pub argument : load32 (top - 4) s'.mem ≡ params
  pub current : (k : ℕ) → k < 40 → current_at ((s'.tasks tsk).sp + k) ≡ tsk
  pub outside : (a : ℕ) → (a < top - 40) ⊎ (top ≤ a) → s'.mem a ≡ s.mem a

-- The four words that are stored.
abbrev stored : ℕ → ℕ → ℕ → ℕ → ℕ → Memory → Memory
stored top proc params task_exit switch_initial mem = Paging.store32 (top - 24) switch_initial (
    Paging.store32 (top - 12) proc
      (Paging.store32 (top - 8) task_exit (Paging.store32 (top - 4) params mem)))

module _ (task_exit switch_initial tsk proc params : ℕ) (s : Sched) (low : 40 ≤ (s.tasks tsk).sp)
    (high : (s.tasks tsk).sp < 2 ^ 32) where
  abbrev top : ℕ
  top = (s.tasks tsk).sp

  saved_stack_eq :
      (saved_stack task_exit switch_initial tsk proc params s).mem
      ≡ stored top proc params task_exit switch_initial s.mem
  unfolding saved_stack
  saved_stack_eq =
      let base : sub32 top 12 ≡ top - 12 = omega arith in
      let frame : sub32 (top - 12) 28 ≡ top - 40 = omega arith in
      let e1 : add32 (top - 12) 8 ≡ top - 4 = omega arith in
      let e2 : add32 (top - 12) 4 ≡ top - 8 = omega arith in
      let e3 : add32 (top - 40) 16 ≡ top - 24 = omega arith in
      rw
        (
          base,
          frame,
          e1,
          e2,
          e3,
          store32-plain (top - 4) params s.mem (omega arith),
          store32-plain (top - 8) task_exit (Paging.store32 (top - 4) params s.mem) (omega arith),
          store32-plain (top - 12) proc
              (Paging.store32 (top - 8) task_exit (Paging.store32 (top - 4) params s.mem))
              (omega arith),
          store32-plain (top - 24) switch_initial
              (Paging.store32 (top - 12) proc
                (Paging.store32 (top - 8) task_exit (Paging.store32 (top - 4) params s.mem)))
              (omega arith),
        )
        refl

  saved_sp : ((saved_stack task_exit switch_initial tsk proc params s).tasks tsk).sp ≡ top - 40
  unfolding saved_stack
  saved_sp = rw (eq→== tsk tsk refl) (omega arith)

  -- Every stack pointer in the frame is one of this task.
  frame-current :
      tsk % 4096 ≡ 0 → top ≡ tsk + 4096 → (k : ℕ) → k < 40 → current_at (top - 40 + k) ≡ tsk
  unfolding current_at
  frame-current aligned whole k h = omega arith

  -- For a task in a page whose saved stack pointer is the end of the page, from 40 on and below
  -- 2^32, and 32-bit addresses, the stack that `task_create` saves is 40 bytes below: it holds
  -- the address of `switch_initial` where `switch_to` returns to, behind the saved registers the
  -- routine, `task_exit` as its return address and the argument; every stack pointer in it is one
  -- at which `current` is that task; and no other byte of memory changes.
  pub saved_stack-Saved :
      tsk % 4096 ≡ 0
      → top ≡ tsk + 4096
      → proc < 2 ^ 32
      → params < 2 ^ 32
      → task_exit < 2 ^ 32
      → switch_initial < 2 ^ 32
      → Saved tsk top proc params task_exit switch_initial s
          (saved_stack task_exit switch_initial tsk proc params s)
  saved_stack-Saved aligned whole hp hq ht hs =
      let m1 = Paging.store32 (top - 4) params s.mem in
      let m2 = Paging.store32 (top - 8) task_exit m1 in
      let m3 = Paging.store32 (top - 12) proc m2 in
      let e = saved_stack_eq in
      let at : top - 40 + 16 ≡ top - 24 = omega arith in
      record {
        sp = saved_sp;
        resumes = rw (e, at) (load32-store32 (top - 24) switch_initial m3 hs);
        runs = rw e (
            load32-store32_apart (top - 24) (top - 12) switch_initial m3 (inl (omega arith))
            ∙ load32-store32 (top - 12) proc m2 hp);
        returns_to = rw e (
            load32-store32_apart (top - 24) (top - 8) switch_initial m3 (inl (omega arith))
            ∙ load32-store32_apart (top - 12) (top - 8) proc m2 (inl (omega arith))
            ∙ load32-store32 (top - 8) task_exit m1 ht);
        argument = rw e (
            load32-store32_apart (top - 24) (top - 4) switch_initial m3 (inl (omega arith))
            ∙ load32-store32_apart (top - 12) (top - 4) proc m2 (inl (omega arith))
            ∙ load32-store32_apart (top - 8) (top - 4) task_exit m1 (inl (omega arith))
            ∙ load32-store32 (top - 4) params s.mem hq);
        current = λ k h. rw saved_sp (frame-current aligned whole k h);
        outside = λ a h. rw e (
            store32-outside (top - 24) switch_initial a m3 (ground (arith, h, low))
            ∙ store32-outside (top - 12) proc a m2 (ground (arith, h, low))
            ∙ store32-outside (top - 8) task_exit a m1 (ground (arith, h, low))
            ∙ store32-outside (top - 4) params a s.mem (ground (arith, h, low)));
      }
