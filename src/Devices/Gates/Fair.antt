-- ===== src/Devices/Gates/Fair.antt =====
-- The round robin by timer interrupts: every ready task gets its turn.
use mathlib.Core.Path.{subst}
use mathlib.Core.List.{append-nil, append_assoc}
use qemu_usage_test.Base.{
  ℕ, zero, suc, ◌+◌, ◌-◌, ◌*◌, ◌^◌, ◌≤◌, ◌<◌, ◌≡◌, refl, sym, ap, ◌∙◌, List, [], ◌∷◌, ◌++◌, Option,
  some, Outcome, done, fault, hang, ◌>>=◌, load, length, eq→==, arith,
}
use qemu_usage_test.Devices.Timer.{systick_intr}
use qemu_usage_test.Devices.Gates.{Cpu, generic_isr}
use qemu_usage_test.Devices.Gates.Dispatch.{after_timer, timer_goes_on, timer_schedules}
use qemu_usage_test.Devices.Gates.Turns.{
  Turning, ticked, current_slice, ticked-Turning, tick_eq, schedule-Turning,
}

-- `n` timer interrupts, while no task acts.
unfoldable pub interrupts : (ℕ → ℕ → Cpu → Outcome Cpu) → List (Option ℕ) → ℕ → Cpu → Outcome Cpu
interrupts call isr_table zero c = done c
interrupts call isr_table (suc n) c = do
  c ← generic_isr call isr_table 32 c
  interrupts call isr_table n c

module _ (call : ℕ → ℕ → Cpu → Outcome Cpu) (isr_table : List (Option ℕ)) where
  one_interrupt :
      (n : ℕ) (c : Cpu) {c1 : Cpu}
      → generic_isr call isr_table 32 c ≡ done c1
      → interrupts call isr_table (suc n) c ≡ interrupts call isr_table n c1
  unfolding interrupts
  one_interrupt n c e = rw e refl

  bind_interrupts :
      (n k : ℕ)
      → ((c : Cpu)
          → interrupts call isr_table (n + k) c
            ≡ (interrupts call isr_table n c >>= interrupts call isr_table k))
      → (r : Outcome Cpu)
      → (r >>= interrupts call isr_table (n + k))
        ≡ ((r >>= interrupts call isr_table n) >>= interrupts call isr_table k)
  bind_interrupts n k f (done c) = f c
  bind_interrupts n k f fault = refl
  bind_interrupts n k f hang = refl

  interrupts_add :
      (n k : ℕ) (c : Cpu)
      → interrupts call isr_table (n + k) c
        ≡ (interrupts call isr_table n c >>= interrupts call isr_table k)
  unfolding interrupts
  interrupts_add zero k c = ap (λ j. interrupts call isr_table j c) (omega arith)
  interrupts_add (suc n) k c =
      let e : suc n + k ≡ suc (n + k) = omega arith in
      ap (λ j. interrupts call isr_table j c) e
      ∙ bind_interrupts n k (interrupts_add n k) (generic_isr call isr_table 32 c)

  -- `k` more interrupts behind `n`.
  interrupts_then :
      (n k : ℕ) (c : Cpu) {c' : Cpu}
      → interrupts call isr_table n c ≡ done c'
      → interrupts call isr_table (n + k) c ≡ interrupts call isr_table k c'
  interrupts_then n k c e = interrupts_add n k c ∙ rw e refl

  -- At most `bound` interrupts come from `c` to a state where `d` runs and `ts` are ready.
  pub record Reached (m bound : ℕ) (ts : List ℕ) (d : ℕ) (c : Cpu) : Type 0 where
    pub n : ℕ
    pub c' : Cpu
    pub within : n ≤ bound
    pub run : interrupts call isr_table n c ≡ done c'
    pub current : c'.sched.current ≡ d
    pub turning : Turning m ts c'.sched

module _ (call : ℕ → ℕ → Cpu → Outcome Cpu) (isr_table : List (Option ℕ)) (systick m : ℕ)
    (e : load isr_table 32 ≡ done (some systick))
    (k : (c : Cpu) → call systick 32 c ≡ systick_intr c) (small : m < 2 ^ 31) where
  abbrev Comes : ℕ → List ℕ → ℕ → Cpu → Type 0
  Comes bound ts d c = Reached call isr_table m bound ts d c

  last_tick :
      (ys zs : List ℕ) (c : Cpu) {first : ℕ} {rest : List ℕ}
      → Turning m (ys ++ c.sched.current ∷ zs) c.sched
      → ys ++ c.sched.current ∷ zs ≡ first ∷ rest
      → (c.sched.tasks c.sched.current).time_slice_res ≡ 1
      → Comes 1 ((ys ++ zs) ++ c.sched.current ∷ []) first c
  unfolding interrupts
  last_tick ys zs c turning front over =
      let (s', returns, current, turned) = schedule-Turning m small ys zs c.sched turning front in
      record {
        n = 1;
        c' = after_timer c s';
        within = omega arith;
        run =
            one_interrupt call isr_table 0 c
              (timer_schedules call isr_table systick c e (k _) s' over returns);
        current = current;
        turning = turned;
      }

  rest_of_slice :
      (r : ℕ) (ys zs : List ℕ) (c : Cpu) {first : ℕ} {rest : List ℕ}
      → Turning m (ys ++ c.sched.current ∷ zs) c.sched
      → ys ++ c.sched.current ∷ zs ≡ first ∷ rest
      → (c.sched.tasks c.sched.current).time_slice_res ≡ suc r
      → Comes (suc r) ((ys ++ zs) ++ c.sched.current ∷ []) first c
  rest_of_slice zero ys zs c turning front over = last_tick ys zs c turning front over
  rest_of_slice (suc r) ys zs c turning front res =
      let more : 1 < (c.sched.tasks c.sched.current).time_slice_res = omega arith in
      let c1 = after_timer c (ticked c.sched) in
      let res1 : (c1.sched.tasks c1.sched.current).time_slice_res ≡ suc r =
        rw (eq→== c.sched.current c.sched.current refl) (omega arith) in
      let rest =
        rest_of_slice r ys zs c1 (ticked-Turning m small ys zs c.sched turning more) front res1 in
      record {
        n = suc rest.n;
        c' = rest.c';
        within = omega (arith, rest.within);
        run =
            one_interrupt call isr_table rest.n c (
              timer_goes_on call isr_table systick c e (k _) (ticked c.sched)
                (tick_eq m small ys zs c.sched turning more) refl)
            ∙ rest.run;
        current = rest.current;
        turning = rest.turning;
      }

  -- Where a task of the ready list runs, at most `m` timer interrupts come to the task at the
  -- front, with the old one at the end.
  slice :
      (ys zs : List ℕ) (c : Cpu) {first : ℕ} {rest : List ℕ}
      → Turning m (ys ++ c.sched.current ∷ zs) c.sched
      → ys ++ c.sched.current ∷ zs ≡ first ∷ rest
      → Comes m ((ys ++ zs) ++ c.sched.current ∷ []) first c
  slice ys zs c turning front =
      let h = (current_slice m small ys zs c.sched turning).1 in
      let r = (c.sched.tasks c.sched.current).time_slice_res - 1 in
      let one = rest_of_slice r ys zs c turning front (omega (arith, h.left)) in
      record {
        n = one.n;
        c' = one.c';
        within = omega (arith, one.within, h.left, h.left_bounded);
        run = one.run;
        current = one.current;
        turning = one.turning;
      }

  -- From the task at the front, which runs, to the next one.
  turn :
      (c : Cpu) (d : ℕ) (xs : List ℕ)
      → Turning m (c.sched.current ∷ d ∷ xs) c.sched
      → Comes (2 * m) (d ∷ xs ++ c.sched.current ∷ []) d c
  turn c d xs turning =
      let one = slice [] (d ∷ xs) c {first = c.sched.current} turning refl in
      let again : Turning m (d ∷ xs ++ one.c'.sched.current ∷ []) one.c'.sched =
        subst (λ t. Turning m (d ∷ xs ++ t ∷ []) one.c'.sched) (sym one.current) one.turning in
      let two = slice (d ∷ xs) [] one.c' {first = d} again refl in
      record {
        n = one.n + two.n;
        c' = two.c';
        within = omega (arith, one.within, two.within);
        run = interrupts_then call isr_table one.n two.n c one.run ∙ two.run;
        current = two.current;
        turning =
            subst (λ l. Turning m l two.c'.sched)
              (ap (λ l. l ++ one.c'.sched.current ∷ []) (append-nil (d ∷ xs))
                ∙ ap (λ t. d ∷ xs ++ t ∷ []) one.current)
              two.turning;
      }

  -- Where the timer handler is at vector 32, the list lock is free, the ready list of the default
  -- priority starts with the current task, which runs, and its tasks are not NULL and have slices
  -- from 1 to `m` ticks, below 2^31, then a task `d` that has `before` between itself and the
  -- front runs after at most `2 * m * (length before + 1)` interrupts of the timer, if no task
  -- acts in between, and those that had their turn are behind all others in their order.
  pub every_turn :
      (before after : List ℕ) (d : ℕ) (c : Cpu)
      → Turning m (c.sched.current ∷ before ++ d ∷ after) c.sched
      → Comes (2 * m * (length before + 1)) (d ∷ after ++ c.sched.current ∷ before) d c
  every_turn [] after d c turning =
      let one = turn c d after turning in
      record {
        n = one.n;
        c' = one.c';
        within = omega (arith, one.within);
        run = one.run;
        current = one.current;
        turning = one.turning;
      }
  every_turn (b ∷ before) after d c turning =
      let t = c.sched.current in
      let one = turn c b (before ++ d ∷ after) turning in
      let again : Turning m (one.c'.sched.current ∷ before ++ d ∷ (after ++ t ∷ [])) one.c'.sched =
        subst (λ l. Turning m l one.c'.sched)
          (ap (λ u. u ∷ (before ++ d ∷ after) ++ t ∷ []) (sym one.current)
            ∙ ap (λ l. one.c'.sched.current ∷ l) (append_assoc before (d ∷ after) (t ∷ [])))
          one.turning in
      let rest = every_turn before (after ++ t ∷ []) d one.c' again in
      record {
        n = one.n + rest.n;
        c' = rest.c';
        within = grind (arith, one.within, rest.within);
        run = interrupts_then call isr_table one.n rest.n c one.run ∙ rest.run;
        current = rest.current;
        turning =
            subst (λ l. Turning m (d ∷ l) rest.c'.sched)
              (append_assoc after (t ∷ []) (one.c'.sched.current ∷ before)
                ∙ ap (λ u. after ++ t ∷ u ∷ before) one.current)
              rest.turning;
      }
