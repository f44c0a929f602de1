-- ===== src/Devices/Fb/Frame.antt =====
-- What the screen's operations leave alone: all memory outside the screen, and where it is.
use qemu_usage_test.Base.{
  ℕ, zero, suc, ◌+◌, add32, ◌≤◌, ◌<◌, ◌≡◌, ◌≢◌, ◌⊎◌, Bool, refl, ◌∙◌, true, false, ltb, leb, ◌==◌,
  if◌then◌else◌, arith,
}
use native.Mathlib.Decide.{ℕ_discrete}
use qemu_usage_test.Memory.{Memory, poke}
use qemu_usage_test.Devices.Fb.{
  Screen, clear_row, clear_rows, newline, put_cell, put_char, move_cursor, fb_putc, cell, cls,
}
use qemu_usage_test.Round.{round_up}
use qemu_usage_test.Devices.Fb.Laws.{OnScreen, newline-at, clear_cells-at, init_cursor_done}

abbrev pub Outside : ℕ → ℕ → Type 0
Outside fb a = (a < fb) ⊎ (fb + 4000 ≤ a)

pub record Kept (a : ℕ) (s t : Screen) : Type 0 where
  pub memory : t.mem a ≡ s.mem a
  pub place : t.fb ≡ s.fb
  pub inited : t.inited ≡ s.inited

abbrev kept : (a : ℕ) (s : Screen) → Kept a s s
kept a s = record { memory = refl; place = refl; inited = refl }

newline-kept :
    (a : ℕ) (s : Screen) → s.fb ≢ 0 → s.cy < 25 → Outside s.fb a → (newline s).mem a ≡ s.mem a
unfolding newline
newline-kept a s h k out = elim (ℕ_discrete s.cy 24) [
  | yes e ↦ newline-at s a h e ∙ ground (arith, out)
  | no e ↦ ground (arith, e, k)
]

newline-Kept : (a : ℕ) (s : Screen) → s.fb ≢ 0 → s.cy < 25 → Outside s.fb a → Kept a s (newline s)
unfolding newline
newline-Kept a s h k out = record {
  memory = newline-kept a s h k out;
  place = ground arith;
  inited = ground arith;
}

clear_row-kept :
    (fb y : ℕ) (mem : Memory) (a : ℕ) → y < 25 → Outside fb a → clear_row fb y mem a ≡ mem a
unfolding clear_row
clear_row-kept fb y mem a h out = clear_cells-at 80 (cell fb y 0) mem a ∙ ground (arith, h, out)

clear_rows-kept :
    (fb y n : ℕ) (mem : Memory) (a : ℕ)
    → y + n ≤ 25
    → Outside fb a
    → clear_rows fb y n mem a ≡ mem a
unfolding clear_rows
clear_rows-kept fb y zero mem a h out = refl
clear_rows-kept fb y (suc n) mem a h out =
    clear_rows-kept fb (y + 1) n (clear_row fb y mem) a (omega arith) out
    ∙ clear_row-kept fb y mem a (omega arith) out

cls-Kept : (a : ℕ) (s : Screen) → Outside s.fb a → Kept a s (cls s)
unfolding cls move_cursor
cls-Kept a s out = record {
  memory = clear_rows-kept s.fb 0 25 s.mem a (omega arith) out;
  place = refl;
  inited = refl;
}

put_cell-kept :
    (fb y x ch : ℕ) (mem : Memory) (a : ℕ)
    → y < 25
    → x < 80
    → Outside fb a
    → put_cell (cell fb y x) ch mem a ≡ mem a
unfolding poke
put_cell-kept fb y x ch mem a hy hx out = ground (arith, hy, hx, out)

if-Kept :
    (a : ℕ) (s : Screen) (b : Bool) (x y : Screen)
    → (b ≡ true → Kept a s x)
    → (b ≡ false → Kept a s y)
    → Kept a s (if b then x else y)
if-Kept a s true x y hx hy = hx refl
if-Kept a s false x y hx hy = hy refl

-- Behind a column the cursor stays in the row or starts the next one.
next_column :
    (a : ℕ) (s t : Screen)
    → Kept a s t
    → t.fb ≢ 0
    → t.cy < 25
    → Outside t.fb a
    → Kept a s (if leb 80 t.cx then newline t else t)
next_column a s t st h k out =
    let n = newline-Kept a t h k out in
    if-Kept a s (leb 80 t.cx) (newline t) t
      (λ _. record {
        memory = n.memory ∙ st.memory;
        place = n.place ∙ st.place;
        inited = n.inited ∙ st.inited;
      })
      (λ _. st)

put_char-Kept :
    (a ch : ℕ) (s : Screen) → s.fb ≢ 0 → OnScreen s → Outside s.fb a → Kept a s (put_char ch s)
unfolding put_char
put_char-Kept a ch s h (hx, hy) out =
    if-Kept a s (ch == 0x0d) _ _ (λ _. record { memory = refl; place = refl; inited = refl })
      (λ _.
        if-Kept a s (ch == 0x0a) _ _ (λ _. newline-Kept a s h hy out)
          (λ _.
            if-Kept a s (ch == 0x0c) _ _ (λ _. cls-Kept a s out)
              (λ _.
                if-Kept a s (ch == 0x08) _ _
                  (λ _.
                    if-Kept a s (ltb 0 s.cx) _ _
                      (λ _. record { memory = refl; place = refl; inited = refl })
                      (λ _. record { memory = refl; place = refl; inited = refl }))
                  (λ _.
                    if-Kept a s (ch == 0x09) _ _
                      (λ _.
                        next_column a s (record s { cx = round_up (add32 s.cx 1) 8 })
                          (record { memory = refl; place = refl; inited = refl }) h hy out)
                      (λ _.
                        next_column a s
                          (record s {
                            mem = put_cell (cell s.fb s.cy s.cx) ch s.mem;
                            cx = add32 s.cx 1;
                          })
                          (record {
                            memory = put_cell-kept s.fb s.cy s.cx ch s.mem a hy hx out;
                            place = refl;
                            inited = refl;
                          })
                          h hy out)))))

-- A screen in use, and an address outside of it.
pub fb_putc-Kept :
    (high low ch a : ℕ) (s : Screen)
    → s.inited ≡ true
    → s.fb ≢ 0
    → OnScreen s
    → Outside s.fb a
    → Kept a s (fb_putc high low ch s)
unfolding fb_putc move_cursor
fb_putc-Kept high low ch a s inited h on out =
    let k = put_char-Kept a ch s h on out in
    rw (init_cursor_done high low s inited)
      record { memory = k.memory; place = k.place; inited = k.inited }
