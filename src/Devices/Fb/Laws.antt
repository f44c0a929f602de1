-- ===== src/Devices/Fb/Laws.antt =====
-- The cursor and the contents of the screen.
use mathlib.Core.Path.{subst}
use qemu_usage_test.Base.{
  ℕ, zero, suc, ◌+◌, ◌-◌, ◌*◌, ◌%◌, ◌^◌, ◌≤◌, ◌<◌, ◌≡◌, ◌≢◌, ◌↔◌, inl, Bool, refl, sym, ap, ◌∙◌,
  true, false, ◌&&◌, ltb, leb, ◌==◌, if◌then◌else◌, arith, bit_or,
}
use qemu_usage_test.Base.Binary.{bit_or-shifted}
use qemu_usage_test.Memory.{Memory, poke}
use qemu_usage_test.Str.{memmove}
use qemu_usage_test.Str.Copy.{memmove-up}
use qemu_usage_test.Devices.Fb.{
  Screen, clear_cells, clear_row, newline, put_char, init_cursor, find_cursor, move_cursor, fb_putc,
  cell, cls,
}

-- The cursor is on the screen.
abbrev pub OnScreen : Screen → Type 0
OnScreen s = (s.cx < 80) × (s.cy < 25)

newline-OnScreen : (s : Screen) → s.cy < 25 → OnScreen (newline s)
unfolding newline
newline-OnScreen s h = ground (arith, h)

if-OnScreen :
    (b : Bool) (x y : Screen)
    → (b ≡ true → OnScreen x)
    → (b ≡ false → OnScreen y)
    → OnScreen (if b then x else y)
if-OnScreen true x y hx hy = hx refl
if-OnScreen false x y hx hy = hy refl

cls-OnScreen : (s : Screen) → OnScreen (cls s)
unfolding cls move_cursor
cls-OnScreen s = (omega arith, omega arith)

-- Behind a column the cursor stays in the row or starts the next one.
column-OnScreen : (s : Screen) → s.cy < 25 → OnScreen (if leb 80 s.cx then newline s else s)
column-OnScreen s h =
    if-OnScreen (leb 80 s.cx) _ _ (λ _. newline-OnScreen s h) (λ e. (ground (arith, e), h))

put_char-OnScreen : (ch : ℕ) (s : Screen) → OnScreen s → OnScreen (put_char ch s)
unfolding put_char
put_char-OnScreen ch s (hx, hy) =
    if-OnScreen (ch == 0x0d) _ _ (λ _. (omega arith, hy))
      (λ _.
        if-OnScreen (ch == 0x0a) _ _ (λ _. newline-OnScreen s hy)
          (λ _.
            if-OnScreen (ch == 0x0c) _ _ (λ _. cls-OnScreen s)
              (λ _.
                if-OnScreen (ch == 0x08) _ _
                  (λ _.
                    if-OnScreen (ltb 0 s.cx) _ _ (λ e. (ground (arith, e, hx), hy)) (λ _. (hx, hy)))
                  (λ _.
                    if-OnScreen (ch == 0x09) _ _ (λ _. column-OnScreen _ hy)
                      (λ _. column-OnScreen _ hy)))))

pub init_cursor_done : (high low : ℕ) (s : Screen) → s.inited ≡ true → init_cursor high low s ≡ s
unfolding init_cursor
init_cursor_done high low s inited = rw inited refl

move_cursor-OnScreen : (s : Screen) → OnScreen s → OnScreen (move_cursor s)
unfolding move_cursor
move_cursor-OnScreen s h = h

-- Once the cursor is initialized and on the screen, `fb_putc` of any character leaves it on the
-- screen.
pub fb_putc-OnScreen :
    (high low ch : ℕ) (s : Screen) → s.inited ≡ true → OnScreen s → OnScreen (fb_putc high low ch s)
unfolding fb_putc
fb_putc-OnScreen high low ch s inited h =
    subst (λ t. OnScreen (move_cursor (put_char ch t))) (sym (init_cursor_done high low s inited))
      (move_cursor-OnScreen (put_char ch s) (put_char-OnScreen ch s h))

pub clear_cells-at :
    (n p : ℕ) (mem : Memory) (a : ℕ)
    → clear_cells n p mem a
      ≡ (if leb p a && ltb a (p + 2 * n) then (if (a - p) % 2 == 0 then 0x20 else 0x07) else mem a)
unfolding clear_cells poke
clear_cells-at zero p mem a = ground arith
clear_cells-at (suc n) p mem a =
    ground (arith, clear_cells-at n (p + 2) (poke (poke mem p 0x20) (p + 1) 7) a)

abbrev pub scrolled : Screen → ℕ → ℕ
scrolled s a =
    if leb (s.fb + 3840) a && ltb a (s.fb + 4000)
    then (if (a - (s.fb + 3840)) % 2 == 0 then 0x20 else 0x07)
    else if leb s.fb a && ltb a (s.fb + 3840)
    then s.mem (s.fb + 160 + (a - s.fb))
    else s.mem a

newline_mem :
    (s : Screen)
    → s.cy ≡ 24
    → (newline s).mem ≡ clear_row s.fb 24 (memmove (cell s.fb 0 0) (cell s.fb 1 0) 3840 s.mem).1
unfolding newline
newline_mem s e = rw e refl

newline-row : (s : Screen) → s.cy ≡ 24 → (newline s).cy ≡ 24
unfolding newline
newline-row s e = rw e refl

pub newline-at : (s : Screen) (a : ℕ) → s.fb ≢ 0 → s.cy ≡ 24 → (newline s).mem a ≡ scrolled s a
unfolding clear_row
newline-at s a h e =
    ap (λ m. m a) (newline_mem s e)
    ∙ clear_cells-at 80 (cell s.fb 24 0) (memmove (cell s.fb 0 0) (cell s.fb 1 0) 3840 s.mem).1 a
    ∙ ground (
      arith,
      memmove-up (cell s.fb 0 0) (cell s.fb 1 0) 3840 s.mem a (omega arith) (omega arith)
          (omega arith) (inl (omega arith)),
    )

-- On the last row, `newline` moves every other row up by one, fills the last row with blanks in the
-- default attribute, changes nothing behind the screen and stays on the last row.
pub newline_scrolls :
    (s : Screen) (k : ℕ)
    → s.fb ≢ 0
    → s.cy ≡ 24
    → (k < 3840 → (newline s).mem (s.fb + k) ≡ s.mem (s.fb + 160 + k))
      × (k < 80
          → ((newline s).mem (cell s.fb 24 k) ≡ 0x20)
            × ((newline s).mem (cell s.fb 24 k + 1) ≡ 0x07))
      × (4000 ≤ k → (newline s).mem (s.fb + k) ≡ s.mem (s.fb + k))
      × ((newline s).cy ≡ 24)
newline_scrolls s k h e = (
  (λ b. newline-at s (s.fb + k) h e ∙ ground (arith, b)),
  (λ b. (
    newline-at s (cell s.fb 24 k) h e ∙ ground (arith, b),
    newline-at s (cell s.fb 24 k + 1) h e ∙ ground (arith, b),
  )),
  (λ b. newline-at s (s.fb + k) h e ∙ ground (arith, b)),
  newline-row s e,
)

-- The first `init_cursor` leaves the cursor on the screen exactly if the position that the device
-- reports is below 1760, which is in one of the first 22 of the 25 rows.
pub init_cursor_beyond :
    (high low : ℕ) (s : Screen)
    → high < 256
    → low < 256
    → s.inited ≡ false
    → OnScreen (init_cursor high low s) ↔ (high * 256 + low < 1760)
unfolding init_cursor find_cursor move_cursor
init_cursor_beyond high low s hh hl e =
    let whole : bit_or (high * 2 ^ 8 % 2 ^ 32 % 2 ^ 16) low ≡ high * 256 + low =
      ap (λ h. bit_or h low) (omega arith) ∙ bit_or-shifted 8 high low hl in
    rw (e, whole) ((λ h. omega arith), (λ h. (omega arith, omega arith)))
