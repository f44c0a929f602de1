-- ===== src/Printk/Laws.antt =====
-- `printk` shows what its format says, character by character.
use mathlib.Core.Path.{subst}
use qemu_usage_test.Base.{
  ℕ, ◌+◌, ◌^◌, ◌≤◌, ◌<◌, ◌≡◌, ◌≢◌, ◌⊎◌, inr, refl, sym, ap, ◌∙◌, true, List, [], ◌∷◌, ◌++◌, done,
  fault, length, All, lt→ltb, le→ltb, arith,
}
use qemu_usage_test.Memory.{Memory, poke}
use qemu_usage_test.Format.{write_chars}
use qemu_usage_test.Format.Output.{Output, run_pieces}
use qemu_usage_test.Format.Written.{Away, At-kept, write_chars-outside}
use qemu_usage_test.Format.Decimal.{At, At-append}
use qemu_usage_test.Format.Pieces.{Piece, spell, IsPiece}
use qemu_usage_test.Format.Run.{StringsAway, vsprintf-pieces}
use qemu_usage_test.Devices.Fb.{Screen, fb_putc}
use qemu_usage_test.Devices.Fb.Laws.{OnScreen, fb_putc-OnScreen}
use qemu_usage_test.Devices.Fb.Frame.{fb_putc-Kept}
use qemu_usage_test.Printk.{show_loop, printk}

-- The characters one after the other on the screen.
abbrev pub show_chars : ℕ → ℕ → List ℕ → Screen → Screen
show_chars high low [] s = s
show_chars high low (c ∷ cs) s = show_chars high low cs (fb_putc high low c s)

write_chars-At : (cs : List ℕ) (p : ℕ) (mem : Memory) → At (write_chars p cs mem) p cs
unfolding poke
write_chars-At [] p mem = tt
write_chars-At (c ∷ cs) p mem = (
  write_chars-outside cs (p + 1) p (poke mem p c) (inr (omega arith)) ∙ ground arith,
  write_chars-At cs (p + 1) (poke mem p c),
)

-- A range that does not meet the screen.
abbrev pub Apart : ℕ → ℕ → ℕ → Type 0
Apart fb p n = (p + n ≤ fb) ⊎ (fb + 4000 ≤ p)

-- The screen is in use: it is set up, and its cursor is on it.
pub record Ready (s : Screen) : Type 0 where
  pub inited : s.inited ≡ true
  pub place : s.fb ≢ 0
  pub cursor : OnScreen s

fb_putc-place : (high low ch : ℕ) (s : Screen) → Ready s → (fb_putc high low ch s).fb ≡ s.fb
fb_putc-place high low ch s is =
    (fb_putc-Kept high low ch (s.fb + 4000) s is.inited is.place is.cursor
      (inr (omega arith))).place

fb_putc-Ready : (high low ch : ℕ) (s : Screen) → Ready s → Ready (fb_putc high low ch s)
fb_putc-Ready high low ch s is =
    let k =
      fb_putc-Kept high low ch (s.fb + 4000) s is.inited is.place is.cursor (inr (omega arith)) in
    record {
      inited = k.inited ∙ is.inited;
      place = λ e. is.place (sym k.place ∙ e);
      cursor = fb_putc-OnScreen high low ch s is.inited is.cursor;
    }

show_loop-chars :
    (cs : List ℕ) (p high low : ℕ) (s : Screen)
    → Ready s
    → Apart s.fb p (length cs)
    → At s.mem p cs
    → show_loop (length cs) p high low s ≡ show_chars high low cs s
unfolding show_loop
show_loop-chars [] p high low s is apart at = refl
show_loop-chars (c ∷ cs) p high low s is apart at =
    let next = fb_putc high low c s in
    let kept =
      At-kept cs (p + 1) s.mem next.mem
        (λ a h k.
          (fb_putc-Kept high low c a s is.inited is.place is.cursor
            (ground (arith, apart, h, k))).memory)
        at.1 in
    let apart' : Apart next.fb (p + 1) (length cs) =
      subst (λ fb. Apart fb (p + 1) (length cs)) (sym (fb_putc-place high low c s is))
        (ground (arith, apart)) in
    ap (λ ch. show_loop (length cs) (p + 1) high low (fb_putc high low ch s)) at.0
    ∙ show_loop-chars cs (p + 1) high low next (fb_putc-Ready high low c s is) apart' kept

-- For a format in memory that spells pieces as `vsprintf` takes them, is shorter than the address
-- space and whose pieces run, where the cursor is set up and on the screen and the buffer of
-- `printk` is apart from the screen, and what is written from it on meets neither the format nor a
-- string that is printed, `printk` shows the characters they give one after the other and returns
-- their number if there are fewer than 1024, and writes behind the end of its buffer otherwise.
pub printk-pieces :
    (ps : List Piece) (printk_buf fmt high low : ℕ) (args : List ℕ) (s : Screen) (r : Output)
    → All IsPiece ps
    → At s.mem fmt (spell ps ++ 0 ∷ [])
    → length (spell ps) < 2 ^ 32
    → Ready s
    → Apart s.fb printk_buf 1024
    → run_pieces s.mem ps (record { flags = 0; args = args; out = [] }) ≡ done r
    → Away printk_buf (length r.out) fmt (length (spell ps) + 1)
    → StringsAway printk_buf (length r.out) s.mem ps args
    → (length r.out < 1024
        → printk printk_buf fmt args high low s
          ≡ done (
            length r.out,
            show_chars high low r.out
                (record s { mem = write_chars printk_buf (r.out ++ 0 ∷ []) s.mem }),
          ))
      × (1024 ≤ length r.out → printk printk_buf fmt args high low s ≡ fault)
printk-pieces ps printk_buf fmt high low args s r is at short ready apart runs away strings =
    let wrote = vsprintf-pieces ps printk_buf fmt args s.mem r is at short runs away strings in
    let filled = write_chars printk_buf (r.out ++ 0 ∷ []) s.mem in
    let lies =
      (At-append filled printk_buf r.out (0 ∷ [])
        (write_chars-At (r.out ++ 0 ∷ []) printk_buf s.mem)).0 in
    unfold printk in
    rw wrote (
      (λ h. rw (le→ltb 1024 (length r.out + 1) (omega arith)) (
          ap (λ t. done (length r.out, t))
            (show_loop-chars r.out printk_buf high low (record s { mem = filled })
              (record { inited = ready.inited; place = ready.place; cursor = ready.cursor })
              (ground (arith, apart, h)) lies))),
      (λ h. rw (lt→ltb 1024 (length r.out + 1) (omega arith)) refl),
    )
