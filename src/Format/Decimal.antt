-- ===== src/Format/Decimal.antt =====
-- Decimal numerals: `atoi_mod` reads what `itoa_base` writes.

use mathlib.Core.Path.{subst, ap₂}
use qemu_usage_test.Base.{
  ℕ, zero, suc, ◌+◌, ◌-◌, ◌*◌, ◌^◌, ◌≤◌, ◌<◌, ◌≡◌, refl, sym, ap, ◌∙◌, true, false, List, [], ◌∷◌,
  ◌++◌, map, Bool-cases, inl, inr, some, done, length, replicate, All, ltb, truth, bit_and, ◌&&◌,
  done-injective, u32, arith,
}
use qemu_usage_test.Memory.{Memory}
use qemu_usage_test.Format.{
  zeropad, is_digit_char, atoi_loop, address_space, atoi_mod, itoa_base, padding,
}
use qemu_usage_test.Format.Digits.{value}
use qemu_usage_test.Format.Numeral.{digit_char, length-map, itoa_base-Written}

-- The characters `cs` lie at `p`.
abbrev pub At : Memory → ℕ → List ℕ → Type 0
At mem p [] = Unit
At mem p (c ∷ cs) = (mem p ≡ c) × At mem (p + 1) cs

pub At-append :
    (mem : Memory) (p : ℕ) (cs ds : List ℕ)
    → At mem p (cs ++ ds)
    → At mem p cs × At mem (p + length cs) ds
At-append mem p [] ds h = (tt, subst (λ q. At mem q ds) (omega arith) h)
At-append mem p (c ∷ cs) ds h =
    let rest = At-append mem (p + 1) cs ds h.1 in
    ((h.0, rest.0), subst (λ q. At mem q ds) (omega arith) rest.1)

pub digit_char-decimal : (flags d : ℕ) → d < 10 → digit_char flags d ≡ b'0' + d
digit_char-decimal flags zero h = refl
digit_char-decimal flags (suc zero) h = refl
digit_char-decimal flags (suc (suc zero)) h = refl
digit_char-decimal flags (suc (suc (suc zero))) h = refl
digit_char-decimal flags (suc (suc (suc (suc zero)))) h = refl
digit_char-decimal flags (suc (suc (suc (suc (suc zero))))) h = refl
digit_char-decimal flags (suc (suc (suc (suc (suc (suc zero)))))) h = refl
digit_char-decimal flags (suc (suc (suc (suc (suc (suc (suc zero))))))) h = refl
digit_char-decimal flags (suc (suc (suc (suc (suc (suc (suc (suc zero)))))))) h = refl
digit_char-decimal flags (suc (suc (suc (suc (suc (suc (suc (suc (suc zero))))))))) h = refl
digit_char-decimal flags (suc (suc (suc (suc (suc (suc (suc (suc (suc (suc d)))))))))) h =
    absurd (omega arith)

acc-le-value : (acc : ℕ) (ds : List ℕ) → acc ≤ value 10 acc ds
acc-le-value acc [] = omega arith
acc-le-value acc (d ∷ ds) = omega (arith, acc-le-value (acc * 10 + d) ds)

is_digit_char_lem : (d : ℕ) → d < 10 → is_digit_char (b'0' + d) ≡ true
unfolding is_digit_char
is_digit_char_lem d h = ground arith

atoi_step :
    (fuel p acc d : ℕ) (mem : Memory)
    → mem p ≡ b'0' + d
    → d < 10
    → acc * 10 + d < 2 ^ 32
    → atoi_loop (suc fuel) p acc mem ≡ atoi_loop fuel (p + 1) (acc * 10 + d) mem
atoi_step fuel p acc d mem at small fits =
    let whole : u32 (acc * 10 + (b'0' + d) - b'0') ≡ acc * 10 + d = omega arith in
    unfold atoi_loop in rw (at, is_digit_char_lem d small, whole) refl

pub atoi_loop-value :
    (fuel p acc flags : ℕ) (ds : List ℕ) (mem : Memory)
    → All (λ d. d < 10) ds
    → At mem p (map (digit_char flags) ds)
    → is_digit_char (mem (p + length ds)) ≡ false
    → value 10 acc ds < 2 ^ 32
    → length ds < fuel
    → atoi_loop fuel p acc mem ≡ done (value 10 acc ds, p + length ds)
atoi_loop-value zero p acc flags ds mem small at end fits enough = absurd (omega arith)
atoi_loop-value (suc fuel) p acc flags [] mem small at end fits enough =
    let here : p + 0 ≡ p = omega arith in
    let end' : is_digit_char (mem p) ≡ false =
      subst (λ q. is_digit_char (mem q) ≡ false) here end in
    unfold atoi_loop in rw end' (ap (λ q. done (acc, q)) (sym here))
atoi_loop-value (suc fuel) p acc flags (d ∷ ds) mem small at end fits enough =
    let next : p + suc (length ds) ≡ p + 1 + length ds = omega arith in
    atoi_step fuel p acc d mem (at.0 ∙ digit_char-decimal flags d small.0) small.0
      (omega (arith, acc-le-value (acc * 10 + d) ds))
    ∙ atoi_loop-value fuel (p + 1) (acc * 10 + d) flags ds mem small.1 at.1
        (subst (λ q. is_digit_char (mem q) ≡ false) next end) fits (omega arith)
    ∙ ap (λ q. done (value 10 (acc * 10 + d) ds, q)) (omega arith)

value-zeros : (z : ℕ) (ds : List ℕ) → value 10 0 (replicate z 0 ++ ds) ≡ value 10 0 ds
value-zeros zero ds = refl
value-zeros (suc z) ds = value-zeros z ds

All-zeros : (z : ℕ) (ds : List ℕ) → All (λ d. d < 10) ds → All (λ d. d < 10) (replicate z 0 ++ ds)
All-zeros zero ds h = h
All-zeros (suc z) ds h = (omega arith, All-zeros z ds h)

map-zeros :
    (flags z : ℕ) (ds : List ℕ)
    → map (digit_char flags) (replicate z 0 ++ ds) ≡ replicate z b'0' ++ map (digit_char flags) ds
map-zeros flags zero ds = refl
map-zeros flags (suc z) ds = ap (λ (cs : List ℕ). b'0' ∷ cs) (map-zeros flags z ds)

-- The padding is some number of zeros.
padding-zeros : (flags width n : ℕ) → (z : ℕ) × (padding flags width n ≡ replicate z b'0')
padding-zeros flags width n =
    elim (Bool-cases (truth (bit_and flags zeropad) && ltb width (2 ^ 31))) [
      | inl e ↦ (width - n, rw e refl)
      | inr e ↦ (0, rw e refl)
    ]

some_injective : {xs ys : List ℕ} → some xs ≡ some ys → xs ≡ ys
some_injective e = cc

-- Where the decimal text that `itoa_base` writes for a 32-bit number, with any width and flags,
-- lies in memory with no digit behind it and is shorter than the address space, `atoi_mod` reads
-- the number back and stops behind the text.
pub atoi_mod-itoa_base :
    (num width flags p : ℕ) (cs : List ℕ) (mem : Memory)
    → num < 2 ^ 32
    → itoa_base num 10 width flags ≡ done (some cs)
    → At mem p cs
    → is_digit_char (mem (p + length cs)) ≡ false
    → length cs < 2 ^ 32
    → atoi_mod p mem ≡ done (num, p + length cs)
unfolding atoi_mod
atoi_mod-itoa_base num width flags p cs mem small printed at end short =
    let w = itoa_base-Written num 10 width flags (omega arith) (omega arith) small in
    let z = padding-zeros flags width (length w.ds) in
    let all : List ℕ = replicate z.0 0 ++ w.ds in
    let text : cs ≡ map (digit_char flags) all =
      some_injective (done-injective (sym printed ∙ w.returns))
      ∙ ap (λ (ps : List ℕ). ps ++ map (digit_char flags) w.ds) z.1
      ∙ sym (map-zeros flags z.0 w.ds) in
    let len : length cs ≡ length all = ap length text ∙ length-map (digit_char flags) all in
    let stands : value 10 0 all ≡ num = value-zeros z.0 w.ds ∙ w.stands_for in
    atoi_loop-value address_space p 0 flags all mem (All-zeros z.0 w.ds w.small)
      (subst (At mem p) text at) (subst (λ n. is_digit_char (mem (p + n)) ≡ false) len end)
      (omega (arith, stands)) (omega (arith, len))
    ∙ ap done (ap₂ (λ (v n : ℕ). (v, p + n)) stands (sym len))
