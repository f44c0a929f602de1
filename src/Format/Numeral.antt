-- ===== src/Format/Numeral.antt =====
-- `itoa_base` as a whole.
use qemu_usage_test.Base.{
  ℕ, ◌^◌, ◌≤◌, ◌<◌, suc, ◌≡◌, ◌≢◌, ◌⊎◌, inl, inr, refl, sym, ap, ◌∙◌, List, [], ◌∷◌, ◌++◌, map,
  Option, some, Outcome, done, length, get_or, All, truth, bit_and, Bool-cases, le→ltb, ne→==,
  arith,
}
use mathlib.Core.List.{append-nil}
use native.Mathlib.Decide.{ℕ_discrete}
use qemu_usage_test.Format.{digit_chars, lowercase, itoa_base, padding}
use qemu_usage_test.Format.Digits.{value, Leading, IsDigits, itoa_loop-Numeral}

abbrev pub digit_char : ℕ → ℕ → ℕ
digit_char flags d = get_or (digit_chars flags) d 0

length-digit_chars : (flags : ℕ) → length (digit_chars flags) ≡ 16
length-digit_chars flags = elim (Bool-cases (truth (bit_and flags lowercase))) [
  | inl e ↦ rw e refl
  | inr e ↦ rw e refl
]

-- What `itoa_base` writes: the padding, and the digits of the number, with no leading zero but in "0".
pub record Written (num base width flags : ℕ) (r : Outcome (Option (List ℕ))) : Type 0 where
  pub ds : List ℕ
  pub returns : r ≡ done (some (padding flags width (length ds) ++ map (digit_char flags) ds))
  pub small : All (λ d. d < base) ds
  pub stands_for : value base 0 ds ≡ num
  pub leading : Leading ds ⊎ (ds ≡ 0 ∷ [])
  pub fits : (0 < length ds) × (length ds ≤ 32)

-- The case of zero and the others.
IsDigits-pos : {base num : ℕ} (ds : List ℕ) → IsDigits base num ds → num ≢ 0 → 0 < length ds
IsDigits-pos [] is h = absurd (h (sym is.stands_for))
IsDigits-pos (d ∷ ds) is h = omega arith

pub length-map : (f : ℕ → ℕ) (xs : List ℕ) → length (map f xs) ≡ length xs
length-map f [] = refl
length-map f (x ∷ xs) = ap suc (length-map f xs)

-- For bases from 2 to 16 and any 32-bit number, `itoa_base` ends within the 32 characters of its
-- buffer, and what it writes is the zeros of the padding and then the digits of the number in this
-- base, the first one not zero unless the number is zero.
pub itoa_base-Written :
    (num base width flags : ℕ)
    → 2 ≤ base
    → base ≤ 16
    → num < 2 ^ 32
    → Written num base width flags (itoa_base num base width flags)
itoa_base-Written num base width flags lo hi small = elim (ℕ_discrete num 0) [
  | yes z ↦ rw z (record {
    ds = 0 ∷ [];
    returns = unfold itoa_base in rw (le→ltb base 2 lo, le→ltb 16 base hi) refl;
    small = (omega arith, tt);
    stands_for = omega arith;
    leading = inr refl;
    fits = (omega arith, omega arith);
  })
  | no nz ↦
      let n =
        itoa_loop-Numeral 32 num base (digit_chars flags) [] lo
          (omega (arith, length-digit_chars flags)) small (omega arith) in
      record {
        ds = n.ds;
        returns =
            unfold itoa_base in
            rw
              (
                le→ltb base 2 lo,
                le→ltb 16 base hi,
                ne→== num 0 nz,
                n.returns ∙ ap done (append-nil (map (digit_char flags) n.ds)),
                length-map (digit_char flags) n.ds,
              )
              refl;
        small = n.digits.small;
        stands_for = n.digits.stands_for;
        leading = inl n.digits.leading;
        fits = (IsDigits-pos n.ds n.digits nz, n.short);
      }
]
