-- ===== src/Format/Digits.antt =====
-- The numerals that `itoa_base` writes.
use mathlib.Core.Path.{subst}
use native.Mathlib.Decide.{ℕ_discrete}
use mathlib.Core.List.{append_assoc, map-append}
use native.Mathlib.Nat.{two-pow-succ, div-lt_iff_lt-mul, mul-le-mul_left, div-add-mod', mod-lt}
use qemu_usage_test.Base.{
  ℕ, zero, suc, ◌+◌, ◌*◌, ◌/◌, ◌%◌, ◌^◌, ◌≤◌, ◌<◌, ◌≡◌, ◌≢◌, refl, sym, ap, ◌∙◌, List, [], ◌∷◌,
  ◌++◌, map, Outcome, done, length, length-append, get_or, All, load-done, lt→ltb, ne→==, arith,
}
use qemu_usage_test.Format.{itoa_loop}

-- What digits stand for, behind those that stand for `acc`.
abbrev pub value : ℕ → ℕ → List ℕ → ℕ
value base acc [] = acc
value base acc (d ∷ ds) = value base (acc * base + d) ds

-- No leading zero.
abbrev pub Leading : List ℕ → Type 0
Leading [] = Unit
Leading (d ∷ ds) = d ≢ 0

-- The digits of a number, none for 0.
pub record IsDigits (base num : ℕ) (ds : List ℕ) : Type 0 where
  pub small : All (λ d. d < base) ds
  pub stands_for : value base 0 ds ≡ num
  pub leading : Leading ds

value-append :
    (base acc : ℕ) (xs ys : List ℕ) → value base acc (xs ++ ys) ≡ value base (value base acc xs) ys
value-append base acc [] ys = refl
value-append base acc (x ∷ xs) ys = value-append base (acc * base + x) xs ys

All-append {ℓ} : (P : ℕ → Type ℓ) (xs ys : List ℕ) → All P xs → All P ys → All P (xs ++ ys)
All-append P [] ys h k = k
All-append P (x ∷ xs) ys h k = (h.0, All-append P xs ys h.1 k)

Leading-append :
    (base num d : ℕ) (ds : List ℕ)
    → value base 0 ds ≡ num
    → Leading ds
    → num * base + d ≢ 0
    → Leading (ds ++ d ∷ [])
Leading-append base num d [] e h k = ground (arith, e)
Leading-append base num d (x ∷ ds) e h k = h

-- A digit behind a numeral.
IsDigits-snoc :
    (base num d : ℕ) (ds : List ℕ)
    → IsDigits base num ds
    → d < base
    → num * base + d ≢ 0
    → IsDigits base (num * base + d) (ds ++ d ∷ [])
IsDigits-snoc base num d ds is h k = record {
  small = All-append (λ d. d < base) ds (d ∷ []) is.small (h, tt);
  stands_for = value-append base 0 ds (d ∷ []) ∙ ap (λ (v : ℕ). v * base + d) is.stands_for;
  leading = Leading-append base num d ds is.stands_for is.leading k;
}

div-lt-pow : (k num base : ℕ) → 2 ≤ base → num < 2 ^ suc k → num / base < 2 ^ k
div-lt-pow k num base h small =
    (div-lt_iff_lt-mul (omega arith)).1 (omega (arith, two-pow-succ k, mul-le-mul_left (2 ^ k) h))

-- What the loop leaves: the characters of the digits in front of those that were there.
pub record Numeral (k num base : ℕ) (chars temp : List ℕ) (r : Outcome (List ℕ)) : Type 0 where
  pub ds : List ℕ
  pub returns : r ≡ done (map (λ d. get_or chars d 0) ds ++ temp)
  pub digits : IsDigits base num ds
  pub short : length ds ≤ k

none_left : (k base : ℕ) (chars temp : List ℕ) → Numeral k 0 base chars temp (done temp)
none_left k base chars temp = record {
  ds = [];
  returns = refl;
  digits = record { small = tt; stands_for = refl; leading = tt };
  short = omega arith;
}

itoa_step :
    (fuel num base : ℕ) (chars temp : List ℕ)
    → num ≢ 0
    → num % base < length chars
    → length temp < 32
    → itoa_loop (suc fuel) num base chars temp
      ≡ itoa_loop fuel (num / base) base chars (get_or chars (num % base) 0 ∷ temp)
itoa_step fuel num base chars temp h k room =
    unfold itoa_loop in
    rw (ne→== num 0 h, load-done chars (num % base) 0 k, lt→ltb (length temp) 32 room) refl

one_more :
    (k num base : ℕ) (chars temp : List ℕ) {r : Outcome (List ℕ)}
    → 2 ≤ base
    → num ≢ 0
    → Numeral k (num / base) base chars (get_or chars (num % base) 0 ∷ temp) r
    → Numeral (suc k) num base chars temp r
one_more k num base chars temp h some_digit n =
    let whole : num / base * base + num % base ≡ num = div-add-mod' num base in
    record {
      ds = n.ds ++ num % base ∷ [];
      returns =
          n.returns
          ∙ ap done (
              sym (
                append_assoc (map (λ d. get_or chars d 0) n.ds) (get_or chars (num % base) 0 ∷ [])
                  temp)
              ∙ ap (λ (cs : List ℕ). cs ++ temp)
                  (sym (map-append (λ d. get_or chars d 0) n.ds (num % base ∷ []))));
      digits =
          subst (λ m. IsDigits base m (n.ds ++ num % base ∷ [])) whole
            (IsDigits-snoc base (num / base) (num % base) n.ds n.digits (mod-lt num (omega arith))
              (rw whole some_digit));
      short = omega (arith, n.short, length-append n.ds (num % base ∷ []));
    }

pub itoa_loop-Numeral :
    (k num base : ℕ) (chars temp : List ℕ)
    → 2 ≤ base
    → base ≤ length chars
    → num < 2 ^ k
    → k + length temp ≤ 32
    → Numeral k num base chars temp (itoa_loop (suc k) num base chars temp)
itoa_loop-Numeral zero num base chars temp h hc small room =
    let e : num ≡ 0 = omega arith in rw e (unfold itoa_loop in none_left 0 base chars temp)
itoa_loop-Numeral (suc k) num base chars temp h hc small room = elim (ℕ_discrete num 0) [
  | yes z ↦ rw z (unfold itoa_loop in none_left (suc k) base chars temp)
  | no nz ↦
      let in_base : num % base < base = mod-lt num (omega arith) in
      subst (Numeral (suc k) num base chars temp)
        (sym (itoa_step (suc k) num base chars temp nz (omega arith) (omega arith)))
        (one_more k num base chars temp h nz (
          itoa_loop-Numeral k (num / base) base chars (get_or chars (num % base) 0 ∷ temp) h hc
            (div-lt-pow k num base h small) (omega arith)))
]
