-- ===== src/Base/Binary.antt =====
-- Binary digits of a number, and what the bit operations do to each of them.
use Prim.Native.Nat.{
  ℕ, zero, suc, ◌+◌, ◌-◌, ◌*◌, ◌/◌, ◌%◌, ◌^◌, ◌≤◌, ◌<◌, min, max, digits, bitwise, bit_and, bit_or,
  bit_and-bitwise, bit_or-bitwise,
}
use mathlib.Core.Path.{◌≡◌, refl}
use mathlib.Core.Bool.{Bool, true, false, not, ◌&&◌, ◌||◌}
use native.Mathlib.Nat.{
  two-pow-succ, one-le-pow, div-add-mod, mod-lt, mul-add-mod_self_left, mod-eq_of_lt,
}
use native.Mathlib.Omega.{arith}
use mathlib.Core.Path.{ap, ◌∙◌}
use qemu_usage_test.Base.Tests.{◌==◌, ltb}
use qemu_usage_test.Base.Words.{truth}

-- Digit `k` of `n`, counted from the lowest.
unfoldable pub bit : ℕ → ℕ → Bool
bit zero n = n % 2 == 1
bit (suc k) n = bit k (n / 2)

-- The count of digits to go may be any that is large enough.
module _ (z : ℕ → ℕ) (f : ℕ → ℕ → ℕ) where
  digits_count : (n m a b : ℕ) → a ≤ n → a ≤ m → digits z f n a b ≡ digits z f m a b
  digits_count zero zero zero b h k = refl
  digits_count zero (suc m) zero b h k = refl
  digits_count (suc n) zero zero b h k = refl
  digits_count (suc n) (suc m) zero b h k = refl
  digits_count zero m (suc a) b h k = absurd (omega arith)
  digits_count (suc n) zero (suc a) b h k = absurd (omega arith)
  digits_count (suc n) (suc m) (suc a) b h k =
      rw (digits_count n m (suc a / 2) (b / 2) (omega arith) (omega arith))

  bitwise_lowest :
      (a b : ℕ) → 0 < a → bitwise z f a b ≡ bitwise z f (a / 2) (b / 2) * 2 + f (a % 2) (b % 2)
  bitwise_lowest zero b h = elim h [ ]
  bitwise_lowest (suc a) b h =
      rw (digits_count a (suc a / 2) (suc a / 2) (b / 2) (omega arith) (omega arith))

bit_or_lowest : (a b : ℕ) → bit_or a b ≡ bit_or (a / 2) (b / 2) * 2 + max (a % 2) (b % 2)
bit_or_lowest zero b = simp bit_or-bitwise (omega arith)
bit_or_lowest (suc a) b = simp bit_or-bitwise (bitwise_lowest (λ d. d) max (suc a) b (omega arith))

bit_and_lowest : (a b : ℕ) → bit_and a b ≡ bit_and (a / 2) (b / 2) * 2 + min (a % 2) (b % 2)
bit_and_lowest zero b = simp bit_and-bitwise (omega arith)
bit_and_lowest (suc a) b =
    simp bit_and-bitwise (bitwise_lowest (λ d. 0) min (suc a) b (omega arith))

pub bit-or : (k a b : ℕ) → bit k (bit_or a b) ≡ (bit k a || bit k b)
unfolding bit
bit-or zero a b = ground (arith, bit_or_lowest a b)
bit-or (suc k) a b =
    let half : bit_or a b / 2 ≡ bit_or (a / 2) (b / 2) = omega (arith, bit_or_lowest a b) in
    rw half (bit-or k (a / 2) (b / 2))

pub bit-and : (k a b : ℕ) → bit k (bit_and a b) ≡ (bit k a && bit k b)
unfolding bit
bit-and zero a b = ground (arith, bit_and_lowest a b)
bit-and (suc k) a b =
    let half : bit_and a b / 2 ≡ bit_and (a / 2) (b / 2) = omega (arith, bit_and_lowest a b) in
    rw half (bit-and k (a / 2) (b / 2))

pub bit-zero : (k : ℕ) → bit k 0 ≡ false
unfolding bit
bit-zero zero = refl
bit-zero (suc k) = bit-zero k

pub bit-pow : (j k : ℕ) → bit j (2 ^ k) ≡ (j == k)
unfolding bit
bit-pow zero zero = refl
bit-pow zero (suc k) = ground (arith, two-pow-succ k)
bit-pow (suc j) zero = rw (bit-zero j) (ground arith)
bit-pow (suc j) (suc k) =
    let half : 2 ^ suc k / 2 ≡ 2 ^ k = omega (arith, two-pow-succ k) in
    rw half (rw (bit-pow j k) (ground arith))

-- `~n` in a word of `w` digits.
pub bit-complement : (k w n : ℕ) → k < w → n < 2 ^ w → bit k (2 ^ w - 1 - n) ≡ not (bit k n)
unfolding bit
bit-complement k zero n h small = elim h [ ]
bit-complement zero (suc w) n h small = ground (arith, two-pow-succ w, one-le-pow w 2)
bit-complement (suc k) (suc w) n h small =
    let half : (2 ^ suc w - 1 - n) / 2 ≡ 2 ^ w - 1 - n / 2 = omega (arith, two-pow-succ w) in
    rw half (bit-complement k w (n / 2) (omega arith) (omega (arith, two-pow-succ w)))

pub bit-ones : (k w : ℕ) → k < w → bit k (2 ^ w - 1) ≡ true
bit-ones k w h = ground (arith, bit-complement k w 0 h, bit-zero k, one-le-pow w 2)

bit_and-zero_count : (n a : ℕ) → a ≤ n → bit_and a 0 ≡ 0
bit_and-zero_count n zero h = refl
bit_and-zero_count zero (suc a) h = absurd (omega arith)
bit_and-zero_count (suc n) (suc a) h =
    omega (arith, bit_and_lowest (suc a) 0, bit_and-zero_count n (suc a / 2) (omega arith))

pub bit_and-zero : (a : ℕ) → bit_and a 0 ≡ 0
bit_and-zero a = bit_and-zero_count a a (omega arith)

-- `n & (1 << k)` as a truth value is digit `k`.
pub truth-bit_and-pow : (n k : ℕ) → truth (bit_and n (2 ^ k)) ≡ bit k n
unfolding bit
truth-bit_and-pow n zero = ground (arith, bit_and_lowest n 1, bit_and-zero (n / 2))
truth-bit_and-pow n (suc k) =
    let half : 2 ^ suc k / 2 ≡ 2 ^ k = omega (arith, two-pow-succ k) in
    let low : bit_and n (2 ^ suc k) ≡ bit_and (n / 2) (2 ^ k) * 2 = omega (
      arith,
      bit_and_lowest n (2 ^ suc k),
      half,
      two-pow-succ k,
      ap (λ (t : ℕ). bit_and (n / 2) t) half,
    ) in
    rw low (ground (arith, truth-bit_and-pow (n / 2) k))

mod_double : (a p : ℕ) → 0 < p → a % (p + p) ≡ a / 2 % p * 2 + a % 2
mod_double a p pos =
    let q = a / 2 / p in
    let r = a / 2 % p in
    let split : a ≡ (p + p) * q + (r * 2 + a % 2) = omega (arith, div-add-mod (a / 2) p) in
    let small : r * 2 + a % 2 < p + p = omega (arith, mod-lt (a / 2) pos) in
    ap (λ (t : ℕ). t % (p + p)) split
    ∙ mul-add-mod_self_left (p + p) q (r * 2 + a % 2)
    ∙ mod-eq_of_lt small

two-pow-pos : (w : ℕ) → 0 < 2 ^ w
two-pow-pos w = one-le-pow w 2 (omega arith)

mod-pow_suc : (w n : ℕ) → n % 2 ^ suc w ≡ n / 2 % 2 ^ w * 2 + n % 2
mod-pow_suc w n = ap (λ (t : ℕ). n % t) (two-pow-succ w) ∙ mod_double n (2 ^ w) (two-pow-pos w)

-- The low `w` digits, as a remainder.
pub bit_and-ones : (w a : ℕ) → bit_and a (2 ^ w - 1) ≡ a % 2 ^ w
bit_and-ones zero a = rw bit_and-zero (omega arith)
bit_and-ones (suc w) a =
    let half : (2 ^ suc w - 1) / 2 ≡ 2 ^ w - 1 = omega (arith, two-pow-succ w, one-le-pow w 2) in
    let rest : bit_and (a / 2) ((2 ^ suc w - 1) / 2) ≡ a / 2 % 2 ^ w =
      ap (λ (t : ℕ). bit_and (a / 2) t) half ∙ bit_and-ones w (a / 2) in
    omega (
      arith,
      bit_and_lowest a (2 ^ suc w - 1),
      rest,
      mod-pow_suc w a,
      two-pow-succ w,
      two-pow-pos w,
    )

pub bit-mod_pow : (k w n : ℕ) → bit k (n % 2 ^ w) ≡ (bit k n && ltb k w)
unfolding bit
bit-mod_pow k zero n =
    let none_left : n % 2 ^ 0 ≡ 0 = omega arith in ground (arith, ap (bit k) none_left, bit-zero k)
bit-mod_pow zero (suc w) n = ground (arith, mod-pow_suc w n)
bit-mod_pow (suc k) (suc w) n =
    let half : n % 2 ^ suc w / 2 ≡ n / 2 % 2 ^ w = omega (arith, mod-pow_suc w n) in
    rw half (rw (bit-mod_pow k w (n / 2)) (ground arith))

bit_or-zero_count : (n a : ℕ) → a ≤ n → bit_or a 0 ≡ a
bit_or-zero_count n zero h = refl
bit_or-zero_count zero (suc a) h = absurd (omega arith)
bit_or-zero_count (suc n) (suc a) h =
    omega (arith, bit_or_lowest (suc a) 0, bit_or-zero_count n (suc a / 2) (omega arith))

pub bit_or-zero : (a : ℕ) → bit_or a 0 ≡ a
bit_or-zero a = bit_or-zero_count a a (omega arith)

-- `(q << w) | r` is a sum, since the two have no digit in common.
pub bit_or-shifted : (w q r : ℕ) → r < 2 ^ w → bit_or (q * 2 ^ w) r ≡ q * 2 ^ w + r
bit_or-shifted zero q zero h = bit_or-zero (q * 2 ^ 0) ∙ omega arith
bit_or-shifted zero q (suc r) h = absurd (omega arith)
bit_or-shifted (suc w) q r h =
    let twice : q * 2 ^ suc w ≡ q * 2 ^ w * 2 =
      omega (arith, ap (λ (t : ℕ). q * t) (two-pow-succ w)) in
    let half : q * 2 ^ suc w / 2 ≡ q * 2 ^ w = omega (arith, twice) in
    omega (
      arith,
      bit_or_lowest (q * 2 ^ suc w) r,
      twice,
      ap (λ (t : ℕ). bit_or t (r / 2)) half,
      bit_or-shifted w q (r / 2) (omega (arith, two-pow-succ w)),
    )

pub bit_or-lt : (w a b : ℕ) → a < 2 ^ w → b < 2 ^ w → bit_or a b < 2 ^ w
bit_or-lt zero zero zero h k = omega arith
bit_or-lt zero zero (suc b) h k = absurd (omega arith)
bit_or-lt zero (suc a) b h k = absurd (omega arith)
bit_or-lt (suc w) a b h k = omega (
  arith,
  two-pow-succ w,
  bit_or_lowest a b,
  bit_or-lt w (a / 2) (b / 2) (omega (arith, two-pow-succ w)) (omega (arith, two-pow-succ w)),
)

bit_and-le_count : (n a b : ℕ) → a ≤ n → bit_and a b ≤ a
bit_and-le_count n zero b h = rw (bit_and_zero_left b) (omega arith)
  where
    bit_and_zero_left : (b : ℕ) → bit_and 0 b ≡ 0
    bit_and_zero_left b = bit_and-bitwise 0 b
bit_and-le_count zero (suc a) b h = absurd (omega arith)
bit_and-le_count (suc n) (suc a) b h =
    omega (arith, bit_and_lowest (suc a) b, bit_and-le_count n (suc a / 2) (b / 2) (omega arith))

pub bit_and-le : (a b : ℕ) → bit_and a b ≤ a
bit_and-le a b = bit_and-le_count a a b (omega arith)

-- Two words with the same digits are equal.
pub bit_ext : (w a b : ℕ) → a < 2 ^ w → b < 2 ^ w → ((k : ℕ) → k < w → bit k a ≡ bit k b) → a ≡ b
unfolding bit
bit_ext zero a b ha hb same = omega arith
bit_ext (suc w) a b ha hb same =
    let halves =
      bit_ext w (a / 2) (b / 2) (omega (arith, two-pow-succ w)) (omega (arith, two-pow-succ w))
        (λ k h. same (suc k) (omega arith)) in
    ground (arith, same 0 (omega arith), halves)

-- `(a << w) & (b << w)`
pub bit_and-shifted : (w a b : ℕ) → bit_and (a * 2 ^ w) (b * 2 ^ w) ≡ bit_and a b * 2 ^ w
bit_and-shifted zero a b =
    let same : (n : ℕ) → n * 2 ^ 0 ≡ n = λ n. omega arith in
    rw (same a, same b, same (bit_and a b)) refl
bit_and-shifted (suc w) a b =
    let twice : (n : ℕ) → n * 2 ^ suc w ≡ n * 2 ^ w * 2 =
      λ n. omega (arith, ap (λ (t : ℕ). n * t) (two-pow-succ w)) in
    let half : (n : ℕ) → n * 2 ^ suc w / 2 ≡ n * 2 ^ w = λ n. omega (arith, twice n) in
    let odd : (n : ℕ) → n * 2 ^ suc w % 2 ≡ 0 = λ n. omega (arith, twice n) in
    bit_and_lowest (a * 2 ^ suc w) (b * 2 ^ suc w)
    ∙ rw (half a, half b, odd a, odd b, bit_and-shifted w a b) (omega (arith, twice (bit_and a b)))
