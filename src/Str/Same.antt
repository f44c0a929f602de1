-- ===== src/Str/Same.antt =====
-- `strlen` in memory that has the same characters.
use qemu_usage_test.Base.{
  ℕ, zero, suc, ◌+◌, ◌-◌, ◌^◌, ◌≤◌, ◌≡◌, inl, inr, ap, Bool-cases, done, ◌>>=◌, ◌==◌,
  done-injective, done-bind, hang-not_done, arith,
}
use qemu_usage_test.Memory.{Memory, null}
use qemu_usage_test.Str.{find_end, strlen}

-- The end of a string is found at the same place in memory that has the same characters up to it.
find_end-same :
    (fuel p q : ℕ) (mem mem' : Memory)
    → find_end fuel p mem ≡ done q
    → (p ≤ q) × (((a : ℕ) → p ≤ a → a ≤ q → mem' a ≡ mem a) → find_end fuel p mem' ≡ done q)
unfolding find_end
find_end-same zero p q mem mem' e = absurd (hang-not_done e)
find_end-same (suc fuel) p q mem mem' e = elim (Bool-cases (mem p == 0)) [
  | inl here ↦
      (let place : p ≡ q = done-injective (rw here at e) in
        (
          omega (arith, place),
          λ same. rw (same p (omega arith) (omega (arith, place)), here) (ap done place),
        ))
  | inr there ↦
      (let rest : find_end fuel (p + 1) mem ≡ done q = rw there at e in
        let later = find_end-same fuel (p + 1) q mem mem' rest in
        (
          omega (arith, later.0),
          λ same.
              rw (same p (omega arith) (omega (arith, later.0)), there)
                (later.1 (λ a h k. same a (omega (arith, h)) k)),
        ))
]

pub strlen-same :
    (str len : ℕ) (mem mem' : Memory)
    → ((a : ℕ) → str ≤ a → a ≤ str + len → mem' a ≡ mem a)
    → strlen str mem ≡ done len
    → strlen str mem' ≡ done len
unfolding strlen
strlen-same str len mem mem' same e = elim (Bool-cases (str == null)) [
  | inl h ↦ rw h (rw h at e)
  | inr h ↦
      (let found : (find_end (2 ^ 32) str mem >>= λ p. done (p - str)) ≡ done len = rw h at e in
        let (p, ends, size) = done-bind (find_end (2 ^ 32) str mem) _ len found in
        let kept = find_end-same (2 ^ 32) str p mem mem' ends in
        let width : p - str ≡ len = done-injective size in
        rw (h, kept.1 (λ a low high. same a low (omega (arith, kept.0, width)))) size)
]
