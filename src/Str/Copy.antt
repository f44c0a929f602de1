-- ===== src/Str/Copy.antt =====
-- `memcpy` and `memmove`
use native.Mathlib.Nat.{mod-eq_of_lt, mod_self, mod-lt, suc-mod}
use qemu_usage_test.Base.{
  ℕ, zero, suc, ◌+◌, ◌-◌, ◌%◌, ◌≤◌, ◌<◌, ◌≡◌, ◌≢◌, ◌⊎◌, refl, ap, ◌∙◌, ◌&&◌, ltb, leb,
  if◌then◌else◌, arith,
}
use native.Mathlib.Decide.{ℕ_discrete}
use qemu_usage_test.Memory.{Memory, poke, null}
use qemu_usage_test.Str.{copy_loop, memcpy, memmove}

-- Copying upwards is safe: the ranges are apart, or the destination is below the source.
abbrev pub CopiesUp : ℕ → ℕ → ℕ → Type 0
CopiesUp dest src size = (dest ≤ src) ⊎ (src + size ≤ dest)

pub copy_loop-at :
    (size dest src : ℕ) (mem : Memory) (a : ℕ)
    → CopiesUp dest src size
    → copy_loop size dest src mem a
      ≡ (if leb dest a && ltb a (dest + size) then mem (src + (a - dest)) else mem a)
unfolding copy_loop poke
copy_loop-at zero dest src mem a h = ground arith
copy_loop-at (suc size) dest src mem a h =
    ground (arith, copy_loop-at size (dest + 1) (src + 1) (poke mem dest (mem src)) a)

-- Where the destination is not above the source or the ranges do not overlap, `memcpy` of a
-- positive size returns the destination, copies the bytes and changes no other byte.
pub memcpy_lem :
    (dest src size : ℕ) (mem : Memory)
    → dest ≢ null
    → src ≢ null
    → 0 < size
    → CopiesUp dest src size
    → ((memcpy dest src size mem).0 ≡ dest)
      × ((a : ℕ)
          → (memcpy dest src size mem).1 a
            ≡ (if leb dest a && ltb a (dest + size) then mem (src + (a - dest)) else mem a))
unfolding memcpy
memcpy_lem dest src size mem hd hs pos h =
    (ground arith, λ a. ground (arith, copy_loop-at size dest src mem a h))

copy_loop-below :
    (size dest src : ℕ) (mem : Memory) (a : ℕ) → a < dest → copy_loop size dest src mem a ≡ mem a
unfolding copy_loop poke
copy_loop-below zero dest src mem a h = refl
copy_loop-below (suc size) dest src mem a h =
    ground (arith, copy_loop-below size (dest + 1) (src + 1) (poke mem dest (mem src)) a)

copy_loop-overlap :
    (size src d k : ℕ) (mem : Memory)
    → 0 < d
    → k < size
    → copy_loop size (src + d) src mem (src + d + k) ≡ mem (src + k % d)
unfolding copy_loop
copy_loop-overlap zero src d k mem hd hk = absurd (omega arith)
copy_loop-overlap (suc size) src d zero mem hd hk =
    let first : 0 % d ≡ 0 = grind arith in
    copy_loop-below size (src + d + 1) (src + 1) (poke mem (src + d) (mem src)) (src + d + 0)
      (omega arith)
    ∙ unfold poke in ground (arith, first)
copy_loop-overlap (suc size) src d (suc k) mem hd hk =
    let dest_eq : src + d + 1 ≡ src + 1 + d = omega arith in
    let at_eq : src + d + suc k ≡ src + 1 + d + k = omega arith in
    rw (dest_eq, at_eq)
      (copy_loop-overlap size (src + 1) d k (poke mem (src + d) (mem src)) hd (omega arith)
        ∙ wrapped)
  where
    wrapped : poke mem (src + d) (mem src) (src + 1 + k % d) ≡ mem (src + suc k % d)
    wrapped =
        unfold poke in
        elim (ℕ_discrete (suc (k % d)) d) [
          | yes e ↦
              let zero_mod : suc k % d ≡ 0 = suc-mod k d ∙ ap (λ (t : ℕ). t % d) e ∙ mod_self d in
              ground (arith, zero_mod, e)
          | no ne ↦
              let next_mod : suc k % d ≡ suc (k % d) =
                suc-mod k d ∙ mod-eq_of_lt (omega (arith, mod-lt k hd)) in
              ground (arith, next_mod, ne)
        ]

-- `memmove` to a place inside of its source, `d` bytes above it, repeats the first `d` bytes
-- instead of moving the object.
pub memmove_overlap :
    (src d size k : ℕ) (mem : Memory)
    → src ≢ null
    → 0 < d
    → k < size
    → (memmove (src + d) src size mem).1 (src + d + k) ≡ mem (src + k % d)
unfolding memmove memcpy
memmove_overlap src d size k mem hs hd hk = ground (arith, copy_loop-overlap size src d k mem hd hk)

-- Where bytes are copied upwards without harm, `memmove` moves them.
pub memmove-up :
    (dest src size : ℕ) (mem : Memory) (a : ℕ)
    → dest ≢ null
    → src ≢ null
    → 0 < size
    → CopiesUp dest src size
    → (memmove dest src size mem).1 a
      ≡ (if leb dest a && ltb a (dest + size) then mem (src + (a - dest)) else mem a)
unfolding memmove
memmove-up dest src size mem a hd hs pos h = (memcpy_lem dest src size mem hd hs pos h).1 a
