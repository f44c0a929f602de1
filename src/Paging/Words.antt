-- ===== src/Paging/Words.antt =====
-- Words in memory.
use qemu_usage_test.Base.{
  ℕ, ◌+◌, ◌^◌, ◌≤◌, ◌<◌, ◌≡◌, ◌⊎◌, ap, ◌∙◌, ltb, leb, ◌&&◌, if◌then◌else◌, arith,
}
use qemu_usage_test.Memory.{Memory, poke}
use qemu_usage_test.Paging.{load32, store32}

-- A word is read from its four bytes.
pub load32-same :
    (p : ℕ) (mem mem' : Memory)
    → ((k : ℕ) → k < 4 → mem' (p + k) ≡ mem (p + k))
    → load32 p mem' ≡ load32 p mem
unfolding load32
load32-same p mem mem' same =
    let here : mem' p ≡ mem p =
      ap mem' (omega arith) ∙ same 0 (omega arith) ∙ ap mem (omega arith) in
    omega (arith, here, same 1 (omega arith), same 2 (omega arith), same 3 (omega arith))

pub load32-store32 : (p v : ℕ) (mem : Memory) → v < 2 ^ 32 → load32 p (store32 p v mem) ≡ v
unfolding load32 store32 poke
load32-store32 p v mem h = ground (arith, h)

pub store32-outside : (p v a : ℕ) (mem : Memory) → (a < p) ⊎ (p + 4 ≤ a) → store32 p v mem a ≡ mem a
unfolding store32 poke
store32-outside p v a mem h = ground (arith, h)

pub load32-store32_apart :
    (p q v : ℕ) (mem : Memory)
    → (p + 4 ≤ q) ⊎ (q + 4 ≤ p)
    → load32 q (store32 p v mem) ≡ load32 q mem
load32-store32_apart p q v mem h =
    load32-same q mem (store32 p v mem)
      (λ k small. store32-outside p v (q + k) mem (ground (arith, h, small)))

-- The page from `lo` on is zeroed.
module _ (lo p : ℕ) (mem mem' : Memory)
    (zeroed : (a : ℕ) → mem' a ≡ (if leb lo a && ltb a (lo + 4096) then 0 else mem a)) where
  pub load32-unzeroed : p + 4 ≤ lo → load32 p mem' ≡ load32 p mem
  load32-unzeroed apart = load32-same p mem mem' (λ k h. zeroed (p + k) ∙ ground (arith, h, apart))

  pub load32-zeroed : lo ≤ p → p + 4 ≤ lo + 4096 → load32 p mem' ≡ 0
  unfolding load32
  load32-zeroed low high =
      let none_left : (a : ℕ) → p ≤ a → a < p + 4 → mem' a ≡ 0 =
        λ a l h. zeroed a ∙ ground (arith, low, high, l, h) in
      omega (
        arith,
        none_left p (omega arith) (omega arith),
        none_left (p + 1) (omega arith) (omega arith),
        none_left (p + 2) (omega arith) (omega arith),
        none_left (p + 3) (omega arith) (omega arith),
      )
