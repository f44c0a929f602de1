-- ===== src/Paging/Frames.antt =====
-- The frames of a fresh pool are handed out one after the other.

use qemu_usage_test.Base.{
  ℕ, suc, ◌+◌, ◌*◌, ◌<◌, ◌≡◌, ap, ◌∙◌, sym, inl, inr, false, ltb, lt→ltb, le→ltb, leb, ◌&&◌,
  if◌then◌else◌, done, arith,
}
use native.Mathlib.Decide.{ℕ_discrete, dec_le}
use qemu_usage_test.Memory.{Memory}
use qemu_usage_test.Bitmap.Search.{Blocked}
use qemu_usage_test.Mm.{MemPool, mm_kget_page, mm_kget_pages}
use qemu_usage_test.Mm.Pool.{IsPool, in_use, page_at}
use qemu_usage_test.Mm.Get.{Allocated, mm_kget_pages_lem}

-- The pool of `count` pages from `base` on whose first `k` pages are in use.
pub record Used (base count k : ℕ) (pool : MemPool) : Type 0 where
  pub valid : IsPool pool
  pub same_base : pool.base ≡ base
  pub same_count : pool.bm.bit_count ≡ count
  pub marks : (q : ℕ) → q < count → in_use pool q ≡ ltb q k

-- The first free page, zeroed.
pub record NextPage (base count k : ℕ) (pool : MemPool) (mem : Memory) : Type 0 where
  pub pool' : MemPool
  pub mem' : Memory
  pub returns : mm_kget_page 3 pool mem ≡ done (base + 4096 * k, pool', mem')
  pub used : Used base count (suc k) pool'
  pub zeroed :
      (a : ℕ)
      → mem' a ≡ (if leb (base + 4096 * k) a && ltb a (base + 4096 * k + 4096) then 0 else mem a)

module _ {base count k : ℕ} {pool : MemPool} (u : Used base count k pool) (room : k < count) where
  not_blocked : Blocked pool.bm 1 false k → ⊥
  not_blocked (q, low, high, taken) =
      let same : q ≡ k = omega arith in
      let free : in_use pool k ≡ false = u.marks k room ∙ le→ltb k k (omega arith) in
      ground (arith, taken, free, ap (in_use pool) same)

  first-eq :
      (i : ℕ)
      → i < count
      → in_use pool i ≡ false
      → ((p : ℕ) → p < i → Blocked pool.bm 1 false p)
      → i ≡ k
  first-eq i inside free earlier = elim (dec_le k i) [
    | yes h ↦ elim (ℕ_discrete i k) [
      | yes e ↦ e
      | no d ↦ absurd (not_blocked (earlier k (omega arith)))
    ]
    | no h ↦ ground (arith, sym free ∙ u.marks i inside, lt→ltb i k (omega arith))
  ]

  Allocated-NextPage :
      (mem : Memory)
      → Allocated 3 1 pool mem (mm_kget_pages 3 1 pool mem)
      → NextPage base count k pool mem
  unfolding mm_kget_page
  Allocated-NextPage mem a =
      let index : a.index ≡ k =
        first-eq a.index (omega (arith, a.inside, u.same_count))
          (a.was_free a.index (omega arith) (omega arith)) a.first in
      let address : page_at pool a.index ≡ base + 4096 * k = omega (arith, index, u.same_base) in
      record {
        pool' = a.pool';
        mem' = a.mem';
        returns = a.returns ∙ ap (λ p. done (p, a.pool', a.mem')) address;
        used = record {
          valid = a.valid;
          same_base = a.same_base ∙ u.same_base;
          same_count = a.same_count ∙ u.same_count;
          marks = λ q h. a.marked q ∙ ground (arith, index, u.marks q h);
        };
        zeroed = λ b. a.zeroed b ∙ ground (arith, address);
      }

  pub next_page : (mem : Memory) → NextPage base count k pool mem
  next_page mem = elim (mm_kget_pages_lem u.valid 3 1 mem (omega arith) (omega arith)) [
    | inl a ↦ Allocated-NextPage mem a
    | inr r ↦ absurd (not_blocked (r.blocked k (omega (arith, u.same_count))))
  ]
