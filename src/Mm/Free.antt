-- ===== src/Mm/Free.antt =====
-- `mm_kfree_pages`, and how it goes together with `mm_kget_pages`.
use qemu_usage_test.Base.{
  ℕ, ◌+◌, ◌*◌, ◌/◌, ◌^◌, ◌≤◌, ◌<◌, ◌≡◌, ◌≢◌, refl, ap, sym, ◌∙◌, ◌⊎◌, inl, inr, false, Outcome,
  done, ltb, add32, sub32, mul32, ne→==, le→ltb, lt→leb, arith, Bool-cases,
}
use mathlib.Core.Path.{ap₂}
use native.Mathlib.Decide.{dec_le}
use qemu_usage_test.Round.{round_down}
use qemu_usage_test.Vaddr.{pg_no}
use qemu_usage_test.Memory.{Memory, null}
use qemu_usage_test.Spin.{spin_lock, spin_unlock}
use qemu_usage_test.Bitmap.{get_bits_count}
use qemu_usage_test.Bitmap.Ranges.{put_within, reset_multi_bits-put}
use qemu_usage_test.Mm.{MemPool, Got, mm_kget_pages, mm_kfree_pages}
use qemu_usage_test.Mm.Pool.{IsPool, in_use, page_at}
use qemu_usage_test.Mm.Get.{Allocated, granted}

-- The pages from `i` on are free, if all `n` of them lie in the pool; no other page has changed.
pub record Released (i n : ℕ) (pool : MemPool) (r : Outcome MemPool) : Type 0 where
  pub pool' : MemPool
  pub returns : r ≡ done pool'
  pub cleared : (q : ℕ) → in_use pool' q ≡ put_within pool.bm.bit_count (in_use pool) i n false q
  pub same_base : pool'.base ≡ pool.base
  pub same_count : pool'.bm.bit_count ≡ pool.bm.bit_count
  pub valid : IsPool pool'

module _ {pool : MemPool} (valid : IsPool pool) (n : ℕ) (hn : n < 2 ^ 32) where
  kernel_pool_end : add32 pool.base (mul32 pool.bm.bit_count 4096) ≡ page_at pool pool.bm.bit_count
  kernel_pool_end = omega (arith, valid.fits)

  -- On a well-formed pool, `mm_kfree_pages` returns the pool as it is for an address below its
  -- first page or behind its last.
  pub mm_kfree_pages_outside :
      (pages : ℕ)
      → pages < 2 ^ 32
      → (pages < pool.base) ⊎ (page_at pool pool.bm.bit_count ≤ pages)
      → mm_kfree_pages pages n pool ≡ done pool
  unfolding mm_kfree_pages round_down get_bits_count
  mm_kfree_pages_outside pages hp out = rw kernel_pool_end (ground (arith, valid.aligned))

  -- On a well-formed pool, `mm_kfree_pages` with an address in page `i` of the pool marks the `n`
  -- pages from `i` on as free if all of them lie in the pool, and otherwise changes no page; the
  -- pool stays well formed.
  pub mm_kfree_pages-Released :
      (i off : ℕ)
      → i < pool.bm.bit_count
      → off < 4096
      → Released i n pool (mm_kfree_pages (page_at pool i + off) n pool)
  unfolding mm_kfree_pages round_down get_bits_count pg_no spin_lock spin_unlock
  mm_kfree_pages-Released i off hi ho =
      let page : (page_at pool i + off) / 4096 * 4096 ≡ page_at pool i =
        omega (arith, valid.aligned) in
      let number : sub32 (page_at pool i / 4096) (pool.base / 4096) ≡ i =
        omega (arith, valid.aligned, valid.fits) in
      rw
        (
          kernel_pool_end,
          page,
          le→ltb (page_at pool i) pool.base (omega arith),
          lt→leb (page_at pool pool.bm.bit_count) (page_at pool i) (omega arith),
          number,
        )
        (elim (Bool-cases (ltb pool.bm.bit_count (add32 i n))) [
          | inl over ↦ rw over (record {
            pool' = pool;
            returns = refl;
            cleared = λ q. ground (arith, over, valid.bitmap.small);
            same_base = refl;
            same_count = refl;
            valid = valid;
          })
          | inr inside ↦
              let r =
                reset_multi_bits-put i n valid.bitmap (omega (arith, valid.bitmap.small)) hn in
              rw inside (record {
                pool' = record { slock = 1; bm = r.result; base = pool.base };
                returns = rw (ne→== pool.slock 0 (omega (arith, valid.unlocked)), r.returns);
                cleared = r.view;
                same_base = refl;
                same_count = r.same_count;
                valid = record {
                  unlocked = refl;
                  bitmap = r.valid;
                  aligned = valid.aligned;
                  placed = valid.placed;
                  fits = rw r.same_count valid.fits;
                };
              })
        ])

-- On a well-formed pool, freeing the pages of a successful allocation succeeds and gives every page
-- its state from before the allocation, in a well-formed pool.
pub mm_kfree_pages-mm_kget_pages :
    {pool : MemPool} (flags n : ℕ) (mem : Memory) {p : ℕ} {pool' : MemPool} {mem' : Memory}
    → IsPool pool
    → 0 < n
    → n < 2 ^ 32
    → mm_kget_pages flags n pool mem ≡ done (p, pool', mem')
    → p ≢ null
    → (pool'' : MemPool) × (mm_kfree_pages p n pool' ≡ done pool'')
      × ((q : ℕ) → in_use pool'' q ≡ in_use pool q)
      × IsPool pool''
mm_kfree_pages-mm_kget_pages {pool} flags n mem valid n_pos hn e some_page =
    let (a, at, same, _) = granted valid flags n mem n_pos hn e some_page in
    let f =
      mm_kfree_pages-Released a.valid n hn a.index 0 (omega (arith, a.inside, a.same_count))
        (omega arith) in
    let where_it_is : page_at a.pool' a.index + 0 ≡ page_at pool a.index =
      omega (arith, a.same_base) in
    (
      f.pool',
      ap₂ (λ (q : ℕ) (k : MemPool). mm_kfree_pages q n k) (at ∙ sym where_it_is) same ∙ f.returns,
      λ q. ground (arith, f.cleared q, a.marked q, a.was_free q, a.same_count, a.inside),
      f.valid,
    )

-- Pages that were free are not among those in use.
apart :
    {flags1 flags2 n1 n2 : ℕ} {pool : MemPool} {mem1 mem2 : Memory} {r1 r2 : Outcome Got}
    → 0 < n1
    → 0 < n2
    → (a : Allocated flags1 n1 pool mem1 r1) (b : Allocated flags2 n2 a.pool' mem2 r2)
    → (a.index + n1 ≤ b.index) ⊎ (b.index + n2 ≤ a.index)
apart {n1} {n2} h1 h2 a b = elim (dec_le (a.index + n1) b.index) [
  | yes below ↦ inl below
  | no not_below ↦ elim (dec_le (b.index + n2) a.index) [
    | yes above ↦ inr above
    | no not_above ↦ absurd (elim (dec_le a.index b.index) [
      | yes first ↦ ground (arith, b.was_free b.index, a.marked b.index)
      | no last ↦ ground (arith, b.was_free a.index, a.marked a.index)
    ])
  ]
]

-- On a well-formed pool, two successful allocations in a row return page ranges that do not
-- overlap.
pub mm_kget_pages_disjoint :
    {pool : MemPool} (flags1 flags2 n1 n2 : ℕ) (mem : Memory) {p1 p2 : ℕ} {pool1 pool2 : MemPool}
    {mem1 mem2 : Memory}
    → IsPool pool
    → 0 < n1
    → n1 < 2 ^ 32
    → 0 < n2
    → n2 < 2 ^ 32
    → mm_kget_pages flags1 n1 pool mem ≡ done (p1, pool1, mem1)
    → p1 ≢ null
    → mm_kget_pages flags2 n2 pool1 mem1 ≡ done (p2, pool2, mem2)
    → p2 ≢ null
    → (p1 + 4096 * n1 ≤ p2) ⊎ (p2 + 4096 * n2 ≤ p1)
mm_kget_pages_disjoint flags1 flags2 n1 n2 mem {p2} {pool2} {mem1} {mem2} valid h1 k1 h2 k2 e1 s1 e2
      s2 =
    let (a, at1, same, _) = granted valid flags1 n1 mem h1 k1 e1 s1 in
    let e2' : mm_kget_pages flags2 n2 a.pool' mem1 ≡ done (p2, pool2, mem2) =
      ap (λ (k : MemPool). mm_kget_pages flags2 n2 k mem1) (sym same) ∙ e2 in
    let (b, at2, _, _) = granted a.valid flags2 n2 mem1 h2 k2 e2' s2 in
    elim (apart h1 h2 a b) [
      | inl below ↦ inl (omega (arith, at1, at2, a.same_base))
      | inr above ↦ inr (omega (arith, at1, at2, a.same_base))
    ]
