-- ===== src/Mm/History/Laws.antt =====
-- The states that allocations and releases reach.
use mathlib.Core.Path.{subst, subst₂}
use qemu_usage_test.Base.{
  ℕ, ◌+◌, ◌^◌, ◌<◌, ◌≡◌, sym, ap, ◌∙◌, inl, inr, List, [], ◌∷◌, ◌++◌, done, done-injective,
  All-middle, arith,
}
use qemu_usage_test.Memory.{Memory, null}
use qemu_usage_test.Mm.{MemPool, Got, mm_kget_pages, mm_kfree_pages}
use qemu_usage_test.Mm.Pool.{IsPool, in_use, page_at}
use qemu_usage_test.Mm.Init.{mm_init_lem}
use qemu_usage_test.Mm.Get.{mm_kget_pages_lem, granted}
use qemu_usage_test.Mm.Free.{Released, mm_kfree_pages-Released}
use qemu_usage_test.Mm.Grants.{Grant, covers}
use qemu_usage_test.Mm.History.{
  Heap, Step, Reachable, allocate, refuse, release, write, start, next,
}
use qemu_usage_test.Mm.History.Kept.{Within, IsHeap, allocate-IsHeap, release-IsHeap}

-- A range of the pool is given back without a fault.
releases :
    (pool : MemPool) (g : Grant)
    → IsPool pool
    → (w : Within pool g) → Released w.index g.count pool (mm_kfree_pages g.page g.count pool)
releases pool g valid w =
    let at : page_at pool w.index + 0 ≡ g.page = omega (arith, w.at) in
    subst (λ p. Released w.index g.count pool (mm_kfree_pages p g.count pool)) at
      (mm_kfree_pages-Released valid g.count (omega (arith, w.inside, valid.bitmap.small)) w.index 0
        (omega (arith, w.inside, w.some_pages)) (omega arith))

refused_same :
    (h : Heap) (flags n : ℕ) {pool : MemPool} {mem : Memory}
    → IsPool h.pool
    → 0 < n
    → n < 2 ^ 32
    → mm_kget_pages flags n h.pool h.mem ≡ done (null, pool, mem)
    → pool ≡ h.pool
refused_same h flags n valid n_pos hn e = elim (mm_kget_pages_lem valid flags n h.mem n_pos hn) [
  | inl a ↦
      let zero_page : null ≡ page_at h.pool a.index =
        ap (λ (g : Got). g.0) (done-injective (sym e ∙ a.returns)) in
      absurd (omega (arith, zero_page, valid.placed))
  | inr r ↦ ap (λ (g : Got). g.1) (done-injective (sym e ∙ r.returns))
]

Step-IsHeap : (h h' : Heap) → IsHeap h → Step h h' → IsHeap h'
Step-IsHeap _ _ is (allocate h flags n p pool mem n_pos hn e some_page) =
    let (a, at, same, _) = granted is.valid flags n h.mem n_pos hn e some_page in
    subst₂
      (λ (pl : MemPool) (q : ℕ).
        IsHeap
          (record { pool = pl; mem = mem; grants = record { page = q; count = n } ∷ h.grants }))
      (sym same) (sym at) (allocate-IsHeap h flags n mem n_pos is a)
Step-IsHeap _ _ is (refuse h flags n pool mem n_pos hn e) =
    subst (λ (pl : MemPool). IsHeap (record { pool = pl; mem = mem; grants = h.grants }))
      (sym (refused_same h flags n is.valid n_pos hn e))
      (record {
        valid = is.valid;
        within = is.within;
        apart = is.apart;
        used_iff_granted = is.used_iff_granted;
      })
Step-IsHeap _ _ is (release h before after g pool held e) =
    let is' : IsHeap (record h { grants = before ++ g ∷ after }) =
      subst (λ gs. IsHeap (record h { grants = gs })) held is in
    let w = (All-middle (Within h.pool) before after g is'.within).0 in
    let r = releases h.pool g is.valid w in
    subst (λ (pl : MemPool). IsHeap (record { pool = pl; mem = h.mem; grants = before ++ after }))
      (done-injective (sym r.returns ∙ e)) (release-IsHeap h before after g is' w r)
Step-IsHeap _ _ is (write h mem) = record {
  valid = is.valid;
  within = is.within;
  apart = is.apart;
  used_iff_granted = is.used_iff_granted;
}

-- In every state that calls of `mm_kget_pages` for fewer than 2^32 pages, releases by
-- `mm_kfree_pages` of ranges that were handed out and not given back, and writes to memory reach
-- from a pool that `mm_init` has set up (for more than 256 and fewer than 0x40000 pages of memory),
-- in any order, the pool is well formed and unlocked, the ranges handed out are pages of the pool,
-- no two of them overlap, and a page is marked as used exactly if it is in one of them.
pub Reachable-IsHeap : (h : Heap) → Reachable h → IsHeap h
Reachable-IsHeap _ (start words page_num pool mem low high ok room e) =
    let (fresh, returns, valid, all_free, _) = mm_init_lem words page_num low high ok room in
    subst (λ (pl : MemPool). IsHeap (record { pool = pl; mem = mem; grants = [] }))
      (done-injective (sym returns ∙ e))
      (record { valid = valid; within = tt; apart = tt; used_iff_granted = all_free })
Reachable-IsHeap _ (next h h' reach step) = Step-IsHeap h h' (Reachable-IsHeap h reach) step

-- In every such state, `mm_kfree_pages` of any range that is handed out returns, and the pages in
-- use are then those of the other ranges.
pub Reachable-releases :
    (h : Heap) (before after : List Grant) (g : Grant)
    → Reachable h
    → h.grants ≡ before ++ g ∷ after
    → (pool : MemPool) × (mm_kfree_pages g.page g.count h.pool ≡ done pool)
      × ((q : ℕ)
          → q < pool.bm.bit_count
          → in_use pool q ≡ covers (before ++ after) (page_at pool q))
Reachable-releases h before after g reach held =
    let is' : IsHeap (record h { grants = before ++ g ∷ after }) =
      subst (λ gs. IsHeap (record h { grants = gs })) held (Reachable-IsHeap h reach) in
    let w = (All-middle (Within h.pool) before after g is'.within).0 in
    let r = releases h.pool g is'.valid w in
    (r.pool', r.returns, (release-IsHeap h before after g is' w r).used_iff_granted)
