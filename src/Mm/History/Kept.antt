-- ===== src/Mm/History/Kept.antt =====
-- What every state of the pool and the ranges handed out has, and that allocations and releases
-- keep it.

use native.Mathlib.Decide.{dec_le}
use qemu_usage_test.Base.{
  ℕ, ◌+◌, ◌≤◌, ◌<◌, ◌≡◌, refl, sym, ◌∙◌, inl, inr, false, ◌||◌, List, [], ◌∷◌, ◌++◌, All, All-imp,
  All-middle, arith,
}
use qemu_usage_test.Memory.{Memory}
use qemu_usage_test.Mm.{MemPool, mm_kget_pages, mm_kfree_pages}
use qemu_usage_test.Mm.Pool.{IsPool, in_use, page_at}
use qemu_usage_test.Mm.Get.{Allocated}
use qemu_usage_test.Mm.Free.{Released}
use qemu_usage_test.Mm.Grants.{
  Grant, in_grant, covers, Apart, AllApart, end_of, covers-middle, covers-Apart, AllApart-middle,
}
use qemu_usage_test.Mm.History.{Heap}

-- A range of pages of the pool.
pub record Within (pool : MemPool) (g : Grant) : Type 0 where
  pub index : ℕ
  pub at : g.page ≡ page_at pool index
  pub some_pages : 0 < g.count
  pub inside : index + g.count ≤ pool.bm.bit_count

pub record IsHeap (h : Heap) : Type 0 where
  pub valid : IsPool h.pool
  pub within : All (Within h.pool) h.grants
  pub apart : AllApart h.grants
  pub used_iff_granted :
      (q : ℕ) → q < h.pool.bm.bit_count → in_use h.pool q ≡ covers h.grants (page_at h.pool q)

Within-same :
    (pool pool' : MemPool)
    → pool'.base ≡ pool.base
    → pool'.bm.bit_count ≡ pool.bm.bit_count
    → (g : Grant) → Within pool g
    → Within pool' g
Within-same pool pool' base count g w = record {
  index = w.index;
  at = omega (arith, w.at);
  some_pages = w.some_pages;
  inside = omega (arith, w.inside);
}

-- A range whose pages are in none of the others.
free-Apart :
    (pool : MemPool) (g : Grant) (w : Within pool g) (gs : List Grant)
    → All (Within pool) gs
    → ((q : ℕ) → w.index ≤ q → q < w.index + g.count → covers gs (page_at pool q) ≡ false)
    → All (Apart g) gs
free-Apart pool g w [] ws out = tt
free-Apart pool g w (x ∷ gs) ws out = (
  elim (dec_le (end_of g) x.page) [
    | yes below ↦ inl below
    | no not_below ↦ elim (dec_le (end_of x) g.page) [
      | yes above ↦ inr above
      | no not_above ↦ absurd (elim (dec_le w.index ws.0.index) [
        | yes first ↦ ground (arith, out ws.0.index, w.at, ws.0.at, ws.0.some_pages)
        | no last ↦ ground (arith, out w.index, w.at, ws.0.at, w.some_pages)
      ])
    ]
  ],
  free-Apart pool g w gs ws.1 (λ q lo hi. ground (arith, out q)),
)

pub allocate-IsHeap :
    (h : Heap) (flags n : ℕ) (mem : Memory)
    → 0 < n
    → IsHeap h
    → (a : Allocated flags n h.pool h.mem (mm_kget_pages flags n h.pool h.mem))
    → IsHeap (record {
      pool = a.pool';
      mem = mem;
      grants = record { page = page_at h.pool a.index; count = n } ∷ h.grants;
    })
allocate-IsHeap h flags n mem n_pos is a =
    let g : Grant = record { page = page_at h.pool a.index; count = n } in
    let w : Within h.pool g = record {
      index = a.index;
      at = refl;
      some_pages = n_pos;
      inside = a.inside;
    } in
    let same = Within-same h.pool a.pool' a.same_base a.same_count in
    record {
      valid = a.valid;
      within = (same g w, All-imp (Within h.pool) (Within a.pool') same h.grants is.within);
      apart = (
        free-Apart h.pool g w h.grants is.within
            (λ q lo hi. sym (is.used_iff_granted q (omega (arith, a.inside))) ∙ a.was_free q lo hi),
        is.apart,
      );
      used_iff_granted = λ q hq.
          let at : page_at a.pool' q ≡ page_at h.pool q = omega (arith, a.same_base) in
          let here : q < h.pool.bm.bit_count = omega (arith, a.same_count) in
          rw at (ground (arith, a.marked q, is.used_iff_granted q here));
    }

pub release-IsHeap :
    (h : Heap) (before after : List Grant) (g : Grant)
    → IsHeap (record h { grants = before ++ g ∷ after })
    → (w : Within h.pool g)
    → (r : Released w.index g.count h.pool (mm_kfree_pages g.page g.count h.pool))
    → IsHeap (record { pool = r.pool'; mem = h.mem; grants = before ++ after })
release-IsHeap h before after g is w r =
    let others = AllApart-middle before after g is.apart in
    record {
      valid = r.valid;
      within =
          All-imp (Within h.pool) (Within r.pool')
            (Within-same h.pool r.pool' r.same_base r.same_count) (before ++ after)
            (All-middle (Within h.pool) before after g is.within).1;
      apart = others.1;
      used_iff_granted = λ q hq.
          let at : page_at r.pool' q ≡ page_at h.pool q = omega (arith, r.same_base) in
          let here : q < h.pool.bm.bit_count = omega (arith, r.same_count) in
          let was : in_use h.pool q
              ≡ (in_grant g (page_at h.pool q) || covers (before ++ after) (page_at h.pool q)) =
            is.used_iff_granted q here ∙ covers-middle before after g (page_at h.pool q) in
          rw at (
            ground (
              arith,
              r.cleared q,
              was,
              w.at,
              w.inside,
              covers-Apart (before ++ after) g (page_at h.pool q) others.0,
            ));
    }
