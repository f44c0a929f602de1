-- ===== src/Mm/History.antt =====
-- Any sequence of allocations and releases of pages, from `mm_init` on.
pub mod Kept
pub mod Laws
use mathlib.Core.Path.{subst, subst₂}
use native.Mathlib.Decide.{dec_le}
use qemu_usage_test.Base.{
  ℕ, ◌+◌, ◌-◌, ◌*◌, ◌^◌, ◌≤◌, ◌<◌, ◌≡◌, ◌≢◌, refl, sym, ap, ◌∙◌, ◌⊎◌, inl, inr, true, false, ◌||◌,
  List, [], ◌∷◌, ◌++◌, done, done-injective, length, All, All-append, All-imp, All-middle, arith,
  Outcome,
}
use qemu_usage_test.Memory.{Memory, null}
use qemu_usage_test.Mm.{MemPool, Got, bitmap_pages, mm_init, mm_kget_pages, mm_kfree_pages}
use qemu_usage_test.Mm.Pool.{IsPool, in_use, page_at}
use qemu_usage_test.Mm.Init.{mm_init_lem}
use qemu_usage_test.Mm.Get.{Allocated, Refused, mm_kget_pages_lem, granted}
use qemu_usage_test.Mm.Free.{Released, mm_kfree_pages-Released}
use qemu_usage_test.Mm.Grants.{
  Grant, in_grant, covers, Apart, AllApart, end_of, covers-middle, covers-Apart, AllApart-middle,
}

-- The pool, the memory, and the ranges that have been handed out and not been given back.
pub record Heap : Type 0 where
  pub pool : MemPool
  pub mem : Memory
  pub grants : List Grant

pub data Step : Heap → Heap → Type 0 where
  allocate :
      (h : Heap) (flags n p : ℕ) (pool : MemPool) (mem : Memory)
      → 0 < n
      → n < 2 ^ 32
      → mm_kget_pages flags n h.pool h.mem ≡ done (p, pool, mem)
      → p ≢ null
      → Step h
          (record { pool = pool; mem = mem; grants = record { page = p; count = n } ∷ h.grants })
  refuse :
      (h : Heap) (flags n : ℕ) (pool : MemPool) (mem : Memory)
      → 0 < n
      → n < 2 ^ 32
      → mm_kget_pages flags n h.pool h.mem ≡ done (null, pool, mem)
      → Step h (record { pool = pool; mem = mem; grants = h.grants })
  -- Who holds a range gives it back.
  release :
      (h : Heap) (before after : List Grant) (g : Grant) (pool : MemPool)
      → h.grants ≡ before ++ g ∷ after
      → mm_kfree_pages g.page g.count h.pool ≡ done pool
      → Step h (record { pool = pool; mem = h.mem; grants = before ++ after })
  write : (h : Heap) (mem : Memory) → Step h (record h { mem = mem })

pub data Reachable : Heap → Type 0 where
  start :
      (words : List ℕ) (page_num : ℕ) (pool : MemPool) (mem : Memory)
      → 256 < page_num
      → page_num < 0x40000
      → All (λ w. w < 2 ^ 32) words
      → length words + 1 ≡ 1024 * bitmap_pages (page_num - 256)
      → mm_init words page_num ≡ done pool
      → Reachable (record { pool = pool; mem = mem; grants = [] })
  next : (h h' : Heap) → Reachable h → Step h h' → Reachable h'
