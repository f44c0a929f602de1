-- ===== src/Mm/Tests.antt =====
-- The theorems at a small pool: four pages from 0xc0101000 on, the first of them in use.
use qemu_usage_test.Base.{
  ℕ, ◌<◌, ◌≡◌, refl, ◌⊎◌, List, [], ◌∷◌, done, All, replicate, arith, zero, suc, ◌^◌,
}
use qemu_usage_test.Memory.{Memory}
use qemu_usage_test.Vaddr.{ptov, pg_no}
use qemu_usage_test.Spin.{spin_lock, spin_unlock, spin_lock_init}
use qemu_usage_test.Bitmap.{find_first_bits_group, set_multi_bits, create_in_buf, config_all}
use qemu_usage_test.Mm.{
  MemPool, bitmap_pages, mem_pool_init, mm_init, mm_kget_pages, mm_kfree_pages,
}
use qemu_usage_test.Mm.Pool.{IsPool, in_use, page_at}
use qemu_usage_test.Mm.Get.{Allocated, Refused, mm_kget_pages_lem}
use qemu_usage_test.Mm.Free.{mm_kfree_pages-mm_kget_pages}
use qemu_usage_test.Mm.Grants.{Grant, covers}
use qemu_usage_test.Mm.History.{Heap, Reachable, start, next, allocate}
use qemu_usage_test.Mm.History.Kept.{IsHeap}
use qemu_usage_test.Mm.History.Laws.{Reachable-IsHeap, Reachable-releases}

abbrev pool : MemPool
pool = record { slock = 1; bm = record { bit_count = 4; bits = 1 ∷ [] }; base = 0xc0101000 }

abbrev blank : Memory
blank a = 7

pool-IsPool : IsPool pool
pool-IsPool = record {
  unlocked = refl;
  bitmap = record { small = omega arith; room = omega arith; words = omega arith };
  aligned = refl;
  placed = omega arith;
  fits = omega arith;
}

mm_kget_pages_lem_example :
    Allocated 1 2 pool blank (mm_kget_pages 1 2 pool blank)
    ⊎ Refused 2 pool blank (mm_kget_pages 1 2 pool blank)
mm_kget_pages_lem_example = mm_kget_pages_lem pool-IsPool 1 2 blank (omega arith) (omega arith)

abbrev pool_after : ℕ → MemPool
pool_after bits = record {
  slock = 1;
  bm = record { bit_count = 4; bits = bits ∷ [] };
  base = 0xc0101000;
}

two_pages : mm_kget_pages 1 2 pool blank ≡ done (0xc0102000, pool_after 7, blank)
unfolding mm_kget_pages spin_lock spin_unlock find_first_bits_group set_multi_bits
two_pages = refl

one_more : mm_kget_pages 0 1 (pool_after 7) blank ≡ done (0xc0104000, pool_after 15, blank)
unfolding mm_kget_pages spin_lock spin_unlock find_first_bits_group set_multi_bits
one_more = refl

mm_kfree_pages-mm_kget_pages_example :
    (pool'' : MemPool) × (mm_kfree_pages 0xc0102000 2 (pool_after 7) ≡ done pool'')
    × ((q : ℕ) → in_use pool'' q ≡ in_use pool q)
    × IsPool pool''
mm_kfree_pages-mm_kget_pages_example =
    mm_kfree_pages-mm_kget_pages 1 2 blank pool-IsPool (omega arith) (omega arith) two_pages
      (omega arith)

zeros-small : (n : ℕ) → All (λ w. w < 2 ^ 32) (replicate n 0)
zeros-small zero = tt
zeros-small (suc n) = (omega arith, zeros-small n)

abbrev booted : ℕ → MemPool
booted bits = record {
  slock = 1;
  bm = record { bit_count = 43; bits = bits ∷ replicate 1022 0 };
  base = 0xc0101000;
}

booted-mm_init : mm_init (replicate 1023 0) 300 ≡ done (booted 0)
unfolding mm_init mem_pool_init bitmap_pages create_in_buf config_all spin_lock_init pg_no ptov
booted-mm_init = refl

abbrev grant : ℕ → ℕ → Grant
grant page count = record { page = page; count = count }

abbrev heap : ℕ → List Grant → Heap
heap bits grants = record { pool = booted bits; mem = blank; grants = grants }

pair_taken : mm_kget_pages 1 2 (booted 0) blank ≡ done (0xc0101000, booted 3, blank)
unfolding mm_kget_pages spin_lock spin_unlock find_first_bits_group set_multi_bits
pair_taken = refl

third_taken : mm_kget_pages 0 1 (booted 3) blank ≡ done (0xc0103000, booted 7, blank)
unfolding mm_kget_pages spin_lock spin_unlock find_first_bits_group set_multi_bits
third_taken = refl

-- Two pages and one page are handed out behind `mm_init`.
handed_out : Reachable (heap 7 (grant 0xc0103000 1 ∷ grant 0xc0101000 2 ∷ []))
handed_out =
    let h0 = heap 0 [] in
    let h1 = heap 3 (grant 0xc0101000 2 ∷ []) in
    next h1 _
      (next h0 h1
        (start (replicate 1023 0) 300 (booted 0) blank (omega arith) (omega arith)
          (zeros-small 1023) (unfold bitmap_pages in refl) booted-mm_init)
        (allocate h0 1 2 0xc0101000 (booted 3) blank (omega arith) (omega arith) pair_taken
          (omega arith)))
      (allocate h1 0 1 0xc0103000 (booted 7) blank (omega arith) (omega arith) third_taken
        (omega arith))

Reachable-IsHeap_example : IsHeap (heap 7 (grant 0xc0103000 1 ∷ grant 0xc0101000 2 ∷ []))
Reachable-IsHeap_example =
    Reachable-IsHeap (heap 7 (grant 0xc0103000 1 ∷ grant 0xc0101000 2 ∷ [])) handed_out

Reachable-releases_example :
    (pool : MemPool) × (mm_kfree_pages 0xc0101000 2 (booted 7) ≡ done pool)
    × ((q : ℕ)
        → q < pool.bm.bit_count
        → in_use pool q ≡ covers (grant 0xc0103000 1 ∷ []) (page_at pool q))
Reachable-releases_example =
    Reachable-releases (heap 7 (grant 0xc0103000 1 ∷ grant 0xc0101000 2 ∷ []))
      (grant 0xc0103000 1 ∷ []) [] (grant 0xc0101000 2) handed_out refl
