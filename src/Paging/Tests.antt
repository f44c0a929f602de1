-- ===== src/Paging/Tests.antt =====
-- The page directory over a small pool.
use qemu_usage_test.Base.{
  ℕ, zero, suc, ◌+◌, ◌-◌, ◌*◌, done, ◌^◌, ◌<◌, ◌≡◌, refl, false, [], ◌∷◌, All, replicate, arith,
}
use qemu_usage_test.Memory.{Memory}
use qemu_usage_test.Base.Binary.{bit}
use qemu_usage_test.Bitmap.View.{holds}
use qemu_usage_test.Mm.{MemPool, bitmap_pages, mm_init}
use qemu_usage_test.Mm.Pool.{in_use}
use qemu_usage_test.Paging.{kernel_pg_dir_init, init_memory}
use qemu_usage_test.Paging.Boot.{init_memory-KernelMap}
use qemu_usage_test.Paging.Maps.{KernelMap, Vacant, kernel_pg_dir_init-KernelMap}

abbrev pool : MemPool
pool = record { slock = 1; bm = record { bit_count = 4; bits = 0 ∷ [] }; base = 0xc0101000 }

abbrev blank : Memory
blank a = 7

pool_free : (q : ℕ) → q < 4 → in_use pool q ≡ false
unfolding holds bit
pool_free zero h = refl
pool_free (suc zero) h = refl
pool_free (suc (suc zero)) h = refl
pool_free (suc (suc (suc zero))) h = refl
pool_free (suc (suc (suc (suc q)))) h = absurd (omega arith)

pool-Vacant : Vacant pool
pool-Vacant = record {
  valid = record {
    unlocked = refl;
    bitmap = record { small = omega arith; room = omega arith; words = omega arith };
    aligned = refl;
    placed = omega arith;
    fits = omega arith;
  };
  all_free = pool_free;
  high = omega arith;
}

-- 2000 pages of memory and a kernel of 32 pages.
directory_run :
    KernelMap 0xc0020000 0xc0040000 2000 pool
      (kernel_pg_dir_init 0xc0020000 0xc0040000 2000 pool blank)
directory_run =
    kernel_pg_dir_init-KernelMap 0xc0020000 0xc0040000 2000 pool blank pool-Vacant (omega arith)
      (omega arith)

zeros-small : (n : ℕ) → All (λ w. w < 2 ^ 32) (replicate n 0)
zeros-small zero = tt
zeros-small (suc n) = (omega arith, zeros-small n)

-- 4 MB of memory.
init_memory-KernelMap_example :
    (pool : MemPool) × (mm_init (replicate 1023 0) 1024 ≡ done pool)
    × (pool.base ≡ 0xc0100000 + 4096 * bitmap_pages 768)
    × (pool.bm.bit_count ≡ 768 - bitmap_pages 768)
    × KernelMap 0xc0020000 0xc0040000 1024 pool
        (init_memory (replicate 1023 0) 0xc0020000 0xc0040000 1024 blank)
init_memory-KernelMap_example =
    init_memory-KernelMap (replicate 1023 0) 0xc0020000 0xc0040000 1024 blank (omega arith)
      (omega arith) (zeros-small 1023) (unfold bitmap_pages in refl)
