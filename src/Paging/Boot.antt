-- ===== src/Paging/Boot.antt =====
-- The page frame allocator and the page directory together, as the kernel starts them.
use qemu_usage_test.Base.{
  ℕ, ◌+◌, ◌-◌, ◌*◌, ◌^◌, ◌≤◌, ◌<◌, ◌≡◌, refl, List, All, done, length, sub32, arith,
}
use qemu_usage_test.Memory.{Memory}
use qemu_usage_test.Vaddr.{ptov, pg_no}
use qemu_usage_test.Mm.{MemPool, bitmap_pages, mm_init}
use qemu_usage_test.Mm.Init.{mem_pool_init-Fresh, bitmap_pages_lem}
use qemu_usage_test.Paging.{init_memory}
use qemu_usage_test.Paging.Maps.{KernelMap, Vacant, kernel_pg_dir_init-KernelMap}

-- For 259 to 262143 pages of memory, with words for as many bitmap pages as are computed, `mm_init`
-- returns a pool of the pages behind the bitmap, and on it the start of `main` builds a page
-- directory with which the processor translates each address from 3 GB on to the same place of the
-- physical memory, writable unless it is the address of a page that starts in the text section of
-- the kernel, and neither an address below nor one behind the memory; of the pool, which stays well
-- formed with the same pages, exactly the first pages are in use, one for the directory and one for
-- each 1024 pages begun, and it has that many.
pub init_memory-KernelMap :
    (words : List ℕ) (start end_text page_num : ℕ) (mem : Memory)
    → 259 ≤ page_num
    → page_num < 0x40000
    → All (λ w. w < 2 ^ 32) words
    → length words + 1 ≡ 1024 * bitmap_pages (page_num - 256)
    → (pool : MemPool) × (mm_init words page_num ≡ done pool)
      × (pool.base ≡ 0xc0100000 + 4096 * bitmap_pages (page_num - 256))
      × (pool.bm.bit_count ≡ page_num - 256 - bitmap_pages (page_num - 256))
      × KernelMap start end_text page_num pool (init_memory words start end_text page_num mem)
unfolding init_memory mm_init ptov pg_no
init_memory-KernelMap words start end_text page_num mem low high ok room =
    let (pool, e, fresh) =
      mem_pool_init-Fresh words 0xc0100000 (page_num - 256) (omega arith) (omega arith) refl
        (omega arith) ok room in
    let pages : sub32 page_num 256 ≡ page_num - 256 = omega arith in
    let few =
      bitmap_pages_lem words 0xc0100000 (page_num - 256) (omega arith) (omega arith) refl
        (omega arith) in
    let vacant : Vacant pool = record {
      valid = fresh.valid;
      all_free = fresh.all_free;
      high = omega (arith, fresh.first_page);
    } in
    (
      pool,
      rw (pages, e) refl,
      fresh.first_page,
      omega (arith, fresh.first_page, fresh.last_page),
      rw (pages, e)
          (kernel_pg_dir_init-KernelMap start end_text page_num pool mem vacant (omega arith)
            (omega (arith, fresh.first_page, fresh.last_page, few))),
    )
