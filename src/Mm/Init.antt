-- ===== src/Mm/Init.antt =====
-- `mem_pool_init` and `mm_init`
use qemu_usage_test.Base.{
  ℕ, ◌+◌, ◌-◌, ◌*◌, ◌/◌, ◌%◌, ◌^◌, ◌≤◌, ◌<◌, ◌≡◌, refl, inl, inr, false, List, some, done, All,
  length, add32, sub32, mul32, arith,
}
use qemu_usage_test.Vaddr.{ptov, pg_no}
use qemu_usage_test.Spin.{spin_lock_init}
use qemu_usage_test.Bitmap.{Bitmap, create_in_buf, required_buf_size}
use qemu_usage_test.Bitmap.View.{IsBitmap}
use qemu_usage_test.Bitmap.Ranges.{config_all-put}
use qemu_usage_test.Bitmap.Create.{create_in_buf-IsBitmap}
use qemu_usage_test.Mm.{MemPool, bitmap_pages, mem_pool_init, mm_init}
use qemu_usage_test.Mm.Pool.{IsPool, in_use, page_at}

-- A pool fresh from its creation: the pages from `start` hold the bitmap, and the others up to
-- `page_cnt` are the pages of the pool, all of them free.
pub record Fresh (start page_cnt : ℕ) (pool : MemPool) : Type 0 where
  pub valid : IsPool pool
  pub all_free : (i : ℕ) → i < pool.bm.bit_count → in_use pool i ≡ false
  pub first_page : pool.base ≡ start + 4096 * bitmap_pages page_cnt
  pub last_page : page_at pool pool.bm.bit_count ≡ start + 4096 * page_cnt

module _ (words : List ℕ) (start page_cnt : ℕ) (enough : 0 < page_cnt) (placed : 0 < start)
    (aligned : start % 4096 ≡ 0) (fits : start + 4096 * page_cnt < 2 ^ 32) where
  pub bitmap_pages_lem : bitmap_pages page_cnt ≡ ((page_cnt + 7) / 8 + 4 + 4095) / 4096
  unfolding bitmap_pages required_buf_size
  bitmap_pages_lem = omega arith

  bitmap_pages-le : bitmap_pages page_cnt ≤ page_cnt
  bitmap_pages-le = omega (arith, bitmap_pages_lem)

  module _ (ok : All (λ w. w < 2 ^ 32) words)
      (room : length words + 1 ≡ 1024 * bitmap_pages page_cnt) where
    made : Bitmap → MemPool
    made bm = record { slock = 1; bm = bm; base = start + 4096 * bitmap_pages page_cnt }

    -- With a bitmap in the buffer, the pool is what `mem_pool_init` returns.
    fill_in :
        (bm : Bitmap)
        → create_in_buf (page_cnt - bitmap_pages page_cnt) words (4 * (length words + 1)) ≡ some bm
        → IsBitmap bm
        → bm.bit_count ≡ page_cnt - bitmap_pages page_cnt
        → (pool : MemPool) × (mem_pool_init words start page_cnt ≡ done (some pool))
          × Fresh start page_cnt pool
    unfolding mem_pool_init made spin_lock_init
    fill_in bm e valid same =
        let count : sub32 page_cnt (bitmap_pages page_cnt) ≡ page_cnt - bitmap_pages page_cnt =
          omega (arith, bitmap_pages-le) in
        let bytes : mul32 (bitmap_pages page_cnt) 4096 ≡ 4 * (length words + 1) =
          omega (arith, room, bitmap_pages-le) in
        let base : add32 start (4 * (length words + 1)) ≡ start + 4096 * bitmap_pages page_cnt =
          omega (arith, room, bitmap_pages-le) in
        let b = config_all-put false valid in
        (
          made b.result,
          rw (count, bytes, e, mem_pool_init) (rw (b.returns, bytes, base)),
          record {
            valid = record {
              unlocked = refl;
              bitmap = b.valid;
              aligned = omega (arith, aligned);
              placed = omega arith;
              fits = omega (arith, b.same_count, same, bitmap_pages-le);
            };
            all_free = λ i h. ground (arith, b.view i, b.same_count);
            first_page = refl;
            last_page = omega (arith, b.same_count, same, bitmap_pages-le);
          },
        )

    -- `mem_pool_init` succeeds on aligned memory, puts the bitmap into as few pages as hold it,
    -- and the pages behind those are the pool, all of them free.
    pub mem_pool_init-Fresh :
        (pool : MemPool) × (mem_pool_init words start page_cnt ≡ done (some pool))
        × Fresh start page_cnt pool
    mem_pool_init-Fresh =
        elim (create_in_buf-IsBitmap (page_cnt - bitmap_pages page_cnt) words
          (omega (arith, room, bitmap_pages-le)) (omega arith) ok) [
            | inl (bm, e, valid, same, _) ↦ fill_in bm e valid same
            | inr (_, over) ↦ absurd (omega (arith, over, room, bitmap_pages_lem))
          ]

-- For more than 256 and fewer than 0x40000 pages of memory, with words for as many bitmap pages as
-- are computed, `mm_init` returns a well-formed pool whose pages are all free and end where the
-- memory ends.
pub mm_init_lem :
    (words : List ℕ) (page_num : ℕ)
    → 256 < page_num
    → page_num < 0x40000
    → All (λ w. w < 2 ^ 32) words
    → length words + 1 ≡ 1024 * bitmap_pages (page_num - 256)
    → (pool : MemPool) × (mm_init words page_num ≡ done pool)
      × IsPool pool
      × ((i : ℕ) → i < pool.bm.bit_count → in_use pool i ≡ false)
      × (page_at pool pool.bm.bit_count ≡ ptov (4096 * page_num))
unfolding mm_init ptov pg_no
mm_init_lem words page_num low high ok room =
    let (pool, e, fresh) =
      mem_pool_init-Fresh words 0xc0100000 (page_num - 256) (omega arith) (omega arith) refl
        (omega arith) ok room in
    let pages : sub32 page_num 256 ≡ page_num - 256 = omega arith in
    (pool, rw (pages, e), fresh.valid, fresh.all_free, omega (arith, fresh.last_page))
