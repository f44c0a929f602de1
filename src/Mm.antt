-- ===== src/Mm.antt =====
-- kernel/mm.c and mm.h: the allocator of page frames. What is printed is left out.
pub mod Pool
pub mod Get
pub mod Free
pub mod Init
pub mod Grants
pub mod History
mod Tests
use qemu_usage_test.Base.{
  ℕ, ◌+◌, ◌*◌, ◌≤◌, Bool, true, false, ◌||◌, List, Option, none, some, Outcome, done, hang, ◌>>=◌,
  ltb, leb, ◌==◌, if◌then◌else◌, truth, bit_and, add32, sub32, mul32,
}
use qemu_usage_test.Round.{div_round_up, round_down}
use qemu_usage_test.Vaddr.{page_size, ptov, pg_no}
use qemu_usage_test.Memory.{Memory, null}
use qemu_usage_test.Str.{memset}
use qemu_usage_test.Spin.{spin_lock, spin_unlock, spin_lock_init}
use qemu_usage_test.Bitmap.{
  Bitmap, bitmap_err, sizeof_bitmap, required_buf_size, create_in_buf, config_all,
  find_first_bits_group, set_multi_bits, reset_multi_bits, get_bits_count,
}

-- KERNEL_MEM_POOL_PHY_START
abbrev pub kernel_mem_pool_phy_start : ℕ
kernel_mem_pool_phy_start = 0x100000

abbrev pub pf_atomic : ℕ
pf_atomic = 1

abbrev pub pf_zero : ℕ
pf_zero = 2

pub record MemPool : Type 0 where
  pub slock : ℕ
  pub bm : Bitmap
  pub base : ℕ

unfoldable pub bitmap_pages : ℕ → ℕ
unfolding required_buf_size
bitmap_pages page_cnt = div_round_up (add32 (required_buf_size page_cnt) sizeof_bitmap) page_size

-- `words` is what lies behind the first word of the buffer at `start_addr`; `none` is false.
unfoldable pub mem_pool_init : List ℕ → ℕ → ℕ → Outcome (Option MemPool)
mem_pool_init words start_addr page_cnt =
    let bm_pages = bitmap_pages page_cnt in
    let page_cnt = sub32 page_cnt bm_pages in
    let slock = spin_lock_init 0 in
    elim (create_in_buf page_cnt words (mul32 bm_pages page_size)) [
      | none ↦ done none
      | some bm ↦ (do
        bm ← config_all bm false
        done (
            some (record {
              slock = slock;
              bm = bm;
              base = add32 start_addr (mul32 bm_pages page_size);
            })))
    ]

-- Without a pool the kernel stays in an endless loop.
unfoldable pub mm_init : List ℕ → ℕ → Outcome MemPool
mm_init words page_num = do
  pool ←
      mem_pool_init words (ptov kernel_mem_pool_phy_start)
        (sub32 page_num (pg_no kernel_mem_pool_phy_start))
  elim pool [ none ↦ hang | some pool ↦ done pool ]

-- What an allocation leaves: its result, the pool and the memory.
abbrev pub Got : Type 0
Got = ℕ × MemPool × Memory

-- The part of `mm_kget_pages` behind the search, with the lock held.
take_pages : ℕ → ℕ → ℕ → MemPool → Memory → Outcome Got
take_pages pf_flag page_count page_idx pool mem =
    if page_idx == bitmap_err
    then done (null, record pool { slock = spin_unlock pool.slock }, mem)
    else (do
      bm ← set_multi_bits pool.bm page_idx page_count
      let pool = record pool { bm = bm; slock = spin_unlock pool.slock }
      let pages = add32 pool.base (mul32 page_idx page_size)
      let mem =
          if truth (bit_and pf_flag pf_zero)
          then (memset pages 0 (mul32 page_count page_size) mem).1
          else mem
      done (pages, pool, mem))

unfoldable pub mm_kget_pages : ℕ → ℕ → MemPool → Memory → Outcome Got
unfolding take_pages
mm_kget_pages pf_flag page_count pool mem = if page_count == 0 then done (null, pool, mem) else do
  slock ← spin_lock pool.slock
  page_idx ← find_first_bits_group pool.bm 0 page_count false
  take_pages pf_flag page_count page_idx (record pool { slock = slock }) mem

unfoldable pub mm_kget_page : ℕ → MemPool → Memory → Outcome Got
unfolding mm_kget_pages
mm_kget_page pf_flag pool mem = mm_kget_pages pf_flag 1 pool mem

unfoldable pub mm_kfree_pages : ℕ → ℕ → MemPool → Outcome MemPool
mm_kfree_pages pages page_count pool =
    let kernel_pool_end = add32 pool.base (mul32 (get_bits_count pool.bm) page_size) in
    let pages = round_down pages page_size in
    let page_no_start = sub32 (pg_no pages) (pg_no pool.base) in
    if ltb pages pool.base || leb kernel_pool_end pages
    then done pool
    else (if ltb (get_bits_count pool.bm) (add32 page_no_start page_count) then done pool else (do
      slock ← spin_lock pool.slock
      bm ← reset_multi_bits pool.bm page_no_start page_count
      done (record pool { bm = bm; slock = spin_unlock slock })))

pub mm_kfree_page : ℕ → MemPool → Outcome MemPool
unfolding mm_kfree_pages
mm_kfree_page pages pool = mm_kfree_pages pages 1 pool
