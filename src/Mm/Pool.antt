-- ===== src/Mm/Pool.antt =====
-- The invariant of a pool of page frames between two calls, and what its pages are.
use qemu_usage_test.Base.{ℕ, ◌+◌, ◌*◌, ◌%◌, ◌^◌, ◌<◌, ◌≡◌, Bool}
use qemu_usage_test.Bitmap.View.{IsBitmap, holds}
use qemu_usage_test.Mm.{MemPool}

pub record IsPool (pool : MemPool) : Type 0 where
  pub unlocked : pool.slock ≡ 1
  pub bitmap : IsBitmap pool.bm
  pub aligned : pool.base % 4096 ≡ 0
  pub placed : 0 < pool.base
  pub fits : pool.base + 4096 * pool.bm.bit_count < 2 ^ 32

-- Page `i` of the pool is in use.
abbrev pub in_use : MemPool → ℕ → Bool
in_use pool i = holds pool.bm i

-- The address of page `i`.
abbrev pub page_at : MemPool → ℕ → ℕ
page_at pool i = pool.base + 4096 * i
