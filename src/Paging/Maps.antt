-- ===== src/Paging/Maps.antt =====
-- What the page directory of the kernel maps.
use mathlib.Core.Path.{subst}
use qemu_usage_test.Base.{
  ℕ, ◌+◌, ◌*◌, ◌^◌, ◌≤◌, ◌<◌, ◌≡◌, ◌≢◌, refl, ◌∙◌, false, ltb, leb, ◌&&◌, if◌then◌else◌, none, some,
  Outcome, done, ne→==, arith,
}
use qemu_usage_test.Memory.{Memory}
use qemu_usage_test.Vaddr.{ptov, vtop}
use qemu_usage_test.Mm.{MemPool, mm_kget_page}
use qemu_usage_test.Mm.Pool.{IsPool, in_use}
use qemu_usage_test.Paging.{Tables, entry_at, map_pages, kernel_pg_dir_init}
use qemu_usage_test.Paging.Words.{load32-zeroed}
use qemu_usage_test.Paging.Entry.{translate}
use qemu_usage_test.Paging.Frames.{Used, next_page}
use qemu_usage_test.Paging.Walk.{is_writable, maps_page, maps_nothing_below, maps_nothing_above}
use qemu_usage_test.Paging.Step.{Placed, Mapped}
use qemu_usage_test.Paging.Loop.{tables, flags_of, Going, rounds}

-- The directory maps `n` pages of memory from 3 GB on, and nothing else.
pub record KernelMap (start end_text n : ℕ) (pool : MemPool) (r : Outcome (ℕ × MemPool × Memory))
    : Type 0 where
  pub pd : ℕ
  pub pool' : MemPool
  pub mem' : Memory
  pub returns : r ≡ done (vtop pd, pool', mem')
  pub valid : IsPool pool'
  pub same_base : pool'.base ≡ pool.base
  pub same_count : pool'.bm.bit_count ≡ pool.bm.bit_count
  pub room : 1 + tables n ≤ pool.bm.bit_count
  pub taken : (q : ℕ) → q < pool.bm.bit_count → in_use pool' q ≡ ltb q (1 + tables n)
  pub maps :
      (k off : ℕ)
      → k < n
      → off < 4096
      → translate pd (ptov (k * 2 ^ 12) + off) mem'
        ≡ some (k * 2 ^ 12 + off, is_writable start end_text (ptov (k * 2 ^ 12)))
  pub nothing_below : (vaddr : ℕ) → vaddr < 0xc0000000 → translate pd vaddr mem' ≡ none
  pub nothing_above :
      (k off : ℕ)
      → n ≤ k
      → k < 2 ^ 18
      → off < 4096
      → translate pd (ptov (k * 2 ^ 12) + off) mem' ≡ none

-- A pool none of whose pages is in use.
pub record Vacant (pool : MemPool) : Type 0 where
  pub valid : IsPool pool
  pub all_free : (q : ℕ) → q < pool.bm.bit_count → in_use pool q ≡ false
  pub high : 0xc0000000 ≤ pool.base

Vacant-Placed : (pool : MemPool) → Vacant pool → Placed pool.base pool.bm.bit_count
Vacant-Placed pool fresh = record {
  aligned = fresh.valid.aligned;
  high = fresh.high;
  fits = fresh.valid.fits;
}

Vacant-Used : (pool : MemPool) → Vacant pool → Used pool.base pool.bm.bit_count 0 pool
Vacant-Used pool fresh = record {
  valid = fresh.valid;
  same_base = refl;
  same_count = refl;
  marks = λ q h. fresh.all_free q h ∙ ground arith;
}

-- The loop starts with an empty directory in page 0.
empty-Going :
    (start end_text : ℕ) (pool pool' : MemPool) (mem mem' : Memory) (fresh : Vacant pool)
    → Used pool.base pool.bm.bit_count 1 pool'
    → ((a : ℕ)
        → mem' a ≡ (
            if leb (pool.base + 4096 * 0) a && ltb a (pool.base + 4096 * 0 + 4096)
            then 0
            else mem a))
    → Going start end_text
        (Vacant-Placed pool fresh)
        0
        (record { pt = 0; pool = pool'; mem = mem' })
empty-Going start end_text pool pool' mem mem' fresh used zeroed = record {
  mapped = record {
    used = used;
    directory = λ j h.
        load32-zeroed (pool.base + 4096 * 0) (entry_at pool.base j) mem mem' zeroed (omega arith)
          (omega arith)
        ∙ ground (arith, h);
    entries = λ k h. absurd (omega (arith, h));
  };
  current = λ h. absurd (h refl);
}

kernel_pg_dir_init-eq :
    (start end_text n : ℕ) (pool : MemPool) (mem : Memory) (pool' : MemPool) (mem' : Memory)
    (t : Tables)
    → mm_kget_page 3 pool mem ≡ done (pool.base, pool', mem')
    → pool.base ≢ 0
    → map_pages start end_text pool.base 0 n (record { pt = 0; pool = pool'; mem = mem' }) ≡ done t
    → kernel_pg_dir_init start end_text n pool mem ≡ done (vtop pool.base, t.pool, t.mem)
unfolding kernel_pg_dir_init
kernel_pg_dir_init-eq start end_text n pool mem pool' mem' t first some_page all =
    rw (first, ne→== pool.base 0 some_page, all) refl

-- From a pool of which nothing is in use and that has a page for the directory and one for each 1024
-- pages begun, for at most 2^18 pages.
pub kernel_pg_dir_init-KernelMap :
    (start end_text n : ℕ) (pool : MemPool) (mem : Memory)
    → Vacant pool
    → n ≤ 2 ^ 18
    → tables n < pool.bm.bit_count
    → KernelMap start end_text n pool (kernel_pg_dir_init start end_text n pool mem)
kernel_pg_dir_init-KernelMap start end_text n pool mem fresh few room =
    let placed = Vacant-Placed pool fresh in
    let first = next_page (Vacant-Used pool fresh) (omega (arith, room)) mem in
    let going =
      empty-Going start end_text pool first.pool' mem first.mem' fresh first.used first.zeroed in
    let all = rounds start end_text placed n 0 _ (omega arith) (omega (arith, room)) going in
    let mapped : Mapped (flags_of start end_text) pool.base pool.bm.bit_count (tables n) n all.t' =
      subst (λ x. Mapped (flags_of start end_text) pool.base pool.bm.bit_count (tables x) x all.t')
        (omega arith) all.going.mapped in
    let pd : pool.base + 4096 * 0 ≡ pool.base = omega arith in
    record {
      pd = pool.base;
      pool' = all.t'.pool;
      mem' = all.t'.mem;
      returns =
          kernel_pg_dir_init-eq start end_text n pool mem first.pool' first.mem' all.t'
            (subst (λ p. mm_kget_page 3 pool mem ≡ done (p, first.pool', first.mem')) pd
              first.returns)
            (omega (arith, fresh.high)) all.returns;
      valid = mapped.used.valid;
      same_base = mapped.used.same_base;
      same_count = mapped.used.same_count;
      room = omega (arith, room);
      taken = mapped.used.marks;
      maps = maps_page start end_text placed mapped few room;
      nothing_below = maps_nothing_below start end_text placed mapped few room;
      nothing_above = maps_nothing_above start end_text placed mapped few room;
    }
