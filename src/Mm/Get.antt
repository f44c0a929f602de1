-- ===== src/Mm/Get.antt =====
-- `mm_kget_pages`
use qemu_usage_test.Base.{
  ℕ, ◌+◌, ◌*◌, ◌^◌, ◌≤◌, ◌<◌, ◌≡◌, ◌≢◌, refl, ap, sym, done-injective, ◌∙◌, ◌⊎◌, inl, inr, true,
  false, ◌&&◌, Outcome, done, ltb, leb, if◌then◌else◌, truth, bit_and, add32, mul32, ne→==, arith,
}
use qemu_usage_test.Memory.{Memory, null}
use qemu_usage_test.Str.{memset}
use qemu_usage_test.Str.Fill.{memset_lem}
use qemu_usage_test.Spin.{spin_lock, spin_unlock}
use qemu_usage_test.Bitmap.{bitmap_err, find_first_bits_group}
use qemu_usage_test.Bitmap.View.{put}
use qemu_usage_test.Bitmap.Ranges.{set_multi_bits-put}
use qemu_usage_test.Bitmap.Search.{Blocked, FirstFit, found, absent, find_first_bits_group-Finds}
use qemu_usage_test.Mm.{MemPool, Got, pf_zero, take_pages, mm_kget_pages}
use qemu_usage_test.Mm.Pool.{IsPool, in_use, page_at}

-- The memory after an allocation at `p`: zeroed if the caller asks for it, untouched otherwise.
abbrev pub Zeroed : ℕ → ℕ → ℕ → Memory → Memory → Type 0
Zeroed flags p n mem mem' =
    (a : ℕ)
    → mem' a
      ≡ (if truth (bit_and flags pf_zero) && (leb p a && ltb a (p + 4096 * n)) then 0 else mem a)

-- `n` free pages of the pool are marked as used and handed out.
pub record Allocated (flags n : ℕ) (pool : MemPool) (mem : Memory) (r : Outcome Got) : Type 0 where
  pub index : ℕ
  pub pool' : MemPool
  pub mem' : Memory
  pub returns : r ≡ done (page_at pool index, pool', mem')
  pub inside : index + n ≤ pool.bm.bit_count
  pub was_free : (q : ℕ) → index ≤ q → q < index + n → in_use pool q ≡ false
  pub first : (p : ℕ) → p < index → Blocked pool.bm n false p
  pub marked : (q : ℕ) → in_use pool' q ≡ put (in_use pool) index (index + n) true q
  pub zeroed : Zeroed flags (page_at pool index) n mem mem'
  pub same_base : pool'.base ≡ pool.base
  pub same_count : pool'.bm.bit_count ≡ pool.bm.bit_count
  pub valid : IsPool pool'

-- There is no group of `n` free pages; the call returns NULL and changes nothing.
pub record Refused (n : ℕ) (pool : MemPool) (mem : Memory) (r : Outcome Got) : Type 0 where
  pub returns : r ≡ done (null, pool, mem)
  pub blocked : (p : ℕ) → p + n ≤ pool.bm.bit_count → Blocked pool.bm n false p

module _ {pool : MemPool} (valid : IsPool pool) (flags n : ℕ) (mem : Memory) (n_pos : 0 < n)
    (hn : n < 2 ^ 32) where
  abbrev locked : MemPool
  locked = record pool { slock = 0 }

  abbrev cleared : ℕ → Memory
  cleared p = if truth (bit_and flags pf_zero) then (memset p 0 (4096 * n) mem).1 else mem

  cleared-Zeroed : (p : ℕ) → p ≢ null → Zeroed flags p n mem (cleared p)
  cleared-Zeroed p h a = ground (arith, (memset_lem p 0 (4096 * n) mem h).1 a)

  take_pages-Allocated :
      (i : ℕ)
      → i + n ≤ pool.bm.bit_count
      → ((q : ℕ) → i ≤ q → q < i + n → in_use pool q ≡ false)
      → ((p : ℕ) → p < i → Blocked pool.bm n false p)
      → Allocated flags n pool mem (take_pages flags n i locked mem)
  unfolding take_pages spin_unlock
  take_pages-Allocated i inside free earlier =
      let marks = set_multi_bits-put i n valid.bitmap (omega (arith, valid.bitmap.small)) hn in
      let address : add32 pool.base (mul32 i 4096) ≡ page_at pool i = omega (arith, valid.fits) in
      let bytes : mul32 n 4096 ≡ 4096 * n = omega (arith, valid.fits) in
      record {
        index = i;
        pool' = record { slock = 1; bm = marks.result; base = pool.base };
        mem' = cleared (page_at pool i);
        returns =
            rw (
              ne→== i bitmap_err (omega (arith, valid.bitmap.small)),
              marks.returns,
              address,
              bytes,
            );
        inside = inside;
        was_free = free;
        first = earlier;
        marked = λ q. ground (arith, marks.view q);
        zeroed = cleared-Zeroed (page_at pool i) (omega (arith, valid.placed));
        same_base = refl;
        same_count = marks.same_count;
        valid = record {
          unlocked = refl;
          bitmap = marks.valid;
          aligned = valid.aligned;
          placed = valid.placed;
          fits = rw marks.same_count valid.fits;
        };
      }

  take_pages-Refused :
      ((p : ℕ) → p + n ≤ pool.bm.bit_count → Blocked pool.bm n false p)
      → Refused n pool mem (take_pages flags n bitmap_err locked mem)
  unfolding take_pages spin_unlock
  take_pages-Refused blocked = record {
    returns = ground (arith, valid.unlocked);
    blocked = blocked;
  }

  enters :
      {i : ℕ}
      → find_first_bits_group pool.bm 0 n false ≡ done i
      → mm_kget_pages flags n pool mem ≡ take_pages flags n i locked mem
  unfolding mm_kget_pages spin_lock
  enters e = rw (ne→== n 0 (omega arith), ne→== pool.slock 0 (omega (arith, valid.unlocked)), e)

  -- On a well-formed pool and for a positive number of pages, `mm_kget_pages` either takes the
  -- first group of free pages of that size, so that exactly these become used, they were all free
  -- before, the result is their address, they are zeroed if PF_ZERO is given and no other byte
  -- changes; or, where no such group exists, returns NULL and changes nothing. The pool stays
  -- well formed and unlocked.
  pub mm_kget_pages_lem :
      Allocated flags n pool mem (mm_kget_pages flags n pool mem)
      ⊎ Refused n pool mem (mm_kget_pages flags n pool mem)
  mm_kget_pages_lem =
      let (i, e, fit) = find_first_bits_group-Finds valid.bitmap 0 n false n_pos hn (omega arith) in
      rw (enters e) (decide fit)
    where
      decide :
          {i : ℕ}
          → FirstFit pool.bm 0 n false i
          → Allocated flags n pool mem (take_pages flags n i locked mem)
            ⊎ Refused n pool mem (take_pages flags n i locked mem)
      decide (found _ inside free earlier) =
          inl (take_pages-Allocated _ inside free (λ p. earlier p (omega arith)))
      decide (absent e blocked) = inr (rw e (take_pages-Refused (λ p. blocked p (omega arith))))

  -- A call that returned a page allocated it.
  pub granted :
      {p : ℕ} {pool' : MemPool} {mem' : Memory}
      → mm_kget_pages flags n pool mem ≡ done (p, pool', mem')
      → p ≢ null
      → (a : Allocated flags n pool mem (mm_kget_pages flags n pool mem)) × (p
          ≡ page_at pool a.index)
        × (pool' ≡ a.pool')
        × (mem' ≡ a.mem')
  granted {p} {pool'} {mem'} e some_page = elim mm_kget_pages_lem [
    | inr r ↦ absurd (some_page (ap (λ (g : Got). g.0) (done-injective (sym e ∙ r.returns))))
    | inl a ↦
        let same : ◌≡◌ {A = Got} (p, pool', mem') (page_at pool a.index, a.pool', a.mem') =
          done-injective (sym e ∙ a.returns) in
        (a, ap (λ (g : Got). g.0) same, ap (λ (g : Got). g.1) same, ap (λ (g : Got). g.2) same)
  ]
