-- ===== src/Bitmap/Search.antt =====
-- `bitmap_find_first_bits_group` and `bitmap_find_first_bit` against a first-fit specification.
use qemu_usage_test.Base.{
  ℕ, zero, suc, ◌+◌, ◌-◌, ◌^◌, ◌≤◌, ◌<◌, ◌≡◌, refl, ap, inl, inr, Bool, true, false, not, ◌&&◌,
  Outcome, done, ltb, leb, ◌==◌, add32, sub32, Bool-cases, arith,
}
use native.Mathlib.Decide.{dec_lt}
use qemu_usage_test.Bitmap.{Bitmap, bitmap_err, search_group, find_first_bits_group}
use qemu_usage_test.Bitmap.View.{holds, IsBitmap, agrees}
use qemu_usage_test.Bitmap.Config.{test_bit-agrees}

-- Some bit of the group of `n` bits from `p` has the other value.
abbrev pub Blocked : Bitmap → ℕ → Bool → ℕ → Type 0
Blocked bm n val p = (q : ℕ) × (p ≤ q) × (q < p + n) × (holds bm q ≡ not val)

-- `r` is the start of the first group of `n` bits with the value, at `start` or behind it, or
-- BITMAP_ERR where there is no such group.
pub data FirstFit (bm : Bitmap) (start n : ℕ) (val : Bool) (r : ℕ) : Type 0 where
  found :
      start ≤ r
      → r + n ≤ bm.bit_count
      → ((q : ℕ) → r ≤ q → q < r + n → holds bm q ≡ val)
      → ((p : ℕ) → start ≤ p → p < r → Blocked bm n val p)
      → FirstFit bm start n val r
  absent :
      r ≡ bitmap_err
      → ((p : ℕ) → start ≤ p → p + n ≤ bm.bit_count → Blocked bm n val p)
      → FirstFit bm start n val r

abbrev pub Finds : Bitmap → ℕ → ℕ → Bool → Outcome ℕ → Type 0
Finds bm start n val o = (r : ℕ) × (o ≡ done r) × FirstFit bm start n val r

-- At `cur`, the bits from `g` on have the value, and every earlier group is blocked.
record Scanned (bm : Bitmap) (start n : ℕ) (val : Bool) (g cur : ℕ) : Type 0 where
  from_start : start ≤ g
  ahead : g ≤ cur
  short : cur < g + n
  clear : (q : ℕ) → g ≤ q → q < cur → holds bm q ≡ val
  blocked : (p : ℕ) → start ≤ p → p < g → Blocked bm n val p

module _ {bm : Bitmap} (valid : IsBitmap bm) (start n : ℕ) (val : Bool) (pos : 0 < n)
    (hn : n < 2 ^ 32) where
  Scanned-hit :
      {g cur : ℕ}
      → Scanned bm start n val g cur
      → holds bm cur ≡ val
      → cur + 1 < g + n
      → Scanned bm start n val g (cur + 1)
  Scanned-hit {cur} s e more = record {
    from_start = s.from_start;
    ahead = omega (arith, s.ahead);
    short = more;
    clear = λ q lo hi. elim (dec_lt q cur) [ yes h ↦ s.clear q lo h | no h ↦ ground arith ];
    blocked = s.blocked;
  }

  Scanned-miss :
      {g cur : ℕ}
      → Scanned bm start n val g cur
      → holds bm cur ≡ not val
      → Scanned bm start n val (cur + 1) (cur + 1)
  Scanned-miss {g} {cur} s e = record {
    from_start = omega (arith, s.from_start, s.ahead);
    ahead = omega arith;
    short = omega arith;
    clear = λ q lo hi. absurd (omega arith);
    blocked = λ p lo hi. elim (dec_lt p g) [
      | yes h ↦ s.blocked p lo h
      | no h ↦ (cur, omega arith, omega (arith, s.short), e)
    ];
  }

  FirstFit-end :
      {g cur : ℕ}
      → Scanned bm start n val g cur
      → (leb (add32 g n) bm.bit_count && ltb cur bm.bit_count) ≡ false
      → FirstFit bm start n val bitmap_err
  FirstFit-end {g} {cur} s over = absent refl λ p lo fits. elim (dec_lt p g) [
    | yes h ↦ s.blocked p lo h
    | no h ↦ absurd (ground (arith, s.short, valid.small))
  ]

  group-Finds :
      {g cur : ℕ}
      → Scanned bm start n val g cur
      → holds bm cur ≡ val
      → cur < bm.bit_count
      → (cur + 1 == add32 g n) ≡ true
      → Finds bm start n val (done (sub32 (cur + 1) n))
  group-Finds {g} {cur} s value below last =
      let full : cur + 1 ≡ g + n = ground (arith, s.short, s.ahead, valid.small) in
      let first : sub32 (cur + 1) n ≡ g = omega (arith, full, valid.small) in
      (g, ap done first, found s.from_start (omega arith) all_of s.blocked)
    where
      all_of : (q : ℕ) → g ≤ q → q < g + n → holds bm q ≡ val
      all_of q lo hi = elim (dec_lt q cur) [
        | yes h ↦ s.clear q lo h
        | no h ↦ ground (arith, value, last, s.short, s.ahead, valid.small)
      ]

  search_group-Finds :
      (fuel g cur : ℕ)
      → bm.bit_count - cur < fuel
      → cur < 2 ^ 32
      → Scanned bm start n val g cur
      → Finds bm start n val (search_group bm n val fuel cur (add32 g n))
  unfolding search_group
  search_group-Finds zero g cur enough hc s = absurd (omega arith)
  search_group-Finds (suc fuel) g cur enough hc s =
      elim (Bool-cases (leb (add32 g n) bm.bit_count && ltb cur bm.bit_count)) [
        | inr over ↦ (bitmap_err, rw over, FirstFit-end s over)
        | inl inside ↦
            let below : cur < bm.bit_count = ground arith in
            let next : add32 cur 1 ≡ cur + 1 = omega (arith, valid.small) in
            rw (inside, test_bit-agrees valid cur val below, next)
              (elim (Bool-cases (agrees val (holds bm cur))) [
                | inr miss ↦ rw miss (
                    search_group-Finds fuel (cur + 1) (cur + 1) (omega arith)
                      (omega (arith, valid.small)) (Scanned-miss s (ground arith)))
                | inl hit ↦
                    let value : holds bm cur ≡ val = ground arith in
                    rw hit (elim (Bool-cases (cur + 1 == add32 g n)) [
                      | inl last ↦ rw last (group-Finds s value below last)
                      | inr more ↦ rw more (
                          search_group-Finds fuel g (cur + 1) (omega arith)
                            (omega (arith, valid.small))
                            (Scanned-hit s value (ground (arith, s.short, s.ahead))))
                    ])
              ])
      ]

  -- On a well-formed bitmap and for a positive group size, `bitmap_find_first_bits_group`
  -- returns, without a fault and within the rounds given, the start of the first group of that
  -- many bits with the value at or behind the start, or BITMAP_ERR if every group that fits is
  -- blocked by a bit of the other value.
  pub find_first_bits_group-Finds :
      start < 2 ^ 32 → Finds bm start n val (find_first_bits_group bm start n val)
  unfolding find_first_bits_group
  find_first_bits_group-Finds hs =
      search_group-Finds (bm.bit_count - start + 1) start start (omega arith) hs (record {
        from_start = omega arith;
        ahead = omega arith;
        short = omega arith;
        clear = λ q lo hi. absurd (omega arith);
        blocked = λ p lo hi. absurd (omega arith);
      })
