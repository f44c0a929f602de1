-- ===== src/Bitmap/Ranges.antt =====
-- The operations on several bits: `bitmap_config_all`, and the setting and resetting of a range.
use qemu_usage_test.Base.{
  ℕ, zero, suc, ◌+◌, ◌-◌, ◌*◌, ◌/◌, ◌%◌, ◌^◌, ◌≤◌, ◌<◌, ◌≡◌, refl, ◌∙◌, inl, inr, Bool, true, false,
  ◌&&◌, List, done, All, length, get_or, set, store-done, All-set, length-set, get_or-set_self,
  get_or-set_ne, ltb, leb, if◌then◌else◌, le→ltb, add32, Bool-cases, arith,
}
use native.Mathlib.Decide.{ℕ_discrete, dec_le}
use qemu_usage_test.Base.Binary.{bit, bit-ones, bit-zero}
use qemu_usage_test.Bitmap.{
  Bitmap, config_bits, config_multi_bits, fill_words, config_all, set_multi_bits, reset_multi_bits,
}
use qemu_usage_test.Bitmap.View.{holds, IsBitmap, put, Becomes, Becomes-unchanged, Becomes-same}
use qemu_usage_test.Bitmap.Config.{config_bit-put}

config_bits-put :
    (n i : ℕ) (val : Bool) {bm : Bitmap}
    → IsBitmap bm
    → i + n ≤ bm.bit_count
    → Becomes bm (put (holds bm) i (i + n) val) (config_bits n i val bm)
unfolding config_bits
config_bits-put zero i val valid fits = Becomes-unchanged valid (λ j. ground arith) refl
config_bits-put (suc n) i val {bm} valid fits =
    let first = config_bit-put valid i val (omega arith) in
    let rest = config_bits-put n (i + 1) val first.valid (omega (arith, first.same_count)) in
    record {
      result = rest.result;
      returns = rw first.returns rest.returns;
      valid = rest.valid;
      same_count = rest.same_count ∙ first.same_count;
      same_length = rest.same_length ∙ first.same_length;
      view = λ j. ground (arith, rest.view j, first.view j);
    }

-- The range that `bitmap_set_multi_bits` writes is empty unless it lies in the bitmap.
abbrev pub put_within : ℕ → (ℕ → Bool) → ℕ → ℕ → Bool → ℕ → Bool
put_within count f start n val =
    put f start (if leb (start + n) count then start + n else start) val

config_multi_bits-over :
    {bm : Bitmap} (start n : ℕ) (val : Bool)
    → IsBitmap bm
    → start < 2 ^ 32
    → n < 2 ^ 32
    → ¬ (start + n ≤ bm.bit_count)
    → config_multi_bits bm start n val ≡ done bm
unfolding config_multi_bits config_bits
config_multi_bits-over {bm} start n val valid hs hn over =
    elim (Bool-cases (ltb bm.bit_count (add32 start n))) [
      | inl past ↦ rw past
      | inr wrapped ↦
          let rounds : add32 start n - start ≡ 0 = ground (arith, valid.small) in
          rw (wrapped, rounds)
    ]

config_multi_bits-put :
    {bm : Bitmap} (start n : ℕ) (val : Bool)
    → IsBitmap bm
    → start < 2 ^ 32
    → n < 2 ^ 32
    → Becomes bm (put_within bm.bit_count (holds bm) start n val) (config_multi_bits bm start n val)
unfolding config_multi_bits
config_multi_bits-put {bm} start n val valid hs hn = elim (dec_le (start + n) bm.bit_count) [
  | yes fits ↦
      let last : add32 start n ≡ start + n = omega (arith, valid.small) in
      let rounds : start + n - start ≡ n = omega arith in
      Becomes-same (config_bits-put n start val valid fits) (λ j. ground arith)
        (rw (last, le→ltb _ _ fits, rounds))
  | no over ↦
      Becomes-unchanged valid (λ j. ground arith)
        (config_multi_bits-over start n val valid hs hn over)
]

-- The loop over whole words sets the words from `i` up to `i + n`.
record Filled (bits : List ℕ) (n i v : ℕ) : Type 0 where
  out : List ℕ
  returns : fill_words n i v bits ≡ done out
  same_length : length out ≡ length bits
  words : All (λ w. w < 2 ^ 32) out
  each : (k : ℕ) → get_or out k 0 ≡ (if leb i k && ltb k (i + n) then v else get_or bits k 0)

fill_words-Filled :
    (n i v : ℕ) (bits : List ℕ)
    → i + n ≤ length bits
    → v < 2 ^ 32
    → All (λ w. w < 2 ^ 32) bits
    → Filled bits n i v
unfolding fill_words
fill_words-Filled zero i v bits fits hv h = record {
  out = bits;
  returns = refl;
  same_length = refl;
  words = h;
  each = λ k. ground arith;
}
fill_words-Filled (suc n) i v bits fits hv h =
    let rest =
      fill_words-Filled n (i + 1) v (set bits i v) (rw length-set (omega arith)) hv
        (All-set (λ w. w < 2 ^ 32) bits i v h hv) in
    record {
      out = rest.out;
      returns = rw (store-done bits i v (omega arith)) rest.returns;
      same_length = rest.same_length ∙ length-set bits i v;
      words = rest.words;
      each = λ k. each_of rest k;
    }
  where
    each_of :
        (rest : Filled (set bits i v) n (i + 1) v) (k : ℕ)
        → get_or rest.out k 0 ≡ (if leb i k && ltb k (i + suc n) then v else get_or bits k 0)
    each_of rest k = elim (ℕ_discrete i k) [
      | yes e ↦ ground (arith, e, rest.each k, get_or-set_self bits i v 0 (omega arith))
      | no ne ↦ ground (arith, rest.each k, get_or-set_ne bits i k v 0 ne)
    ]

-- The word whose digits all have the value.
abbrev all_digits : Bool → ℕ
all_digits val = if val then 4294967295 else 0

bit-all_digits : (val : Bool) (k : ℕ) → k < 32 → bit k (all_digits val) ≡ val
bit-all_digits true k h = bit-ones k 32 h
bit-all_digits false k h = bit-zero k

-- On a well-formed bitmap, `bitmap_config_all` writes the value to every bit below the bit count
-- and to no other, and keeps the bitmap well formed.
pub config_all-put :
    {bm : Bitmap} (val : Bool)
    → IsBitmap bm
    → Becomes bm (put (holds bm) 0 bm.bit_count val) (config_all bm val)
unfolding config_all holds
config_all-put {bm} val valid =
    let n = bm.bit_count / 32 in
    let fill =
      fill_words-Filled n 0 (all_digits val) bm.bits (omega (arith, valid.room)) (ground arith)
        valid.words in
    let mid : Bitmap = record bm { bits = fill.out } in
    let mid_valid : IsBitmap mid = record {
      small = valid.small;
      room = rw fill.same_length valid.room;
      words = fill.words;
    } in
    let last = config_bits-put (bm.bit_count % 32) (n * 32) val mid_valid (omega arith) in
    record {
      result = last.result;
      returns = rw fill.returns last.returns;
      valid = last.valid;
      same_count = last.same_count;
      same_length = last.same_length ∙ fill.same_length;
      view = λ j.
          ground
            (arith, last.view j, fill.each (j / 32), bit-all_digits val (j % 32) (omega arith));
    }

-- On a well-formed bitmap and for 32-bit operands, `bitmap_set_multi_bits` sets exactly the bits of
-- the range if the range lies in the bitmap, also where `idx_start + bit_count` wraps, and changes
-- nothing otherwise.
pub set_multi_bits-put :
    {bm : Bitmap} (start n : ℕ)
    → IsBitmap bm
    → start < 2 ^ 32
    → n < 2 ^ 32
    → Becomes bm (put_within bm.bit_count (holds bm) start n true) (set_multi_bits bm start n)
unfolding set_multi_bits
set_multi_bits-put start n = config_multi_bits-put start n true

-- On a well-formed bitmap and for 32-bit operands, `bitmap_reset_multi_bits` clears exactly the
-- bits of the range if the range lies in the bitmap, and changes nothing otherwise.
pub reset_multi_bits-put :
    {bm : Bitmap} (start n : ℕ)
    → IsBitmap bm
    → start < 2 ^ 32
    → n < 2 ^ 32
    → Becomes bm (put_within bm.bit_count (holds bm) start n false) (reset_multi_bits bm start n)
unfolding reset_multi_bits
reset_multi_bits-put start n = config_multi_bits-put start n false
