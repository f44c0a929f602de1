-- ===== src/Bitmap/Config.antt =====
-- `bitmap_config_bit` and `bitmap_test_bit`.
use qemu_usage_test.Base.{
  ap, ◌∙◌, ◌==◌, ℕ, ◌+◌, ◌/◌, ◌%◌, ◌^◌, ◌<◌, ◌≡◌, refl, Bool, true, false, done, get_or, set,
  All-set, All-get_or, get_or-set_self, get_or-set_ne, length-set, load, load-done, store-done,
  ◌==◌, if◌then◌else◌, not32, bit_and, bit_or, arith, lt→leb,
}
use native.Mathlib.Decide.{ℕ_discrete}
use native.Mathlib.Nat.{pow-le-pow_right}
use qemu_usage_test.Base.Binary.{
  bit, bit-or, bit-and, bit-pow, bit-complement, truth-bit_and-pow, bit_or-lt, bit_and-le,
}
use qemu_usage_test.Bitmap.{Bitmap, config_bit, test_bit, bit_mask}
use qemu_usage_test.Bitmap.View.{holds, IsBitmap, put, agrees, Becomes}

mask-lt : (k : ℕ) → 2 ^ (k % 32) < 2 ^ 32
mask-lt k =
    omega (arith, pow-le-pow_right {n = 2} (omega arith) {i = k % 32} {j = 31} (omega arith))

-- The word that `bitmap_config_bit` writes.
abbrev masked : Bool → ℕ → ℕ → ℕ
masked val w idx = if val then bit_or w (bit_mask idx) else bit_and w (not32 (bit_mask idx))

bit-masked :
    (val : Bool) (w idx k : ℕ)
    → k < 32
    → bit k (masked val w idx) ≡ (if k == idx % 32 then val else bit k w)
bit-masked true w idx k h = ground (arith, bit-or k w (bit_mask idx), bit-pow k (idx % 32))
bit-masked false w idx k h = ground (
  arith,
  bit-and k w (not32 (bit_mask idx)),
  bit-complement k 32 (bit_mask idx) h (mask-lt idx),
  bit-pow k (idx % 32),
)

masked-lt : (val : Bool) (w idx : ℕ) → w < 2 ^ 32 → masked val w idx < 2 ^ 32
masked-lt true w idx h = bit_or-lt 32 w (bit_mask idx) h (mask-lt idx)
masked-lt false w idx h = omega (arith, bit_and-le w (not32 (bit_mask idx)))

module _ {bm : Bitmap} (valid : IsBitmap bm) where
  load-word :
      (idx : ℕ) → idx < bm.bit_count → load bm.bits (idx / 32) ≡ done (get_or bm.bits (idx / 32) 0)
  load-word idx h = load-done bm.bits (idx / 32) 0 (omega (arith, valid.room))

  word-lt : (i : ℕ) → get_or bm.bits i 0 < 2 ^ 32
  word-lt i = All-get_or (λ w. w < 2 ^ 32) bm.bits i 0 valid.words (omega arith)

  pub test_bit-agrees :
      (idx : ℕ) (val : Bool)
      → idx < bm.bit_count
      → test_bit bm idx val ≡ done (agrees val (holds bm idx))
  unfolding test_bit holds
  test_bit-agrees idx true h = rw (load-word idx h) (rw truth-bit_and-pow)
  test_bit-agrees idx false h = rw (load-word idx h) (
      rw truth-bit_and-pow (rw (bit-complement (idx % 32) 32 _ (omega arith) (word-lt (idx / 32)))))

  written : (idx : ℕ) (val : Bool) → Bitmap
  written idx val = record bm {
    bits = set bm.bits (idx / 32) (masked val (get_or bm.bits (idx / 32) 0) idx);
  }

  holds-written :
      (idx : ℕ) (val : Bool) (j : ℕ)
      → idx < bm.bit_count
      → holds (written idx val) j ≡ put (holds bm) idx (idx + 1) val j
  unfolding written holds
  holds-written idx val j h = elim (ℕ_discrete (idx / 32) (j / 32)) [
    | yes same ↦ ground (
      arith,
      same,
      get_or-set_self bm.bits (idx / 32) (masked val (get_or bm.bits (idx / 32) 0) idx) 0
          (omega (arith, valid.room)),
      bit-masked val (get_or bm.bits (idx / 32) 0) idx (j % 32) (omega arith),
    )
    | no other ↦ ground (
      arith,
      get_or-set_ne bm.bits (idx / 32) (j / 32) (masked val (get_or bm.bits (idx / 32) 0) idx) 0
          other,
    )
  ]

  pub config_bit-put :
      (idx : ℕ) (val : Bool)
      → idx < bm.bit_count
      → Becomes bm (put (holds bm) idx (idx + 1) val) (config_bit bm idx val)
  unfolding config_bit written
  config_bit-put idx val h = record {
    result = written idx val;
    returns =
        rw (lt→leb _ _ h, load-word idx h)
          (rw (
            store-done bm.bits (idx / 32) (masked val (get_or bm.bits (idx / 32) 0) idx)
              (omega (arith, valid.room))));
    valid = record {
      small = valid.small;
      room = rw length-set valid.room;
      words =
          All-set (λ w. w < 2 ^ 32) bm.bits (idx / 32) _ valid.words
            (masked-lt val _ idx (word-lt (idx / 32)));
    };
    same_count = refl;
    same_length = length-set bm.bits (idx / 32) _;
    view = λ j. holds-written idx val j h;
  }

-- On a well-formed bitmap, `bitmap_test_bit` after `bitmap_config_bit` finds the value written at
-- the index that was written and the value from before at every other index.
pub test_bit-config_bit :
    {bm : Bitmap} (idx j : ℕ) (val w : Bool)
    → IsBitmap bm
    → idx < bm.bit_count
    → j < bm.bit_count
    → (bm' : Bitmap) × (config_bit bm idx val ≡ done bm')
      × (test_bit bm' j w ≡ done (agrees w (if j == idx then val else holds bm j)))
test_bit-config_bit {bm} idx j val w valid h k =
    let b = config_bit-put valid idx val h in
    let value : holds b.result j ≡ (if j == idx then val else holds bm j) =
      ground (arith, b.view j) in
    (
      b.result,
      b.returns,
      test_bit-agrees b.valid j w (omega (arith, b.same_count)) ∙ ap (λ v. done (agrees w v)) value,
    )
