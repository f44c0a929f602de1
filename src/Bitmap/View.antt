-- ===== src/Bitmap/View.antt =====
-- What a bitmap stands for: a value for each bit. Operations are described by what they do to it.
use qemu_usage_test.Base.{
  ℕ, ◌*◌, ◌/◌, ◌%◌, ◌^◌, ◌≤◌, ◌<◌, ◌≡◌, refl, ◌∙◌, Bool, not, ◌&&◌, Outcome, done, All, length,
  get_or, ltb, leb, if◌then◌else◌,
}
use qemu_usage_test.Base.Binary.{bit}
use qemu_usage_test.Bitmap.{Bitmap}

-- The value of bit `i`.
unfoldable pub holds : Bitmap → ℕ → Bool
unfolding bit
holds bm i = bit (i % 32) (get_or bm.bits (i / 32) 0)

-- Every bit lies in a word, and all numbers are of type `uint32_t`.
pub record IsBitmap (bm : Bitmap) : Type 0 where
  pub small : bm.bit_count < 2 ^ 32
  pub room : bm.bit_count ≤ 32 * length bm.bits
  pub words : All (λ w. w < 2 ^ 32) bm.bits

-- `f` with the values from `lo` up to `hi` replaced.
abbrev pub put : (ℕ → Bool) → ℕ → ℕ → Bool → ℕ → Bool
put f lo hi val j = if leb lo j && ltb j hi then val else f j

-- The comparison of a value with the one that is looked for.
abbrev pub agrees : Bool → Bool → Bool
agrees val b = if val then b else not b

-- `r` is a return of a bitmap of the same size, with the values of `spec`.
pub record Becomes (bm : Bitmap) (spec : ℕ → Bool) (r : Outcome Bitmap) : Type 0 where
  pub result : Bitmap
  pub returns : r ≡ done result
  pub valid : IsBitmap result
  pub same_count : result.bit_count ≡ bm.bit_count
  pub same_length : length result.bits ≡ length bm.bits
  pub view : (j : ℕ) → holds result j ≡ spec j

pub Becomes-unchanged :
    {bm : Bitmap} {spec : ℕ → Bool} {r : Outcome Bitmap}
    → IsBitmap bm
    → ((j : ℕ) → holds bm j ≡ spec j)
    → r ≡ done bm
    → Becomes bm spec r
Becomes-unchanged {bm} valid same e = record {
  result = bm;
  returns = e;
  valid = valid;
  same_count = refl;
  same_length = refl;
  view = same;
}

pub Becomes-same :
    {bm : Bitmap} {f g : ℕ → Bool} {r s : Outcome Bitmap}
    → Becomes bm f r
    → ((j : ℕ) → f j ≡ g j)
    → s ≡ r
    → Becomes bm g s
Becomes-same b same e = record {
  result = b.result;
  returns = e ∙ b.returns;
  valid = b.valid;
  same_count = b.same_count;
  same_length = b.same_length;
  view = λ j. b.view j ∙ same j;
}
