-- ===== src/Bitmap/Create.antt =====
-- `bitmap_create_in_buf`: when it accepts a buffer, and what the bitmap in it is then good for.
use qemu_usage_test.Base.{
  ℕ, suc, ◌+◌, ◌*◌, ◌/◌, ◌^◌, ◌≤◌, ◌<◌, ◌≡◌, refl, Bool, List, none, some, fault, All, length, ◌⊎◌,
  inl, inr, load, lt→leb, arith, get_elem?, zero, [], ◌∷◌,
}
use native.Mathlib.Decide.{dec_le}
use qemu_usage_test.Bitmap.{Bitmap, create_in_buf, config_bit}
use qemu_usage_test.Bitmap.View.{IsBitmap}

abbrev made : ℕ → List ℕ → Bitmap
made bit_count words = record { bit_count = bit_count; bits = words }

-- For a buffer of whole words, `bitmap_create_in_buf` gives a well-formed bitmap over the words
-- behind the header if these have room for the bits, and NULL otherwise.
pub create_in_buf-IsBitmap :
    (bit_count : ℕ) (words : List ℕ)
    → 4 * (length words + 1) < 2 ^ 32
    → bit_count + 7 < 2 ^ 32
    → All (λ w. w < 2 ^ 32) words
    → let r = create_in_buf bit_count words (4 * (length words + 1)) in
      ((bm : Bitmap) × (r ≡ some bm) × IsBitmap bm × (bm.bit_count ≡ bit_count) × (bm.bits ≡ words))
      ⊎ ((r ≡ none) × (32 * length words < bit_count))
unfolding create_in_buf
create_in_buf-IsBitmap bit_count words hw hb ok = elim (dec_le bit_count (32 * length words)) [
  | yes fits ↦ inl (
    made bit_count words,
    ground arith,
    record { small = omega arith; room = fits; words = ok },
    refl,
    refl,
  )
  | no over ↦ inr (ground arith, omega arith)
]

get_elem?-none : (xs : List ℕ) (i : ℕ) → length xs ≤ i → get_elem? xs i ≡ none
get_elem?-none [] i h = refl
get_elem?-none (x ∷ xs) zero h = absurd (omega arith)
get_elem?-none (x ∷ xs) (suc i) h = get_elem?-none xs i (omega arith)

-- For a buffer that ends in a part of a word, `bitmap_create_in_buf` accepts bit counts that need
-- this part, and writing such a bit reaches outside of the whole words of the buffer.
pub create_in_buf-overrun :
    (words : List ℕ) (e bit_count idx : ℕ) (val : Bool)
    → 4 * (length words + 2) < 2 ^ 32
    → e < 4
    → 32 * length words ≤ idx
    → idx < bit_count
    → bit_count ≤ 32 * length words + 8 * e
    → bit_count + 7 < 2 ^ 32
    → (bm : Bitmap) × (create_in_buf bit_count words (4 * (length words + 1) + e) ≡ some bm)
      × (config_bit bm idx val ≡ fault)
unfolding create_in_buf config_bit
create_in_buf-overrun words e bit_count idx val hw he lo inside room small = (
  made bit_count words,
  ground arith,
  rw (lt→leb _ _ inside, get_elem?-none words (idx / 32) (omega arith), load),
)
