-- ===== src/Bitmap.antt =====
-- lib/kernel/bitmap.c and bitmap.h: an array of bits packed into 32-bit words.
-- `bits` holds the words that lie behind the header in the buffer. The mask `1 << 31` is computed
-- as gcc does, without a fault.
pub mod View
pub mod Config
pub mod Ranges
pub mod Search
pub mod Create
mod Tests
use qemu_usage_test.Base.{
  ℕ, zero, suc, ◌+◌, ◌-◌, ◌*◌, ◌/◌, ◌%◌, ◌^◌, Bool, true, false, ◌&&◌, List, Outcome, done, fault,
  hang, ◌>>=◌, load, store, ltb, leb, ◌==◌, if◌then◌else◌, truth, not32, add32, sub32, bit_and,
  bit_or, Option, none, some,
}
use qemu_usage_test.Round.{div_round_up}

pub record Bitmap : Type 0 where
  pub bit_count : ℕ
  pub bits : List ℕ

abbrev pub bits_per_uint8 : ℕ
bits_per_uint8 = 8

abbrev pub bits_per_uint32 : ℕ
bits_per_uint32 = 32

-- UINT32_MAX
abbrev pub bitmap_err : ℕ
bitmap_err = 4294967295

-- sizeof(bitmap): the header alone, since `bits` has length 0 there.
abbrev pub sizeof_bitmap : ℕ
sizeof_bitmap = 4

unfoldable pub required_buf_size : ℕ → ℕ
unfolding div_round_up
required_buf_size bit_count = div_round_up bit_count bits_per_uint8

-- `words` are the words of the buffer behind the first one; `none` is NULL.
unfoldable pub create_in_buf : ℕ → List ℕ → ℕ → Option Bitmap
unfolding required_buf_size
create_in_buf bit_count words buf_size =
    if ltb (sub32 buf_size sizeof_bitmap) (required_buf_size bit_count)
    then none
    else some (record { bit_count = bit_count; bits = words })

abbrev bit_mask : ℕ → ℕ
bit_mask idx = 2 ^ (idx % bits_per_uint32)

unfoldable pub config_bit : Bitmap → ℕ → Bool → Outcome Bitmap
config_bit bm idx val = if leb bm.bit_count idx then done bm else do
  let idx_buf = idx / bits_per_uint32
  w ← load bm.bits idx_buf
  bits ←
      store bm.bits idx_buf
        (if val then bit_or w (bit_mask idx) else bit_and w (not32 (bit_mask idx)))
  done (record bm { bits = bits })

unfoldable pub test_bit : Bitmap → ℕ → Bool → Outcome Bool
test_bit bm idx val = do
  w ← load bm.bits (idx / bits_per_uint32)
  done (if val then truth (bit_and w (bit_mask idx)) else truth (bit_and (not32 w) (bit_mask idx)))

-- The loop over whole words of `bitmap_config_all`, with `n` rounds left.
fill_words : ℕ → ℕ → ℕ → List ℕ → Outcome (List ℕ)
fill_words zero i v bits = done bits
fill_words (suc n) i v bits = do bits ← store bits i v; fill_words n (i + 1) v bits

-- `for(; n > 0; ++i) bitmap_config_bit(bm, i, val)`
config_bits : ℕ → ℕ → Bool → Bitmap → Outcome Bitmap
unfolding config_bit
config_bits zero i val bm = done bm
config_bits (suc n) i val bm = do bm ← config_bit bm i val; config_bits n (i + 1) val bm

unfoldable pub config_all : Bitmap → Bool → Outcome Bitmap
unfolding fill_words config_bits
config_all bm val = do
  let u32_bound = bm.bit_count / bits_per_uint32
  let u32_res = bm.bit_count % bits_per_uint32
  bits ← fill_words u32_bound 0 (if val then 4294967295 else 0) bm.bits
  config_bits u32_res (u32_bound * bits_per_uint32) val (record bm { bits = bits })

-- The loops of `bitmap_set_multi_bits` and `bitmap_reset_multi_bits`, which differ in the value.
config_multi_bits : Bitmap → ℕ → ℕ → Bool → Outcome Bitmap
unfolding config_bits
config_multi_bits bm idx_start bit_count val =
    let idx_last = add32 idx_start bit_count in
    if ltb bm.bit_count idx_last
    then done bm
    else config_bits (idx_last - idx_start) idx_start val bm

unfoldable pub set_multi_bits : Bitmap → ℕ → ℕ → Outcome Bitmap
unfolding config_multi_bits
set_multi_bits bm idx_start bit_count = config_multi_bits bm idx_start bit_count true

unfoldable pub reset_multi_bits : Bitmap → ℕ → ℕ → Outcome Bitmap
unfolding config_multi_bits
reset_multi_bits bm idx_start bit_count = config_multi_bits bm idx_start bit_count false

unfoldable pub set_bit : Bitmap → ℕ → Outcome Bitmap
unfolding config_bit
set_bit bm idx = config_bit bm idx true

unfoldable pub reset_bit : Bitmap → ℕ → Outcome Bitmap
unfolding config_bit
reset_bit bm idx = config_bit bm idx false

unfoldable pub get_bits_count : Bitmap → ℕ
get_bits_count bm = bm.bit_count

-- The loop of `bitmap_find_first_bits_group`.
search_group : Bitmap → ℕ → Bool → ℕ → ℕ → ℕ → Outcome ℕ
search_group bm bit_count val zero idx_cur idx_last = hang
search_group bm bit_count val (suc fuel) idx_cur idx_last =
    if leb idx_last bm.bit_count && ltb idx_cur bm.bit_count
    then (do
      test_flag ← test_bit bm idx_cur val
      let idx_cur = add32 idx_cur 1
      let hit =
          if idx_cur == idx_last
          then done (sub32 idx_cur bit_count)
          else search_group bm bit_count val fuel idx_cur idx_last
      let miss = search_group bm bit_count val fuel idx_cur (add32 idx_cur bit_count)
      if test_flag then hit else miss)
    else done bitmap_err

-- Each round moves `idx_cur` up, and stops at `bit_count`.
unfoldable pub find_first_bits_group : Bitmap → ℕ → ℕ → Bool → Outcome ℕ
unfolding search_group test_bit
find_first_bits_group bm idx_start bit_count val =
    search_group bm bit_count val (bm.bit_count - idx_start + 1) idx_start
      (add32 idx_start bit_count)

unfoldable pub find_first_bit : Bitmap → ℕ → Bool → Outcome ℕ
unfolding find_first_bits_group
find_first_bit bm idx_start val = find_first_bits_group bm idx_start 1 val
