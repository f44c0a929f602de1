-- ===== src/Bitmap/Tests.antt =====
-- Runs on small bitmaps, and the theorems at concrete bitmaps.
use qemu_usage_test.Base.{◌≡◌, refl, true, false, [], ◌∷◌, done, arith}
use qemu_usage_test.Bitmap.{
  Bitmap, bitmap_err, config_bit, config_bits, config_all, set_multi_bits, find_first_bits_group,
  find_first_bit,
}
use qemu_usage_test.Bitmap.View.{IsBitmap}
use qemu_usage_test.Bitmap.Search.{Finds, find_first_bits_group-Finds}

-- 40 bits, of which 0, 2 and 39 are set.
abbrev sample : Bitmap
sample = record { bit_count = 40; bits = 5 ∷ 128 ∷ [] }

sample-IsBitmap : IsBitmap sample
sample-IsBitmap = record { small = omega arith; room = omega arith; words = omega arith }

group_found : find_first_bits_group sample 0 3 false ≡ done 3
unfolding find_first_bits_group
group_found = refl

group_absent : find_first_bits_group sample 0 37 false ≡ done bitmap_err
unfolding find_first_bits_group
group_absent = refl

bit_found : find_first_bit sample 3 true ≡ done 39
unfolding find_first_bit
bit_found = refl

range_set :
    set_multi_bits sample 30 4 ≡ done (record { bit_count = 40; bits = 3221225477 ∷ 131 ∷ [] })
unfolding set_multi_bits config_bits config_bit
range_set = refl

all_set : config_all sample true ≡ done (record { bit_count = 40; bits = 4294967295 ∷ 255 ∷ [] })
unfolding config_all config_bit
all_set = refl

find_first_bits_group-Finds_example :
    Finds sample 0 3 false (find_first_bits_group sample 0 3 false)
find_first_bits_group-Finds_example =
    find_first_bits_group-Finds sample-IsBitmap 0 3 false (omega arith) (omega arith) (omega arith)
