-- ===== src/Str/Tests.antt =====
-- Runs on a small memory, and the theorems at concrete strings.
use qemu_usage_test.Base.{ℕ, ◌≡◌, refl, List, [], ◌∷◌, done, get_or, arith, inl}
use qemu_usage_test.Base.Int.{pos}
use qemu_usage_test.Memory.{Memory, IsString}
use qemu_usage_test.Str.{find_end, strcmp_loop, memcmp, strlen, strlcpy, strcmp}
use qemu_usage_test.Str.Length.{Copied, strlcpy-Copied}
use qemu_usage_test.Str.Compare.{strcmp-mismatch}

-- "hda" at 1, "hdb" at 5 and zeros behind them.
abbrev bytes : List ℕ
bytes = 0 ∷ b'h' ∷ b'd' ∷ b'a' ∷ 0 ∷ b'h' ∷ b'd' ∷ b'b' ∷ []

abbrev mem : Memory
mem a = get_or bytes a 0

abbrev hda : List ℕ
hda = b'h' ∷ b'd' ∷ b'a' ∷ []

abbrev hdb : List ℕ
hdb = b'h' ∷ b'd' ∷ b'b' ∷ []

hda-IsString : IsString mem 1 hda
hda-IsString = omega arith

hdb-IsString : IsString mem 5 hdb
hdb-IsString = omega arith

names_look_equal : strcmp 1 5 mem ≡ done (pos 0)
unfolding strcmp strcmp_loop
names_look_equal = refl

length_run : strlen 5 mem ≡ done 3
unfolding strlen find_end
length_run = refl

memcmp_run : memcmp 1 5 3 mem ≡ pos 0
unfolding memcmp
memcmp_run = refl

strlcpy-Copied_example : Copied 20 5 3 hdb mem (strlcpy 20 5 3 mem)
strlcpy-Copied_example =
    strlcpy-Copied 20 5 3 hdb mem (omega arith) (omega arith) (omega arith) (omega arith)
      (omega arith) hdb-IsString (inl (omega arith))

strcmp-mismatch_example : strcmp 1 5 mem ≡ done (pos 0)
strcmp-mismatch_example =
    strcmp-mismatch mem 1 5 (b'h' ∷ b'd' ∷ []) [] [] b'a' b'b' hda-IsString hdb-IsString
      (omega arith) (omega arith)
