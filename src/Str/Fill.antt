-- ===== src/Str/Fill.antt =====
-- `memset`
use qemu_usage_test.Base.{
  ℕ, zero, suc, ◌+◌, ◌%◌, ◌≡◌, ◌≢◌, ◌&&◌, ltb, leb, if◌then◌else◌, u8, arith,
}
use qemu_usage_test.Memory.{Memory, poke, null}
use qemu_usage_test.Str.{fill_loop, memset}

fill_loop-at :
    (size dest val : ℕ) (mem : Memory) (a : ℕ)
    → fill_loop size dest val mem a ≡ (if leb dest a && ltb a (dest + size) then u8 val else mem a)
unfolding fill_loop poke
fill_loop-at zero dest val mem a = ground arith
fill_loop-at (suc size) dest val mem a =
    ground (arith, fill_loop-at size (dest + 1) val (poke mem dest (u8 val)) a)

-- `memset` returns its destination, gives each of `size` bytes the low byte of the value and
-- changes no other byte.
pub memset_lem :
    (dest val size : ℕ) (mem : Memory)
    → dest ≢ null
    → ((memset dest val size mem).0 ≡ dest)
      × ((a : ℕ)
          → (memset dest val size mem).1 a
            ≡ (if leb dest a && ltb a (dest + size) then val % 256 else mem a))
unfolding memset
memset_lem dest val size mem h =
    (ground arith, λ a. ground (arith, fill_loop-at size dest val mem a))
