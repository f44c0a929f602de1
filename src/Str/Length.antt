-- ===== src/Str/Length.antt =====
-- `strlen` and `strlcpy`
use qemu_usage_test.Base.{
  ℕ, zero, suc, ◌+◌, ◌-◌, ◌^◌, ◌≤◌, ◌<◌, ◌≡◌, ◌≢◌, ◌⊎◌, ap, ◌&&◌, List, [], ◌∷◌, Outcome, done, ltb,
  leb, ◌==◌, if◌then◌else◌, length, take, sub32, ne→==, lt→ltb, arith,
}
use Prim.Native.Nat.{min}
use qemu_usage_test.Memory.{Memory, poke, null, IsString}
use qemu_usage_test.Str.{memcpy, find_end, address_space, strlen, strlcpy}
use qemu_usage_test.Str.Copy.{copy_loop-at}

find_end_lem :
    (fuel p : ℕ) (mem : Memory) (s : List ℕ)
    → IsString mem p s
    → length s < fuel
    → find_end fuel p mem ≡ done (p + length s)
unfolding find_end
find_end_lem zero p mem s h short = absurd (omega arith)
find_end_lem (suc fuel) p mem [] h short = ground arith
find_end_lem (suc fuel) p mem (c ∷ s) h short = ground (arith, find_end_lem fuel (p + 1) mem s h.2)

-- `strlen` returns the length of the string.
pub strlen_lem :
    (p : ℕ) (mem : Memory) (s : List ℕ)
    → p ≢ null
    → IsString mem p s
    → length s < 2 ^ 32
    → strlen p mem ≡ done (length s)
unfolding strlen
strlen_lem p mem s hp h short =
    rw (ne→== p null hp, find_end_lem address_space p mem s h short) (ap done (omega arith))

IsString-take :
    (n dest src : ℕ) (mem mem' : Memory) (s : List ℕ)
    → IsString mem src s
    → n ≤ length s
    → ((i : ℕ) → i < n → mem' (dest + i) ≡ mem (src + i))
    → mem' (dest + n) ≡ 0
    → IsString mem' dest (take n s)
IsString-take zero dest src mem mem' s h hn same last = ground arith
IsString-take (suc n) dest src mem mem' [] h hn same last = absurd (omega arith)
IsString-take (suc n) dest src mem mem' (c ∷ s) h hn same last = (
  ground (arith, same 0, h.0),
  h.1,
  IsString-take n (dest + 1) (src + 1) mem mem' s h.2 (omega arith)
      (λ i hi. ground (arith, same (suc i))) (ground arith),
)

-- What `strlcpy` leaves at its destination: at most `size - 1` characters and the terminator.
pub record Copied (dest src size : ℕ) (s : List ℕ) (mem : Memory) (r : Outcome (ℕ × Memory))
    : Type 0 where
  pub mem' : Memory
  pub returns : r ≡ done (min (length s) (size - 1), mem')
  pub string : IsString mem' dest (take (min (length s) (size - 1)) s)
  pub frame : (a : ℕ) → (a < dest) ⊎ (dest + min (length s) (size - 1) < a) → mem' a ≡ mem a

-- The bytes that `strlcpy` writes when the destination has room.
abbrev copied : ℕ → ℕ → ℕ → Memory → Memory
copied dest src n mem = poke (memcpy dest src n mem).1 (dest + n) 0

copied-at :
    (dest src n : ℕ) (mem : Memory) (a : ℕ)
    → dest ≢ null
    → src ≢ null
    → (src + n < dest) ⊎ (dest ≤ src)
    → copied dest src n mem a ≡ (
        if a == dest + n
        then 0
        else if leb dest a && ltb a (dest + n)
        then mem (src + (a - dest))
        else mem a)
unfolding poke memcpy
copied-at dest src zero mem a hd hs apart = ground arith
copied-at dest src (suc n) mem a hd hs apart = ground (arith, copy_loop-at (suc n) dest src mem a)

-- The part of `strlcpy` behind the measuring of the source.
abbrev tail_of : ℕ → ℕ → ℕ → ℕ → Memory → Outcome (ℕ × Memory)
tail_of dest src size src_len mem =
    let dest_len = sub32 size 1 in
    if ltb 0 size
    then (let dest_len = if ltb src_len dest_len then src_len else dest_len in
        let copied = (memcpy dest src dest_len mem).1 in
        done (dest_len, poke copied (dest + dest_len) 0))
    else done (dest_len, mem)

strlcpy_tail :
    (dest src size len : ℕ) (mem : Memory)
    → 0 < size
    → size < 2 ^ 32
    → tail_of dest src size len mem
      ≡ done (min len (size - 1), copied dest src (min len (size - 1)) mem)
strlcpy_tail dest src size len mem pos hz =
    let kept : (if ltb len (sub32 size 1) then len else sub32 size 1) ≡ min len (size - 1) =
      ground arith in
    rw (lt→ltb _ _ pos, kept)

-- For a string and a destination that do not overlap and a positive size, `strlcpy` returns the
-- number of characters copied, which is at most `size - 1`, leaves the copied prefix with its
-- terminator at the destination, and writes nothing outside of them.
pub strlcpy-Copied :
    (dest src size : ℕ) (s : List ℕ) (mem : Memory)
    → dest ≢ null
    → src ≢ null
    → 0 < size
    → size < 2 ^ 32
    → length s < 2 ^ 32
    → IsString mem src s
    → (src + length s < dest) ⊎ (dest + size ≤ src)
    → Copied dest src size s mem (strlcpy dest src size mem)
unfolding strlcpy
strlcpy-Copied dest src size s mem hd hs pos hz short h apart =
    let n = min (length s) (size - 1) in
    let content = λ (a : ℕ). copied-at dest src n mem a hd hs (omega arith) in
    record {
      mem' = copied dest src n mem;
      returns =
          rw (strlen_lem src mem s hs h short) (strlcpy_tail dest src size (length s) mem pos hz);
      string =
          IsString-take n dest src mem (copied dest src n mem) s h (omega arith)
            (λ i hi. ground (arith, content (dest + i))) (ground (arith, content (dest + n)));
      frame = λ a out. ground (arith, content a);
    }
