-- ===== src/Str.antt =====
-- lib/string.c over a byte memory. A function that writes returns the new memory with its result.
-- Objects do not wrap round the end of the address space, so pointers are plain numbers.
pub mod Fill
pub mod Copy
pub mod Length
pub mod Same
pub mod Compare
mod Tests
use qemu_usage_test.Base.{
  ℕ, zero, suc, ◌+◌, ◌-◌, ◌%◌, ◌^◌, Bool, true, false, ◌&&◌, ◌||◌, not, Outcome, done, hang, ◌>>=◌,
  ltb, ◌==◌, if◌then◌else◌, u8, sub32,
}
use qemu_usage_test.Base.Int.{ℤ, pos, negsuc, ltb_ℤ, signed8}
use qemu_usage_test.Memory.{Memory, poke, null}

-- `while(size-- > 0) *_dest++ = *_src++;`
pub copy_loop : ℕ → ℕ → ℕ → Memory → Memory
copy_loop zero dest src mem = mem
copy_loop (suc size) dest src mem = copy_loop size (dest + 1) (src + 1) (poke mem dest (mem src))

pub memcpy : ℕ → ℕ → ℕ → Memory → ℕ × Memory
unfolding copy_loop
memcpy dest src size mem =
    if dest == null || src == null || size == 0
    then (null, mem)
    else (dest, copy_loop size dest src mem)

pub memmove : ℕ → ℕ → ℕ → Memory → ℕ × Memory
unfolding memcpy
memmove dest src size mem = memcpy dest src size mem

-- The pointers of `memcmp` stay where they are.
pub compare_loop : ℕ → ℕ → ℕ → Memory → ℤ
compare_loop zero dest src mem = pos 0
compare_loop (suc size) dest src mem =
    let rest = compare_loop size dest src mem in
    if not (mem dest == mem src)
    then (if ltb_ℤ (signed8 (mem src)) (signed8 (mem dest)) then pos 1 else negsuc 0)
    else rest

pub memcmp : ℕ → ℕ → ℕ → Memory → ℤ
unfolding compare_loop
memcmp dest src size mem =
    if dest == null || src == null || size == 0 then negsuc 1 else compare_loop size dest src mem

-- `while(size-- > 0) *_dest++ = val;`
pub fill_loop : ℕ → ℕ → ℕ → Memory → Memory
fill_loop zero dest val mem = mem
fill_loop (suc size) dest val mem = fill_loop size (dest + 1) val (poke mem dest (u8 val))

-- `val` is the bit pattern of the `int`.
unfoldable pub memset : ℕ → ℕ → ℕ → Memory → ℕ × Memory
unfolding fill_loop
memset dest val size mem = if dest == null then (null, mem) else (dest, fill_loop size dest val mem)

-- `for(p = str; *p != '\0'; p++);` with the rounds that are left.
pub find_end : ℕ → ℕ → Memory → Outcome ℕ
find_end zero p mem = hang
find_end (suc fuel) p mem =
    let rest = find_end fuel (p + 1) mem in if mem p == 0 then done p else rest

-- No string is longer than the address space. The loops with this many rounds stay shut in the
-- functions below, so that no proof computes them.
abbrev address_space : ℕ
address_space = 2 ^ 32

pub strlen : ℕ → Memory → Outcome ℕ
strlen str mem =
    if str == null then done 0 else (do p ← find_end address_space str mem; done (p - str))

pub strlcpy : ℕ → ℕ → ℕ → Memory → Outcome (ℕ × Memory)
unfolding memcpy
strlcpy dest src size mem = do
  src_len ← strlen src mem
  let dest_len = sub32 size 1
  if ltb 0 size
      then (let dest_len = if ltb src_len dest_len then src_len else dest_len in
          let copied = (memcpy dest src dest_len mem).1 in
          done (dest_len, poke copied (dest + dest_len) 0))
      else done (dest_len, mem)

-- The order of two characters, as `strcmp` returns it.
abbrev pub order : ℕ → ℕ → ℤ
order a b =
    if ltb_ℤ (signed8 a) (signed8 b)
    then negsuc 0
    else (if ltb_ℤ (signed8 b) (signed8 a) then pos 1 else pos 0)

-- `while(*str1 != '\0' && *str1++ == *str2++);` The pointers move before the loop ends.
pub strcmp_loop : ℕ → ℕ → ℕ → Memory → Outcome ℤ
strcmp_loop zero str1 str2 mem = hang
strcmp_loop (suc fuel) str1 str2 mem =
    let rest = strcmp_loop fuel (str1 + 1) (str2 + 1) mem in
    if mem str1 == 0
    then done (order (mem str1) (mem str2))
    else (if mem str1 == mem str2 then rest else done (order (mem (str1 + 1)) (mem (str2 + 1))))

pub strcmp : ℕ → ℕ → Memory → Outcome ℤ
strcmp str1 str2 mem = strcmp_loop address_space str1 str2 mem
