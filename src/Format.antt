-- ===== src/Format.antt =====
-- lib/vsprintf.c: numbers as text, and the interpreter of formats, which writes its buffer while it reads
-- the format and the strings. Arguments are words of 32 bits.
pub mod Digits
pub mod Numeral
pub mod Decimal
pub mod Pieces
pub mod Output
pub mod Written
pub mod Letters
pub mod Run
mod Tests
use qemu_usage_test.Base.{
  ℕ, zero, suc, ◌+◌, ◌-◌, ◌*◌, ◌/◌, ◌%◌, ◌^◌, Bool, not, ◌&&◌, ◌||◌, List, [], ◌∷◌, ◌++◌, Option,
  none, some, Outcome, done, fault, hang, ◌>>=◌, ltb, leb, ◌==◌, if◌then◌else◌, length, replicate,
  load, truth, bit_and, bit_or, u8, u32,
}
use qemu_usage_test.Memory.{Memory, poke}
use qemu_usage_test.Str.{strlen}

abbrev pub zeropad : ℕ
zeropad = 1

abbrev pub lowercase : ℕ
lowercase = 2

-- is_digit_char
unfoldable pub is_digit_char : ℕ → Bool
is_digit_char c = leb b'0' c && leb c b'9'

-- The loop of `atoi_mod` with the rounds that are left, and its result with the string pointer.
pub atoi_loop : ℕ → ℕ → ℕ → Memory → Outcome (ℕ × ℕ)
atoi_loop zero s res mem = hang
atoi_loop (suc fuel) s res mem =
    let rest = atoi_loop fuel (s + 1) (u32 (res * 10 + mem s - b'0')) mem in
    if is_digit_char (mem s) then rest else done (res, s)

-- A loop over a string has a round for each address; loops with so many stay shut.
abbrev pub address_space : ℕ
address_space = 2 ^ 32

pub atoi_mod : ℕ → Memory → Outcome (ℕ × ℕ)
atoi_mod s mem = atoi_loop address_space s 0 mem

abbrev pub digit_chars : ℕ → List ℕ
digit_chars flags =
    b'0'
    ∷ b'1'
    ∷ b'2'
    ∷ b'3'
    ∷ b'4'
    ∷ b'5'
    ∷ b'6'
    ∷ b'7'
    ∷ b'8'
    ∷ b'9'
    ∷ (if truth (bit_and flags lowercase)
        then b'a' ∷ b'b' ∷ b'c' ∷ b'd' ∷ b'e' ∷ b'f' ∷ []
        else b'A' ∷ b'B' ∷ b'C' ∷ b'D' ∷ b'E' ∷ b'F' ∷ [])

-- The loop over the digits with the rounds that are left. `temp` is the used part of `temp_buf`, which
-- has 32 characters, from the end.
unfoldable pub itoa_loop : ℕ → ℕ → ℕ → List ℕ → List ℕ → Outcome (List ℕ)
itoa_loop zero num base chars temp = hang
itoa_loop (suc fuel) num base chars temp =
    let rest = (do
      c ← load chars (num % base)
      if ltb (length temp) 32 then itoa_loop fuel (num / base) base chars (c ∷ temp) else fault) in
    if num == 0 then done temp else rest

-- `width` is the word of an int: there are no zeros where `width - num_width` is negative.
abbrev pub padding : ℕ → ℕ → ℕ → List ℕ
padding flags width num_width =
    if truth (bit_and flags zeropad) && ltb width (2 ^ 31)
    then replicate (width - num_width) b'0'
    else []

-- The characters that are written; `none` is NULL.
unfoldable pub itoa_base : ℕ → ℕ → ℕ → ℕ → Outcome (Option (List ℕ))
itoa_base num base width flags = if ltb base 2 || ltb 16 base then done none else (do
  temp ← if num == 0 then done (b'0' ∷ []) else itoa_loop 33 num base (digit_chars flags) []
  done (some (padding flags width (length temp) ++ temp)))

-- Writing characters one behind the other, as `*str++ = c` does.
abbrev pub write_chars : ℕ → List ℕ → Memory → Memory
write_chars p [] mem = mem
write_chars p (c ∷ cs) mem = write_chars (p + 1) cs (poke mem p c)

-- The variables of `vsprintf`, flags, arguments that are left and the place in the buffer, and the
-- memory.
pub record Print : Type 0 where
  pub flags : ℕ
  pub args : List ℕ
  pub str : ℕ
  pub mem : Memory

-- `*str++ = c` for each character
abbrev pub put : List ℕ → Print → Print
put cs s = record s { str = s.str + length cs; mem = write_chars s.str cs s.mem }

-- `va_arg`; an argument that was not passed is undefined behaviour.
abbrev pub va_arg : List ℕ → Outcome (ℕ × List ℕ)
va_arg [] = fault
va_arg (a ∷ args) = done (a, args)

-- `str = itoa_base(str, num, base, width, flags)`; a NULL would be written through.
unfoldable pub put_number : ℕ → ℕ → ℕ → Print → Outcome Print
put_number num base width s = do
  r ← itoa_base num base width s.flags
  elim r [ none ↦ fault | some cs ↦ done (put cs s) ]

-- The loop over the `n` characters of a string.
unfoldable pub put_string : ℕ → ℕ → Print → Print
put_string zero p s = s
put_string (suc n) p s = put_string n (p + 1) (put (s.mem p ∷ []) s)

-- `num < 0` of an int, and `-num`
abbrev pub is_negative : ℕ → Bool
is_negative num = leb (2 ^ 31) num

abbrev pub negate : ℕ → ℕ
negate num = (2 ^ 32 - num) % 2 ^ 32

unfoldable pub put_signed : ℕ → ℕ → Print → Outcome Print
unfolding put_number
put_signed num width s =
    if is_negative num
    then put_number (negate num) 10 width (put (b'-' ∷ []) s)
    else put_number num 10 width s

-- The last switch, at the character of the conversion.
unfoldable pub convert : ℕ → ℕ → Print → Outcome Print
unfolding put_number put_signed put_string
convert c width s =
    if c == b'c'
    then (do r ← va_arg s.args; done (put (u8 r.0 ∷ []) (record s { args = r.1 })))
    else if c == b's'
    then (do
      r ← va_arg s.args
      len ← strlen r.0 s.mem
      done (put_string len r.0 (record s { args = r.1 })))
    else if c == b'd' || c == b'i'
    then (do r ← va_arg s.args; put_signed r.0 width (record s { args = r.1 }))
    else if c == b'u'
    then (do r ← va_arg s.args; put_number r.0 10 width (record s { args = r.1 }))
    else if c == b'o'
    then (do r ← va_arg s.args; put_number r.0 8 width (record s { args = r.1 }))
    else if c == b'x'
    then (do
      r ← va_arg s.args
      put_number r.0 16 width (record s { args = r.1; flags = bit_or s.flags lowercase }))
    else if c == b'X'
    then (do r ← va_arg s.args; put_number r.0 16 width (record s { args = r.1 }))
    else if c == b'p'
    then (do r ← va_arg s.args; put_number r.0 16 8 (record s { args = r.1 }))
    else done s

-- flag_settings, from the character behind the percent sign on.
pub flags_loop : ℕ → ℕ → ℕ → Memory → Outcome (ℕ × ℕ)
flags_loop zero fmt flags mem = hang
flags_loop (suc fuel) fmt flags mem =
    let rest = flags_loop fuel (fmt + 1) (bit_or flags zeropad) mem in
    if mem fmt == b'0' then rest else done (flags, fmt)

abbrev pub skip_prefix : ℕ → Memory → ℕ
skip_prefix fmt mem = if mem fmt == b'l' || mem fmt == b'L' || mem fmt == b'h' then fmt + 1 else fmt

-- One conversion, from the character behind the percent sign on; with the pointer at its last character.
pub directive : ℕ → Print → Outcome (ℕ × Print)
directive fmt s = do
  (flags, fmt) ← flags_loop address_space fmt s.flags s.mem
  (width, fmt) ← atoi_mod fmt s.mem
  let fmt = skip_prefix fmt s.mem
  s ← convert (s.mem fmt) width (record s { flags = flags })
  done (fmt, s)

-- The loop over the format with the rounds that are left.
pub format_loop : ℕ → ℕ → Print → Outcome Print
format_loop zero fmt s = hang
format_loop (suc fuel) fmt s =
    let rest = format_loop fuel (fmt + 1) (put (s.mem fmt ∷ []) s) in
    let converted = (do r ← directive (fmt + 1) s; format_loop fuel (r.0 + 1) r.1) in
    if s.mem fmt == 0 then done s else if not (s.mem fmt == b'%') then rest else converted

unfoldable pub vsprintf : ℕ → ℕ → List ℕ → Memory → Outcome (ℕ × Memory)
vsprintf buf fmt args mem = do
  s ← format_loop address_space fmt (record { flags = 0; args = args; str = buf; mem = mem })
  done (s.str - buf, poke s.mem s.str 0)

pub sprintf : ℕ → ℕ → List ℕ → Memory → Outcome (ℕ × Memory)
unfolding vsprintf
sprintf buf fmt args mem = vsprintf buf fmt args mem
