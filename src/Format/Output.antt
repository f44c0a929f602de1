-- ===== src/Format/Output.antt =====
-- What a format is to print, as text: no buffer is written, and strings are read from one memory.
use qemu_usage_test.Base.{
  ℕ, zero, suc, ◌+◌, ◌≤◌, ◌≡◌, refl, ap, List, [], ◌∷◌, ◌++◌, none, some, Outcome, done, fault,
  ◌>>=◌, length, length-append, ◌&&◌, ◌||◌, ◌==◌, if◌then◌else◌, bit_or, u8, arith, done-injective,
  done-bind, fault-not_done,
}
use qemu_usage_test.Memory.{Memory}
use qemu_usage_test.Str.{strlen}
use qemu_usage_test.Format.{itoa_base, lowercase, is_negative, negate}
use qemu_usage_test.Format.Digits.{value}
use qemu_usage_test.Format.Pieces.{Piece, text, conversion, set_flags}

-- The flags, the arguments that are left, and the text so far.
pub record Output : Type 0 where
  pub flags : ℕ
  pub args : List ℕ
  pub out : List ℕ

-- The text of a number.
unfoldable pub number_text : ℕ → ℕ → ℕ → ℕ → Outcome (List ℕ)
number_text num base width flags = do
  r ← itoa_base num base width flags
  elim r [ none ↦ fault | some cs ↦ done cs ]

-- The `n` characters from `p` on.
abbrev pub read_chars : ℕ → ℕ → Memory → List ℕ
read_chars zero p mem = []
read_chars (suc n) p mem = mem p ∷ read_chars n (p + 1) mem

-- The flags behind a conversion: %x leaves the small letters on.
abbrev pub flags_behind : ℕ → ℕ → ℕ
flags_behind c flags = if c == b'x' then bit_or flags lowercase else flags

-- The text of the argument `a` for the letter `c`; no other letter is one of a conversion.
unfoldable pub text_of : ℕ → ℕ → ℕ → ℕ → Memory → Outcome (List ℕ)
unfolding number_text
text_of c width flags a mem =
    if c == b'c'
    then done (u8 a ∷ [])
    else if c == b's'
    then (do len ← strlen a mem; done (read_chars len a mem))
    else if (c == b'd' || c == b'i') && is_negative a
    then (do cs ← number_text (negate a) 10 width flags; done (b'-' ∷ cs))
    else if c == b'd' || c == b'i' || c == b'u'
    then number_text a 10 width flags
    else if c == b'o'
    then number_text a 8 width flags
    else if c == b'x' || c == b'X'
    then number_text a 16 width (flags_behind c flags)
    else if c == b'p'
    then number_text a 16 8 flags
    else fault

-- What one piece gives. The flags of a conversion stay set behind it.
abbrev pub converted : ℕ → ℕ → Memory → Output → Outcome Output
converted c width mem o = elim o.args [
  | [] ↦ fault
  | a ∷ args ↦
      (text_of c width o.flags a mem >>= λ cs.
      done (record { flags = flags_behind c o.flags; args = args; out = o.out ++ cs }))
]

abbrev pub run_piece : Memory → Piece → Output → Outcome Output
run_piece mem (text c) o = done (record o { out = o.out ++ c ∷ [] })
run_piece mem (conversion pads ds size c) o =
    converted c (value 10 0 ds) mem (record o { flags = set_flags pads o.flags })

abbrev pub run_pieces : Memory → List Piece → Output → Outcome Output
run_pieces mem [] o = done o
run_pieces mem (piece ∷ ps) o = run_piece mem piece o >>= run_pieces mem ps

-- What a conversion that is done was given and gave.
pub record Converted (c width : ℕ) (mem : Memory) (flags : ℕ) (args out : List ℕ) (r : Output)
    : Type 0 where
  pub arg : ℕ
  pub rest : List ℕ
  pub cs : List ℕ
  pub given : args ≡ arg ∷ rest
  pub gives : text_of c width flags arg mem ≡ done cs
  pub result : record { flags = flags_behind c flags; args = rest; out = out ++ cs } ≡ r

pub converted-Converted :
    (c width : ℕ) (mem : Memory) (flags : ℕ) (args out : List ℕ) (r : Output)
    → converted c width mem (record { flags = flags; args = args; out = out }) ≡ done r
    → Converted c width mem flags args out r
converted-Converted c width mem flags [] out r e = absurd (fault-not_done e)
converted-Converted c width mem flags (a ∷ args) out r e =
    let (cs, gives, rest) = done-bind (text_of c width flags a mem) _ r e in
    record {
      arg = a;
      rest = args;
      cs = cs;
      given = refl;
      gives = gives;
      result = done-injective rest;
    }

-- The text only grows.
run_piece-grows :
    (mem : Memory) (piece : Piece) (o r : Output)
    → run_piece mem piece o ≡ done r
    → length o.out ≤ length r.out
run_piece-grows mem (text c) o r e =
    let made : o.out ++ c ∷ [] ≡ r.out = ap (λ (x : Output). x.out) (done-injective e) in
    omega (arith, ap (λ (x : List ℕ). length x) made, length-append o.out (c ∷ []))
run_piece-grows mem (conversion pads ds size c) o r e =
    let k = converted-Converted c (value 10 0 ds) mem (set_flags pads o.flags) o.args o.out r e in
    let made : o.out ++ k.cs ≡ r.out = ap (λ (x : Output). x.out) k.result in
    omega (arith, ap (λ (x : List ℕ). length x) made, length-append o.out k.cs)

pub run_pieces-grows :
    (mem : Memory) (ps : List Piece) (o r : Output)
    → run_pieces mem ps o ≡ done r
    → length o.out ≤ length r.out
run_pieces-grows mem [] o r e =
    let same : length o.out ≡ length r.out = ap (λ (x : Output). length x.out) (done-injective e) in
    omega (arith, same)
run_pieces-grows mem (piece ∷ ps) o r e =
    let (o', first, rest) = done-bind (run_piece mem piece o) (run_pieces mem ps) r e in
    let one = run_piece-grows mem piece o o' first in
    let others = run_pieces-grows mem ps o' r rest in omega (arith, one, others)
