-- ===== src/Format/Pieces.antt =====
-- Formats as lists of pieces, how they are spelled, and how one conversion is read.
use mathlib.Core.Path.{subst}
use qemu_usage_test.Base.{
  ℕ, zero, suc, ◌+◌, ◌^◌, ◌<◌, ◌≡◌, ◌≢◌, ◌⊎◌, inl, inr, refl, sym, ap, ◌∙◌, Bool, true, false, ◌||◌,
  List, [], ◌∷◌, ◌++◌, map, done, ◌>>=◌, length, length-append, length-replicate, replicate, All,
  ◌==◌, bit_or, ne→==, arith,
}
use qemu_usage_test.Memory.{Memory}
use qemu_usage_test.Format.{
  Print, zeropad, is_digit_char, convert, flags_loop, atoi_mod, skip_prefix, address_space,
  directive,
}
use qemu_usage_test.Format.Digits.{value, Leading}
use qemu_usage_test.Format.Numeral.{digit_char, length-map}
use qemu_usage_test.Format.Decimal.{At, At-append, atoi_loop-value, digit_char-decimal}

-- The letters of a size in front of a conversion.
pub data Size : Type 0 where
  plain long_size big_long_size half_size : Size

abbrev pub size_chars : Size → List ℕ
size_chars plain = []
size_chars long_size = b'l' ∷ []
size_chars big_long_size = b'L' ∷ []
size_chars half_size = b'h' ∷ []

-- A character, or a conversion with its zero flags, the digits of its width, its size and its letter.
pub data Piece : Type 0 where
  text : ℕ → Piece
  conversion : ℕ → List ℕ → Size → ℕ → Piece

abbrev pub is_letter : ℕ → Bool
is_letter c =
    c == b'c'
    || c == b's'
    || c == b'd'
    || c == b'i'
    || c == b'u'
    || c == b'o'
    || c == b'x'
    || c == b'X'
    || c == b'p'

-- What follows the percent sign.
abbrev pub conversion_chars : ℕ → List ℕ → Size → ℕ → List ℕ
conversion_chars pads ds size c =
    replicate pads b'0' ++ (map (digit_char 0) ds ++ (size_chars size ++ c ∷ []))

abbrev pub spell : List Piece → List ℕ
spell [] = []
spell (text c ∷ ps) = c ∷ spell ps
spell (conversion pads ds size c ∷ ps) = b'%' ∷ (conversion_chars pads ds size c ++ spell ps)

-- A width has no leading zero, which would be a flag, and is a 32-bit number.
pub record IsConversion (pads : ℕ) (ds : List ℕ) (c : ℕ) : Type 0 where
  pub digits : All (λ d. d < 10) ds
  pub leading : Leading ds
  pub fits : value 10 0 ds < 2 ^ 32
  pub letter : is_letter c ≡ true
  pub short : pads + length ds < 2 ^ 32

abbrev pub IsPiece : Piece → Type 0
IsPiece (text c) = (c ≢ 0) × (c ≢ b'%')
IsPiece (conversion pads ds size c) = IsConversion pads ds c

-- The flags behind so many pads.
abbrev pub set_flags : ℕ → ℕ → ℕ
set_flags zero flags = flags
set_flags (suc n) flags = set_flags n (bit_or flags zeropad)

flags_loop_lem :
    (fuel pads p flags : ℕ) (mem : Memory)
    → At mem p (replicate pads b'0')
    → mem (p + pads) ≢ b'0'
    → pads < fuel
    → flags_loop fuel p flags mem ≡ done (set_flags pads flags, p + pads)
unfolding flags_loop
flags_loop_lem zero pads p flags mem at end enough = absurd (omega arith)
flags_loop_lem (suc fuel) zero p flags mem at end enough =
    let here : p + 0 ≡ p = omega arith in
    rw (ne→== (mem p) b'0' (λ e. end (ap mem here ∙ e))) (ap (λ q. done (flags, q)) (sym here))
flags_loop_lem (suc fuel) (suc pads) p flags mem at end enough =
    let next : p + suc pads ≡ p + 1 + pads = omega arith in
    rw (at.0) (
      flags_loop_lem fuel pads (p + 1) (bit_or flags zeropad) mem at.1 (λ e. end (ap mem next ∙ e))
        (omega arith)
      ∙ ap (λ q. done (set_flags pads (bit_or flags zeropad), q)) (sym next))

-- What stands behind the width.
pub record Behind (q : ℕ) (size : Size) (c : ℕ) (mem : Memory) : Type 0 where
  pub no_digit : is_digit_char (mem q) ≡ false
  pub no_zero : mem q ≢ b'0'
  pub skipped : skip_prefix q mem ≡ q + length (size_chars size)
  pub letter : mem (q + length (size_chars size)) ≡ c

size_end :
    (q : ℕ) (size : Size) (c e : ℕ) (mem : Memory)
    → mem q ≡ e
    → mem (q + 1) ≡ c
    → (e ≡ b'l') ⊎ (e ≡ b'L') ⊎ (e ≡ b'h')
    → length (size_chars size) ≡ 1
    → Behind q size c mem
unfolding is_digit_char
size_end q size c e mem here there is len = record {
  no_digit = ground arith;
  no_zero = ground arith;
  skipped = ground arith;
  letter = rw len there;
}

conversion_end-Behind :
    (q : ℕ) (size : Size) (c : ℕ) (tail : List ℕ) (mem : Memory)
    → is_letter c ≡ true
    → At mem q (size_chars size ++ c ∷ tail)
    → Behind q size c mem
unfolding is_digit_char
conversion_end-Behind q plain c tail mem h at = record {
  no_digit = ground (arith, h, at.0);
  no_zero = ground (arith, h, at.0);
  skipped = ground (arith, h, at.0);
  letter = ap mem (omega arith) ∙ at.0;
}
conversion_end-Behind q long_size c tail mem h at =
    size_end q long_size c b'l' mem at.0 at.1.0 (inl refl) refl
conversion_end-Behind q big_long_size c tail mem h at =
    size_end q big_long_size c b'L' mem at.0 at.1.0 (inr (inl refl)) refl
conversion_end-Behind q half_size c tail mem h at =
    size_end q half_size c b'h' mem at.0 at.1.0 (inr (inr refl)) refl

-- No zero stands in front of the width, or of what is behind it.
first-ne_zero :
    (q : ℕ) (ds : List ℕ) (mem : Memory)
    → All (λ d. d < 10) ds
    → Leading ds
    → At mem q (map (digit_char 0) ds)
    → mem (q + length ds) ≢ b'0'
    → mem q ≢ b'0'
first-ne_zero q [] mem small h at k e = k (ap mem (omega arith) ∙ e)
first-ne_zero q (d ∷ ds) mem small h at k e =
    h (omega (arith, digit_char-decimal 0 d small.0, sym (at.0) ∙ e))

-- Where the parts of a conversion lie.
pub record Laid (p pads : ℕ) (ds : List ℕ) (size : Size) (c : ℕ) (mem : Memory) : Type 0 where
  pub zero_flags : At mem p (replicate pads b'0')
  pub width : At mem (p + pads) (map (digit_char 0) ds)
  pub behind : Behind (p + pads + length ds) size c mem

pub conversion-Laid :
    (p pads : ℕ) (ds : List ℕ) (size : Size) (c : ℕ) (tail : List ℕ) (mem : Memory)
    → is_letter c ≡ true
    → At mem p (conversion_chars pads ds size c ++ tail)
    → Laid p pads ds size c mem
conversion-Laid p pads ds size c tail mem h at =
    let a = At-append mem p (conversion_chars pads ds size c) tail at in
    let b =
      At-append mem p (replicate pads b'0') (map (digit_char 0) ds ++ (size_chars size ++ c ∷ []))
        a.0 in
    let b' =
      subst (λ n. At mem (p + n) (map (digit_char 0) ds ++ (size_chars size ++ c ∷ [])))
        (length-replicate pads b'0') b.1 in
    let e = At-append mem (p + pads) (map (digit_char 0) ds) (size_chars size ++ c ∷ []) b' in
    record {
      zero_flags = b.0;
      width = e.0;
      behind = conversion_end-Behind (p + pads + length ds) size c [] mem h (
          subst (λ n. At mem (p + pads + n) (size_chars size ++ c ∷ []))
            (length-map (digit_char 0) ds) e.1);
    }

-- The place of the letter.
abbrev pub letter_at : ℕ → ℕ → List ℕ → Size → ℕ
letter_at p pads ds size = p + pads + length ds + length (size_chars size)

pub letter_at-eq :
    (p pads : ℕ) (ds : List ℕ) (size : Size) (c : ℕ)
    → letter_at p pads ds size + 1 ≡ p + length (conversion_chars pads ds size c)
letter_at-eq p pads ds size c = omega (
  arith,
  length-append (replicate pads b'0') (map (digit_char 0) ds ++ (size_chars size ++ c ∷ [])),
  length-append (map (digit_char 0) ds) (size_chars size ++ c ∷ []),
  length-append (size_chars size) (c ∷ []),
  length-replicate {A = ℕ} pads b'0',
  length-map (digit_char 0) ds,
)

pub directive_lem :
    (p pads : ℕ) (ds : List ℕ) (size : Size) (c : ℕ) (s : Print)
    → IsConversion pads ds c
    → Laid p pads ds size c s.mem
    → directive p s ≡ (
        convert c (value 10 0 ds) (record s { flags = set_flags pads s.flags }) >>= λ s'.
        done (letter_at p pads ds size, s'))
directive_lem p pads ds size c s is at =
    let flags_read =
      flags_loop_lem address_space pads p s.flags s.mem at.zero_flags
        (first-ne_zero (p + pads) ds s.mem is.digits is.leading at.width at.behind.no_zero)
        (omega (arith, is.short)) in
    let width_read : atoi_mod (p + pads) s.mem ≡ done (value 10 0 ds, p + pads + length ds) =
      unfold atoi_mod in
      atoi_loop-value address_space (p + pads) 0 0 ds s.mem is.digits at.width at.behind.no_digit
        is.fits (omega (arith, is.short)) in
    unfold directive in rw (flags_read, width_read, at.behind.skipped, at.behind.letter) refl
