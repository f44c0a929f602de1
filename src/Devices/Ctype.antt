-- ===== src/Devices/Ctype.antt =====
-- lib/ctype.h, on a character in the range of `char`, as an integer; characters are not negative here.
use qemu_usage_test.Base.{
  ℕ, ◌+◌, ◌-◌, ◌≡◌, Bool, false, not, ◌&&◌, ◌||◌, ltb, leb, ◌==◌, if◌then◌else◌, arith,
}

unfoldable pub islower : ℕ → Bool
islower c = leb 0x61 c && leb c 0x7a

unfoldable pub isupper : ℕ → Bool
isupper c = leb 0x41 c && leb c 0x5a

unfoldable pub isalpha : ℕ → Bool
unfolding islower isupper
isalpha c = islower c || isupper c

unfoldable pub isdigit : ℕ → Bool
isdigit c = leb 0x30 c && leb c 0x39

unfoldable pub isalnum : ℕ → Bool
unfolding isalpha isdigit
isalnum c = isalpha c || isdigit c

unfoldable pub isxdigit : ℕ → Bool
unfolding isdigit
isxdigit c = isdigit c || (leb 0x61 c && leb c 0x66) || (leb 0x41 c && leb c 0x46)

unfoldable pub isspace : ℕ → Bool
isspace c = c == 0x20 || c == 0x0c || c == 0x0a || c == 0x0d || c == 0x09 || c == 0x0b

unfoldable pub isblank : ℕ → Bool
isblank c = c == 0x20 || c == 0x09

unfoldable pub isgraph : ℕ → Bool
isgraph c = ltb 32 c && ltb c 127

unfoldable pub isprint : ℕ → Bool
isprint c = leb 32 c && ltb c 127

unfoldable pub iscntrl : ℕ → Bool
iscntrl c = ltb c 32 || c == 127

unfoldable pub isascii : ℕ → Bool
isascii c = ltb c 128

unfoldable pub ispunct : ℕ → Bool
unfolding isprint isalnum isspace
ispunct c = isprint c && not (isalnum c) && not (isspace c)

unfoldable pub tolower : ℕ → ℕ
unfolding isupper
tolower c = if isupper c then c - 0x41 + 0x61 else c

unfoldable pub toupper : ℕ → ℕ
unfolding islower
toupper c = if islower c then c - 0x61 + 0x41 else c

-- A visible character is a letter, a digit or punctuation.
pub isgraph_split : (c : ℕ) → isgraph c ≡ (isalnum c || ispunct c)
unfolding isgraph isalnum isalpha isdigit islower isupper ispunct isprint isspace
isgraph_split c = ground arith

-- `tolower` leaves no capital and `toupper` no small letter, and each undoes the other on the
-- result of its own.
pub tolower-toupper :
    (c : ℕ)
    → (isupper (tolower c) ≡ false)
      × (islower (toupper c) ≡ false)
      × (tolower (toupper c) ≡ tolower c)
      × (toupper (tolower c) ≡ toupper c)
unfolding tolower toupper isupper islower
tolower-toupper c = ground arith
