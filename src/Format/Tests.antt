-- ===== src/Format/Tests.antt =====
-- Numbers and formats at concrete inputs.
use qemu_usage_test.Base.{
  ℕ, ◌+◌, ◌≡◌, refl, sym, ◌∙◌, inr, done-injective, false, List, [], ◌∷◌, ◌++◌, some, done, All,
  get_or, arith,
}
use qemu_usage_test.Memory.{Memory}
use qemu_usage_test.Format.{
  itoa_base, itoa_loop, atoi_mod, convert, put_number, put_signed, vsprintf, write_chars,
  is_digit_char,
}
use qemu_usage_test.Str.{strlen}
use qemu_usage_test.Str.Length.{strlen_lem}
use qemu_usage_test.Format.Decimal.{atoi_mod-itoa_base}
use qemu_usage_test.Format.Numeral.{Written, itoa_base-Written}
use qemu_usage_test.Format.Pieces.{Piece, text, conversion, plain, IsPiece}
use qemu_usage_test.Format.Output.{run_pieces, text_of, number_text}
use qemu_usage_test.Format.Run.{vsprintf-pieces}

-- The format "x%05d%s" at 1, and the string "00042" at 10.
abbrev bytes : List ℕ
bytes =
    0 ∷ b'x' ∷ b'%' ∷ b'0' ∷ b'5' ∷ b'd' ∷ b'%' ∷ b's' ∷ 0 ∷ 0 ∷ b'0' ∷ b'0' ∷ b'0' ∷ b'4' ∷ b'2'
    ∷ []

abbrev mem : Memory
mem a = get_or bytes a 0

abbrev pieces : List Piece
pieces = text b'x' ∷ conversion 1 (5 ∷ []) plain b'd' ∷ conversion 0 [] plain b's' ∷ []

pieces-IsPiece : All IsPiece pieces
pieces-IsPiece = (
  (omega arith, omega arith),
  (
    record {
      digits = omega arith;
      leading = omega arith;
      fits = omega arith;
      letter = refl;
      short = omega arith;
    },
    (
      record { digits = tt; leading = tt; fits = omega arith; letter = refl; short = omega arith },
      tt,
    ),
  ),
)

itoa_base_run : itoa_base 42 10 5 1 ≡ done (some (b'0' ∷ b'0' ∷ b'0' ∷ b'4' ∷ b'2' ∷ []))
unfolding itoa_base itoa_loop
itoa_base_run = refl

-- "-1", for a negative int printed with %d.
negative_run :
    convert b'd' 0 (record { flags = 0; args = 0xffffffff ∷ []; str = 100; mem = mem })
    ≡ done
        (record { flags = 0; args = []; str = 102; mem = write_chars 100 (b'-' ∷ b'1' ∷ []) mem })
unfolding convert put_number put_signed itoa_base itoa_loop
negative_run = refl

itoa_base-Written_example : Written 48879 16 8 3 (itoa_base 48879 16 8 3)
itoa_base-Written_example = itoa_base-Written 48879 16 8 3 (omega arith) (omega arith) (omega arith)

ends : is_digit_char (mem 15) ≡ false
unfolding is_digit_char
ends = refl

atoi_mod-itoa_base_example : atoi_mod 10 mem ≡ done (42, 10 + 5)
atoi_mod-itoa_base_example =
    atoi_mod-itoa_base 42 5 1 10 (b'0' ∷ b'0' ∷ b'0' ∷ b'4' ∷ b'2' ∷ []) mem (omega arith)
      itoa_base_run (refl, (refl, (refl, (refl, (refl, tt))))) ends (omega arith)

string_length : strlen 10 mem ≡ done 5
string_length =
    strlen_lem 10 mem (b'0' ∷ b'0' ∷ b'0' ∷ b'4' ∷ b'2' ∷ []) (omega arith) (omega arith)
      (omega arith)

abbrev all_out : List ℕ
all_out = b'x' ∷ b'0' ∷ b'0' ∷ b'0' ∷ b'4' ∷ b'2' ∷ b'0' ∷ b'0' ∷ b'0' ∷ b'4' ∷ b'2' ∷ []

pieces_run :
    run_pieces mem pieces (record { flags = 0; args = 42 ∷ 10 ∷ []; out = [] })
    ≡ done (record { flags = 1; args = []; out = all_out })
unfolding text_of number_text itoa_base itoa_loop
pieces_run = rw string_length refl

vsprintf-pieces_example :
    vsprintf 100 1 (42 ∷ 10 ∷ []) mem ≡ done (11, write_chars 100 (all_out ++ 0 ∷ []) mem)
vsprintf-pieces_example =
    vsprintf-pieces pieces 100 1 (42 ∷ 10 ∷ []) mem (record { flags = 1; args = []; out = all_out })
      pieces-IsPiece (refl, (refl, (refl, (refl, (refl, (refl, (refl, (refl, tt))))))))
      (omega arith) pieces_run (inr (omega arith))
      (
        (λ e. absurd (omega (arith, e))),
        (
          (λ e len h.
              inr (
                let five : 5 ≡ len = done-injective (sym string_length ∙ h) in
                omega (arith, five))),
          tt,
        ),
      )
