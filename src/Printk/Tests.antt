-- ===== src/Printk/Tests.antt =====
-- `printk` of a concrete format.
use qemu_usage_test.Base.{
  ◌≡◌, ◌<◌, ◌≤◌, refl, inl, inr, true, List, [], ◌∷◌, done, fault, All, get_or, arith,
}
use qemu_usage_test.Memory.{Memory}
use qemu_usage_test.Format.{itoa_base, itoa_loop, write_chars}
use qemu_usage_test.Format.Pieces.{Piece, text, conversion, plain, IsPiece}
use qemu_usage_test.Format.Output.{Output, run_pieces, text_of, number_text}
use qemu_usage_test.Devices.Fb.{Screen}
use qemu_usage_test.Printk.{printk}
use qemu_usage_test.Printk.Laws.{show_chars, printk-pieces}

-- The format "#%d" at 1.
abbrev mem : Memory
mem a = get_or (0 ∷ b'#' ∷ b'%' ∷ b'd' ∷ []) a 0

abbrev pieces : List Piece
pieces = text b'#' ∷ conversion 0 [] plain b'd' ∷ []

abbrev screen : Screen
screen = record { cx = 0; cy = 3; fb = 0xc00b8000; inited = true; mem = mem; writes = [] }

abbrev result : Output
result = record { flags = 0; args = []; out = b'#' ∷ b'-' ∷ b'7' ∷ [] }

pieces-IsPiece : All IsPiece pieces
pieces-IsPiece = (
  (omega arith, omega arith),
  (
    record { digits = tt; leading = tt; fits = omega arith; letter = refl; short = omega arith },
    tt,
  ),
)

pieces_run :
    run_pieces mem pieces (record { flags = 0; args = 0xfffffff9 ∷ []; out = [] }) ≡ done result
unfolding text_of number_text itoa_base itoa_loop
pieces_run = refl

printk-pieces_example :
    (3 < 1024
      → printk 0x5000 1 (0xfffffff9 ∷ []) 0 0 screen
        ≡ done (
          3,
          show_chars 0 0
              (b'#' ∷ b'-' ∷ b'7' ∷ [])
              (record screen { mem = write_chars 0x5000 (b'#' ∷ b'-' ∷ b'7' ∷ 0 ∷ []) mem }),
        ))
    × (1024 ≤ 3 → printk 0x5000 1 (0xfffffff9 ∷ []) 0 0 screen ≡ fault)
printk-pieces_example =
    printk-pieces pieces 0x5000 1 0 0 (0xfffffff9 ∷ []) screen result pieces-IsPiece
      (refl, (refl, (refl, (refl, tt)))) (omega arith)
      (record { inited = refl; place = omega arith; cursor = (omega arith, omega arith) })
      (inl (omega arith)) pieces_run (inr (omega arith)) ((λ e. absurd (omega (arith, e))), tt)
