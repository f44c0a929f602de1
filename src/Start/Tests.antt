-- ===== src/Start/Tests.antt =====
-- The start of the interrupts, and the sectors of a disk that is always ready.
use qemu_usage_test.Base.{
  ◌>>=◌, ◌<◌, ℕ, ◌+◌, ◌≡◌, refl, sym, inl, inr, List, [], ◌∷◌, ◌++◌, Option, none, done, fault,
  length-replicate, All, true, arith,
}
use qemu_usage_test.Base.Int.{pos}
use qemu_usage_test.Memory.{IsString}
use qemu_usage_test.Str.{strcmp}
use qemu_usage_test.Str.Compare.{strcmp-prefix}
use qemu_usage_test.Links.Shape.{IsList}
use qemu_usage_test.Format.{itoa_base, itoa_loop, write_chars}
use qemu_usage_test.Format.Pieces.{Piece, text, conversion, plain, IsPiece}
use qemu_usage_test.Format.Output.{run_pieces, text_of, number_text}
use qemu_usage_test.Printk.{printk}
use qemu_usage_test.Printk.Laws.{show_chars, printk-pieces}
use qemu_usage_test.Devices.Fb.{Screen}
use qemu_usage_test.Devices.Gates.Laws.{IsIdt, no_entry}
use qemu_usage_test.Devices.Block.{blcok_get_by_name}
use qemu_usage_test.Devices.Block.Laws.{blcok_get_by_name-first}
use mathlib.Core.Path.{subst}
use qemu_usage_test.Devices.Ide.{read8, Log, select_sector}
use qemu_usage_test.Devices.Ide.Copy.{words, Gives}
use qemu_usage_test.Devices.Ide.Sent.{data_sent, outsw-data_sent}
use qemu_usage_test.Devices.Ide.Transfer.{Ide}
use qemu_usage_test.Devices.Ide.Blocks.{IsDisk, read_block, write_block}
use qemu_usage_test.Devices.Ide.Again.{IsDisk-accessed, written, read_block-write_block}
use qemu_usage_test.Devices.Ide.Returns.{commanded}
use qemu_usage_test.Start.{Machine, start_interrupts, show_sector}
use qemu_usage_test.Start.Gates.{Started, start_interrupts-Started}
use qemu_usage_test.Start.Sector.{asked, Shown, show_sector-Shown, show_sector-fault}
use qemu_usage_test.Devices.Ide.Settled.{Unused, accessed}
use qemu_usage_test.Start.Sample.{
  layout, hda, mem, devices, driver, machine, device, image, device-Gives, interrupt, hda-IsDisk,
  polls,
}

machine-IsIdt : IsIdt machine.ide.idt
machine-IsIdt = (length-replicate 256 no_entry, length-replicate {A = Option ℕ} 256 none)

start_interrupts-Started_example : Started layout 3 machine (start_interrupts layout 0 0 3 machine)
start_interrupts-Started_example =
    start_interrupts-Started layout 0 0 3 machine machine-IsIdt (λ n. omega arith)

wanted-IsString : IsString mem 20 hda
wanted-IsString = omega arith

name-IsString : IsString mem 108 hda
name-IsString = omega arith

same_name : strcmp 20 108 mem ≡ done (pos 0)
same_name = strcmp-prefix mem 20 108 hda [] wanted-IsString name-IsString (omega arith)

devices-IsList : IsList devices.links 10 (100 ∷ [])
devices-IsList = record { linked = omega arith; distinct = omega arith }

found : blcok_get_by_name 20 devices ≡ done 100
found =
    blcok_get_by_name-first 20 devices (λ x. pos 0) (100 ∷ []) devices-IsList (same_name, tt)
      (omega arith)

abbrev pieces : List Piece
pieces = text b'b' ∷ text b'l' ∷ text b'k' ∷ text b' ' ∷ conversion 0 [] plain b'd' ∷ text 10 ∷ []

pieces-IsPiece : All IsPiece pieces
pieces-IsPiece = (
  (omega arith, omega arith),
  (
    (omega arith, omega arith),
    (
      (omega arith, omega arith),
      (
        (omega arith, omega arith),
        (
          record {
            digits = tt;
            leading = tt;
            fits = omega arith;
            letter = refl;
            short = omega arith;
          },
          ((omega arith, omega arith), tt),
        ),
      ),
    ),
  ),
)

abbrev line : List ℕ
line = b'b' ∷ b'l' ∷ b'k' ∷ b' ' ∷ b'8' ∷ 10 ∷ []

pieces_run :
    run_pieces mem pieces (record { flags = 0; args = 8 ∷ []; out = [] })
    ≡ done (record { flags = 0; args = []; out = line })
unfolding text_of number_text itoa_base itoa_loop
pieces_run = refl

abbrev told_screen : Screen
told_screen =
    show_chars 0 0 line (record (machine.screen) { mem = write_chars 0x5000 (line ++ 0 ∷ []) mem })

told : printk 0x5000 1 (8 ∷ []) 0 0 (machine.screen) ≡ done (6, told_screen)
told =
    (printk-pieces pieces 0x5000 1 0 0 (8 ∷ []) machine.screen
        (record { flags = 0; args = []; out = line }) pieces-IsPiece
        (refl, (refl, (refl, (refl, (refl, (refl, (refl, (refl, tt)))))))) (omega arith)
        (record { inited = refl; place = omega arith; cursor = (omega arith, omega arith) })
        (inl (omega arith)) pieces_run (inr (omega arith)) ((λ e. absurd (omega (arith, e))), tt)).0
      (omega arith)

show_sector-Shown_example :
    Shown layout 0 0 device interrupt machine 100 0 0 image 0
      (show_sector layout 0 0 device interrupt machine)
show_sector-Shown_example =
    show_sector-Shown layout 0 0 device interrupt machine 100 0 0 6 told_screen
      (read8 0x3f6 ∷ read8 0x3f6 ∷ asked layout 0 0 device interrupt machine 100 0 0) image 0 found
      (omega arith) told hda-IsDisk (omega arith)
      (polls (asked layout 0 0 device interrupt machine 100 0 0))
      (device-Gives 256 0
        (read8 0x3f6 ∷ read8 0x3f6 ∷ asked layout 0 0 device interrupt machine 100 0 0))
      (λ a. omega arith)

-- Without a disk.
abbrev no_disk : Machine
no_disk = record machine {
  ide = record driver {
    devices = record devices { links = record { next = λ a. a; prev = λ a. a } };
  };
}

no_disk-IsList : IsList no_disk.ide.devices.links 10 []
no_disk-IsList = record { linked = omega arith; distinct = omega arith }

show_sector-fault_example : show_sector layout 0 0 device interrupt no_disk ≡ fault
show_sector-fault_example =
    show_sector-fault layout 0 0 device interrupt no_disk (λ x. pos 0) [] no_disk-IsList tt
      (omega arith) tt

-- The driver with 0x55 in all of the memory.
abbrev painted : Ide
painted = accessed [] image driver

painted-IsDisk : IsDisk layout.ide device interrupt 100 0 0 painted
painted-IsDisk = IsDisk-accessed layout.ide device interrupt 100 0 0 [] image driver hda-IsDisk

abbrev to_write : Log
to_write = commanded device interrupt 0 0 3 0x30 painted

abbrev polled : Log → Log
polled log = read8 0x3f6 ∷ read8 0x3f6 ∷ log

abbrev to_read : Log
to_read =
    read8 0x1f7
    ∷ commanded device interrupt 0 0 3 0x20
        (written layout.ide device interrupt 100 0x8000 3 0 0 painted (polled to_write))

-- What the write sends.
sector_sent :
    data_sent 0x1f0
      (written layout.ide device interrupt 100 0x8000 3 0 0 painted (polled to_write)).log
      []
    ≡ words 0x8000 256 image
sector_sent =
    outsw-data_sent device 0x1f0 0x30 0x8000 256 image (select_sector device 0x1f0 0 3 [])
      (polled to_write) true (polls to_write)

read_block-write_block_example :
    (s' : Ide) × ((write_block layout.ide device interrupt 100 0x8000 3 painted >>= λ r.
    read_block layout.ide device interrupt 100 0x9000 3 r.1)
      ≡ done (512, s'))
    × ((k : ℕ) → k < 512 → s'.devices.mem (0x9000 + k) ≡ painted.devices.mem (0x8000 + k))
    × Unused 0 s'
read_block-write_block_example =
    read_block-write_block layout.ide device interrupt 100 0x8000 3 0 0 painted 0x9000
      (polled to_write) (polled to_read) painted-IsDisk (omega arith) (λ a. omega arith)
      (polls to_write) (polls to_read)
      (λ repeated.
        subst (λ ws. Gives device 0x1f0 ws (polled to_read)) (sym sector_sent)
          (device-Gives 256 0x8000 (polled to_read)))
