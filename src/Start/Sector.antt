-- ===== src/Start/Sector.antt =====
-- `main` from the search of the disk on.

use qemu_usage_test.Base.{
  ℕ, ◌+◌, ◌^◌, ◌<◌, ◌≡◌, ◌≢◌, refl, ◌∙◌, true, false, List, [], ◌∷◌, Outcome, done, fault, ne→==,
  lt→ltb, u8, All, length, arith,
}
use qemu_usage_test.Base.Int.{ℤ}
use qemu_usage_test.Memory.{Memory, null}
use qemu_usage_test.Str.{strcmp}
use qemu_usage_test.Links.Shape.{IsList}
use qemu_usage_test.Devices.Block.{block_name, is_zero, blcok_get_by_name}
use qemu_usage_test.Devices.Block.Laws.{first_equal, blcok_get_by_name-first}
use qemu_usage_test.Printk.{printk}
use qemu_usage_test.Devices.Fb.{Screen}
use qemu_usage_test.Devices.Ide.{read8, Log, insw, reg_data, reg_status, wait_while_busy}
use qemu_usage_test.Devices.Ide.Transfer.{Ide, set_mem, cmd_read_sector_retry}
use qemu_usage_test.Devices.Ide.Returns.{commanded, read_result}
use qemu_usage_test.Devices.Ide.Copy.{words, Gives, insw-outsw}
use qemu_usage_test.Devices.Ide.Again.{IsDisk-accessed}
use qemu_usage_test.Devices.Ide.Blocks.{IsDisk, read_block, read_block-Returns}
use qemu_usage_test.Start.{Machine, Layout, say, show_sector}

-- No device of the list has the name "hda".
abbrev pub NoneEqual : (ℕ → ℤ) → List ℕ → Type 0
NoneEqual order xs = All (λ x. is_zero (order x) ≡ false) xs

none_equal : (order : ℕ → ℤ) (xs : List ℕ) → NoneEqual order xs → first_equal order xs ≡ null
none_equal order [] h = refl
none_equal order (x ∷ xs) h = rw (h.0) (none_equal order xs h.1)

-- On a well-formed list of fewer than 2^32 devices for which `strcmp` with "hda" returns and none
-- of which it finds equal, the end of `main` reads through NULL.
pub show_sector-fault :
    (at : Layout) (high low : ℕ) (device : Log → ℕ → ℕ) (meanwhile : Ide → Outcome Ide)
    (m : Machine) (order : ℕ → ℤ) (xs : List ℕ)
    → IsList m.ide.devices.links m.ide.devices.block_devices xs
    → All (λ x. strcmp at.hda (block_name x) m.ide.devices.mem ≡ done (order x)) xs
    → length xs < 2 ^ 32
    → NoneEqual order xs
    → show_sector at high low device meanwhile m ≡ fault
unfolding show_sector
show_sector-fault at high low device meanwhile m order xs is cmp few none =
    rw (blcok_get_by_name-first at.hda m.ide.devices order xs is cmp few, none_equal order xs none)

module _ (at : Layout) (high low : ℕ) (device : Log → ℕ → ℕ) (meanwhile : Ide → Outcome Ide)
    (m : Machine) (blk c d : ℕ) where
  -- The machine with the number of sectors shown.
  abbrev counted : Screen → Machine
  counted sc = record m { screen = sc; ide = set_mem sc.mem m.ide }

  abbrev pub nr_sectors : ℕ
  nr_sectors = (m.ide.devices.blocks blk).nr_sectors

  IsDisk-counted :
      (sc : Screen)
      → IsDisk at.ide device meanwhile blk c d m.ide
      → IsDisk at.ide device meanwhile blk c d (counted sc).ide
  IsDisk-counted sc is = IsDisk-accessed at.ide device meanwhile blk c d m.ide.log sc.mem m.ide is

  -- The accesses up to the wait for the data of the first sector.
  abbrev pub asked : Log
  asked =
      read8 (reg_status (m.ide.channels c).reg_base)
      ∷ commanded device meanwhile c d 0 cmd_read_sector_retry m.ide

  -- The last line shows a byte, and the image of a sector is in the buffer.
  pub record Shown (image : Memory) (q : ℕ) (r : Outcome Machine) : Type 0 where
    pub m' : Machine
    pub shows : r ≡ say at high low at.sector_format (image (q + 510) ∷ []) m'
    pub buffer : (k : ℕ) → k < 512 → m'.ide.devices.mem (at.buf + k) ≡ image (q + k)

  -- Where the search for "hda" finds a disk with a sector, on an adaptor that nobody uses and
  -- whose interrupt comes before the wait for it, `printk` of the number of sectors returns, the
  -- polls end with data, and the data port gives the words of a sector image of bytes, the end of
  -- `main` reads that image into its buffer, and the last line that it prints is given the byte
  -- of the image at 510.
  pub show_sector-Shown :
      (n : ℕ) (sc : Screen) (log : Log) (image : Memory) (q : ℕ)
      → blcok_get_by_name at.hda m.ide.devices ≡ done blk
      → blk ≢ null
      → printk at.printk_buf at.blk_format
          (nr_sectors ∷ [])
          high
          low
          (record (m.screen) { mem = m.ide.devices.mem })
        ≡ done (n, sc)
      → IsDisk at.ide device meanwhile blk c d m.ide
      → 0 < nr_sectors
      → wait_while_busy device (m.ide.channels c).reg_base asked ≡ (true, log)
      → Gives device (reg_data (m.ide.channels c).reg_base) (words q 256 image) log
      → ((a : ℕ) → image a < 256)
      → Shown image q (show_sector at high low device meanwhile m)
  unfolding show_sector say
  show_sector-Shown n sc log image q found some_disk told is some_sector polls gives small =
      let port = reg_data (m.ide.channels c).reg_base in
      let got : (k : ℕ)
          → k < 512
          → (insw device port at.buf 256 sc.mem log).0 (at.buf + k) ≡ image (q + k) =
        λ k h. (insw-outsw device port at.buf q 256 k sc.mem image log log small gives h).1 in
      let read : read_block at.ide device meanwhile blk at.buf 0 (counted sc).ide
          ≡ done (read_result device meanwhile c at.buf true log (counted sc).ide) =
        read_block-Returns at.ide device meanwhile blk at.buf 0 c d (counted sc).ide true log
          (IsDisk-counted sc is) polls
        ∙ rw (lt→ltb 0 nr_sectors some_sector) refl in
      let byte : u8 ((insw device port at.buf 256 sc.mem log).0 (at.buf + 510)) ≡ image (q + 510) =
        rw (got 510 (omega arith)) (omega (arith, small (q + 510))) in
      record {
        m' = record (counted sc) {
          ide = (read_result device meanwhile c at.buf true log (counted sc).ide).1;
        };
        shows = rw (found, ne→== blk null some_disk, told, read, byte) refl;
        buffer = got;
      }
