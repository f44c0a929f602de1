-- ===== src/Devices/Ide.antt =====
-- devices/ide.c: the registers of an adaptor, selecting a disk and a sector, polling, reset and the
-- detection of disks, with lib/asm/io.h below. The delays and the messages change nothing that is read.
pub mod Info
pub mod Polls
pub mod Copy
pub mod Sector
pub mod Transfer
pub mod Start
pub mod Settled
pub mod Setup
pub mod Returns
pub mod Blocks
pub mod Sent
pub mod Again
mod Tests
use qemu_usage_test.Base.{
  ℕ, zero, suc, ◌+◌, ◌*◌, ◌/◌, ◌^◌, ◌%◌, Bool, true, false, not, ◌&&◌, ◌||◌, List, [], ◌∷◌, ◌==◌,
  if◌then◌else◌, truth, bit_and, bit_or, u8, u16, shr32,
}
use qemu_usage_test.Memory.{Memory, poke}

-- One access to a port: its width in bits, the port and, for a write, the value.
pub data Access : Type 0 where
  read8 read16 read32 : ℕ → Access
  write8 write16 write32 : ℕ → ℕ → Access

-- All accesses so far, the last one first.
abbrev pub Log : Type 0
Log = List Access

abbrev pub sector_size : ℕ
sector_size = 512

-- The registers of the adaptor whose ports start at `base`.
abbrev pub reg_data : ℕ → ℕ
reg_data base = base

abbrev pub reg_error : ℕ → ℕ
reg_error base = base + 1

abbrev pub reg_nsect : ℕ → ℕ
reg_nsect base = base + 2

abbrev pub reg_lbal : ℕ → ℕ
reg_lbal base = base + 3

abbrev pub reg_lbam : ℕ → ℕ
reg_lbam base = base + 4

abbrev pub reg_lbah : ℕ → ℕ
reg_lbah base = base + 5

abbrev pub reg_device : ℕ → ℕ
reg_device base = base + 6

abbrev pub reg_status : ℕ → ℕ
reg_status base = base + 7

abbrev pub reg_command : ℕ → ℕ
reg_command base = reg_status base

abbrev pub reg_ctl : ℕ → ℕ
reg_ctl base = base + 0x206

abbrev pub reg_alt_status : ℕ → ℕ
reg_alt_status base = reg_ctl base

abbrev pub sta_bsy : ℕ
sta_bsy = 0x80

abbrev pub sta_drdy : ℕ
sta_drdy = 0x40

abbrev pub sta_drq : ℕ
sta_drq = 0x08

abbrev pub ctl_srst : ℕ
ctl_srst = 0x04

abbrev pub dev_mbs : ℕ
dev_mbs = 0xa0

abbrev pub dev_lba : ℕ
dev_lba = 0x40

abbrev pub dev_dev : ℕ
dev_dev = 0x10

-- outb, outl and outsw; a word lies in memory with its low byte first.
abbrev pub outb : ℕ → ℕ → Log → Log
outb port val log = write8 port (u8 val) ∷ log

abbrev pub outl : ℕ → ℕ → Log → Log
outl port val log = write32 port (val % 2 ^ 32) ∷ log

pub outsw : ℕ → ℕ → ℕ → Memory → Log → Log
outsw port addr zero mem log = log
outsw port addr (suc cnt) mem log =
    outsw port (addr + 2) cnt mem (write16 port (mem addr + 256 * mem (addr + 1)) ∷ log)

abbrev pub dev_bit : ℕ → ℕ
dev_bit dev_no = if dev_no == 1 then dev_dev else 0

unfoldable pub select_disk : ℕ → ℕ → Log → Log
select_disk base dev_no log =
    outb (reg_device base) (if dev_no == 1 then bit_or dev_mbs dev_dev else dev_mbs) log

-- What a port answers depends on the accesses so far.
module _ (device : Log → ℕ → ℕ) where
  -- inb
  abbrev pub inb : ℕ → Log → ℕ × Log
  inb port log = (u8 (device log port), read8 port ∷ log)

  -- inw and inl
  abbrev pub inw : ℕ → Log → ℕ × Log
  inw port log = (u16 (device log port), read16 port ∷ log)

  abbrev pub inl : ℕ → Log → ℕ × Log
  inl port log = (device log port % 2 ^ 32, read32 port ∷ log)

  -- insw
  pub insw : ℕ → ℕ → ℕ → Memory → Log → Memory × Log
  insw port addr zero mem log = (mem, log)
  insw port addr (suc cnt) mem log =
      let word = u16 (device log port) in
      insw port (addr + 2) cnt (poke (poke mem addr (u8 word)) (addr + 1) (word / 256))
        (read16 port ∷ log)

  -- `inb(reg_nsect(chan)) == a && inb(reg_lbal(chan)) == b`
  pub both_read : ℕ → ℕ → ℕ → Log → Bool × Log
  both_read base a b log =
      let (nsect, log) = inb (reg_nsect base) log in
      let (lbal, log') = inb (reg_lbal base) log in
      if nsect == a then (lbal == b, log') else (false, log)

  -- The loop of `wait_until_idle` with the rounds that are left; a timeout is only reported.
  pub idle_loop : ℕ → ℕ → Log → Log
  idle_loop zero base log = log
  idle_loop (suc rounds) base log =
      let (status, log) = inb (reg_status base) log in
      let rest = idle_loop rounds base log in
      if bit_and status (bit_or sta_bsy sta_drq) == 0 then log else rest

  unfoldable pub wait_until_idle : ℕ → Log → Log
  wait_until_idle base log = idle_loop 1000 base log

  -- The loop of `wait_while_busy` with the rounds that are left.
  unfoldable pub busy_loop : ℕ → ℕ → Log → Bool × Log
  busy_loop zero base log = (false, log)
  busy_loop (suc rounds) base log =
      let (status, log) = inb (reg_alt_status base) log in
      let rest = busy_loop rounds base log in
      let (status', log') = inb (reg_alt_status base) log in
      if bit_and status sta_bsy == 0 then (truth (bit_and status' sta_drq), log') else rest

  unfoldable pub wait_while_busy : ℕ → Log → Bool × Log
  wait_while_busy base log = busy_loop 3000 base log

  unfoldable pub select_disk_wait : ℕ → ℕ → Log → Log
  unfolding select_disk
  select_disk_wait base dev_no log =
      wait_until_idle base (select_disk base dev_no (wait_until_idle base log))

  unfoldable pub select_sector : ℕ → ℕ → ℕ → Log → Log
  select_sector base dev_no sect_no log =
      let log = select_disk_wait base dev_no log in
      let log = outb (reg_nsect base) 1 log in
      let log = outb (reg_lbal base) sect_no log in
      let log = outb (reg_lbam base) (shr32 sect_no 8) log in
      let log = outb (reg_lbah base) (shr32 sect_no 16) log in
      outb (reg_device base)
        (bit_or (bit_or (bit_or dev_mbs dev_lba) (dev_bit dev_no)) (shr32 sect_no 24)) log

  -- Whether a disk answers, tried with two patterns; the second register is read if the first agrees.
  unfoldable pub detect : ℕ → ℕ → Log → Bool × Log
  unfolding select_disk
  detect base dev_no log =
      let log = select_disk base dev_no log in
      let log = outb (reg_lbal base) 0xaa (outb (reg_nsect base) 0x55 log) in
      let log = outb (reg_lbal base) 0x55 (outb (reg_nsect base) 0xaa log) in
      let log = outb (reg_lbal base) 0xaa (outb (reg_nsect base) 0x55 log) in
      both_read base 0x55 0xaa log

  -- The loop that waits for disk 1 to sign on, with the rounds that are left.
  pub sign_loop : ℕ → ℕ → Log → Log
  sign_loop zero base log = log
  sign_loop (suc rounds) base log =
      let (signed, log) = both_read base 1 1 log in
      let rest = sign_loop rounds base log in if signed then log else rest

  unfoldable pub reset_adaptor : ℕ → Log → Log
  unfolding select_disk
  reset_adaptor base log =
      let (present_0, log) = detect base 0 log in
      let (present_1, log) = detect base 1 log in
      let log = outb (reg_ctl base) 0 (outb (reg_ctl base) ctl_srst (outb (reg_ctl base) 0 log)) in
      let log = if present_0 then (wait_while_busy base (select_disk base 0 log)).1 else log in
      if present_1
      then (wait_while_busy base (sign_loop 3000 base (select_disk base 1 log))).1
      else log

  -- The result, and whether it is an ATA disk.
  unfoldable pub check_disk_type : ℕ → ℕ → Log → Bool × Bool × Log
  unfolding select_disk
  check_disk_type base dev_no log =
      let log = select_disk base dev_no log in
      let (error, log) = inb (reg_error base) log in
      let (lbam, log) = inb (reg_lbam base) log in
      let (lbah, log) = inb (reg_lbah base) log in
      let (status, log) = inb (reg_status base) log in
      if not (error == 1) && (not (error == 0x81) || dev_no == 1)
        || not (truth (bit_and status sta_drdy))
        || truth (bit_and status sta_bsy)
      then (not (error == 0x81), false, log)
      else (true, lbam == 0 && lbah == 0 || lbam == 0x3c && lbah == 0xc3, log)
