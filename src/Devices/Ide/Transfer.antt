-- ===== src/Devices/Ide/Transfer.antt =====
-- devices/ide.c: the interrupt of an adaptor, the identification of a disk, reading and writing a
-- sector. A disk is known by the numbers of its adaptor and of itself.
use qemu_usage_test.Base.{
  ℕ, zero, suc, ◌+◌, ◌-◌, ◌*◌, ◌^◌, Bool, true, false, not, ◌∷◌, Outcome, done, ◌>>=◌, ◌==◌,
  if◌then◌else◌,
}
use qemu_usage_test.Memory.{Memory}
use qemu_usage_test.Sched.{Sched, not_positive}
use qemu_usage_test.Semaphore.{Semaphore, sema_down, sema_up}
use qemu_usage_test.Devices.Block.{BlockDevices}
use qemu_usage_test.Devices.Gates.{Idt}
use qemu_usage_test.Devices.Ide.{
  read8, Log, outb, insw, outsw, sector_size, reg_data, reg_status, reg_command, select_disk_wait,
  select_sector, wait_while_busy,
}
use qemu_usage_test.Devices.Ide.Info.{manipulate_info_string}

pub record AtaDisk : Type 0 where
  pub dev_no : ℕ
  pub is_ata_disk : Bool
  pub nr_sectors : ℕ

pub record AtaAdaptor : Type 0 where
  pub reg_base : ℕ
  pub irq : ℕ
  pub slock : ℕ
  pub sema_wait : Semaphore
  pub sema_rw : Semaphore
  pub ata_disks : ℕ → AtaDisk

-- The driver's state and what it shares with the rest; the memory is that of the block devices.
pub record Ide : Type 0 where
  pub channels : ℕ → AtaAdaptor
  pub log : Log
  pub sched : Sched
  pub devices : BlockDevices
  pub idt : Idt

abbrev pub nr_ata_adaptors : ℕ
nr_ata_adaptors = 2

abbrev pub nr_ata_disks : ℕ
nr_ata_disks = 2

abbrev pub cmd_identify_device : ℕ
cmd_identify_device = 0xec

abbrev pub cmd_read_sector_retry : ℕ
cmd_read_sector_retry = 0x20

abbrev pub cmd_write_sector_retry : ℕ
cmd_write_sector_retry = 0x30

abbrev pub set_channel : ℕ → AtaAdaptor → Ide → Ide
set_channel c chan s = record s { channels = λ d. if d == c then chan else s.channels d }

abbrev pub set_disk : ℕ → ℕ → AtaDisk → Ide → Ide
set_disk c d disk s =
    let chan = s.channels c in
    set_channel c (record chan { ata_disks = λ e. if e == d then disk else chan.ata_disks e }) s

abbrev pub set_mem : Memory → Ide → Ide
set_mem mem s = record s { devices = record (s.devices) { mem = mem } }

-- sema_up(&chan->sema_wait) and sema_up(&chan->sema_rw)
unfoldable pub up_wait : ℕ → Ide → Outcome Ide
up_wait c s = do
  let chan = s.channels c
  r ← sema_up chan.sema_wait s.sched
  done (set_channel c (record chan { sema_wait = r.0 }) (record s { sched = r.1 }))

unfoldable pub up_rw : ℕ → Ide → Outcome Ide
up_rw c s = do
  let chan = s.channels c
  r ← sema_up chan.sema_rw s.sched
  done (set_channel c (record chan { sema_rw = r.0 }) (record s { sched = r.1 }))

-- The loop over the adaptors from `i` on, with `n` of them left. Reading the status ends the interrupt.
pub interrupt_loop : ℕ → ℕ → ℕ → Ide → Outcome Ide
unfolding up_wait
interrupt_loop zero i vec_no s = done s
interrupt_loop (suc n) i vec_no s =
    let rest = interrupt_loop n (i + 1) vec_no s in
    let chan = s.channels i in
    if chan.irq == vec_no
    then up_wait i (record s { log = read8 (reg_status chan.reg_base) ∷ s.log })
    else rest

unfoldable pub ide_interrupt : ℕ → Ide → Outcome Ide
unfolding interrupt_loop
ide_interrupt vec_no s = interrupt_loop nr_ata_adaptors 0 vec_no s

-- The number of sectors, and the strings; both lie in the buffer at `id`.
pub identified : ℕ → ℕ → ℕ → Ide → Outcome Ide
identified id c d s = do
  let disk = (s.channels c).ata_disks d
  let at = s.devices.mem
  let nr_sectors =
      at (id + 120) + 2 ^ 8 * at (id + 121) + 2 ^ 16 * at (id + 122) + 2 ^ 24 * at (id + 123)
  mem ← manipulate_info_string (id + 20) 20 at
  mem ← manipulate_info_string (id + 54) 40 mem
  done (set_mem mem (set_disk c d (record disk { nr_sectors = nr_sectors }) s))

-- interrupt_enable is not seen here: what comes in between is `meanwhile`.
unfoldable pub issue_pio_cmd : ℕ → ℕ → Ide → Ide
issue_pio_cmd c cmd s = record s { log = outb (reg_command (s.channels c).reg_base) cmd s.log }

-- `device` answers for the ports. `meanwhile` is what interrupts do before a wait for one, and what
-- others do while this task sleeps, until it runs again.
module _ (device : Log → ℕ → ℕ) (meanwhile : Ide → Outcome Ide) where
  -- sema_down(&chan->sema_wait) and sema_down(&chan->sema_rw)
  unfoldable pub down_wait : ℕ → Ide → Outcome Ide
  down_wait c s = do
    s ← meanwhile s
    let chan = s.channels c
    r ← sema_down chan.sema_wait s.sched
    let s' = set_channel c (record chan { sema_wait = r.0 }) (record s { sched = r.1 })
    if not_positive chan.sema_wait.count then meanwhile s' else done s'

  unfoldable pub down_rw : ℕ → Ide → Outcome Ide
  down_rw c s = do
    let chan = s.channels c
    r ← sema_down chan.sema_rw s.sched
    let s' = set_channel c (record chan { sema_rw = r.0 }) (record s { sched = r.1 })
    if not_positive chan.sema_rw.count then meanwhile s' else done s'

  unfoldable pub poll : ℕ → Ide → Bool × Ide
  poll c s =
      let (ok, log) = wait_while_busy device (s.channels c).reg_base s.log in
      (ok, record s { log = log })

  -- input_sector and output_sector
  unfoldable pub input_sector : ℕ → ℕ → Ide → Ide
  input_sector c buf s =
      let (mem, log) = insw device (reg_data (s.channels c).reg_base) buf 256 s.devices.mem s.log in
      set_mem mem (record s { log = log })

  unfoldable pub output_sector : ℕ → ℕ → Ide → Ide
  output_sector c buf s = record s {
    log = outsw (reg_data (s.channels c).reg_base) buf 256 s.devices.mem s.log;
  }

  unfoldable pub seek : ℕ → ℕ → ℕ → Ide → Ide
  seek c d sect_no s =
      let chan = s.channels c in
      record s { log = select_sector device chan.reg_base (chan.ata_disks d).dev_no sect_no s.log }

  -- The two branches on what `wait_while_busy` gives; an error is `(size_t)-1`.
  unfoldable pub read_answer : ℕ → ℕ → Bool × Ide → ℕ × Ide
  read_answer buf c (true, s) = (sector_size, input_sector c buf s)
  read_answer buf c (false, s) = (2 ^ 32 - 1, s)

  unfoldable pub write_answer : ℕ → ℕ → Bool × Ide → Outcome (ℕ × Ide)
  write_answer buf c (true, s) = do s ← down_wait c (output_sector c buf s); done (sector_size, s)
  write_answer buf c (false, s) = done (2 ^ 32 - 1, s)

  unfoldable pub ide_read : ℕ → ℕ → ℕ → ℕ → Ide → Outcome (ℕ × Ide)
  ide_read buf sect_no c d s = do
    s ← down_rw c s
    let s = issue_pio_cmd c cmd_read_sector_retry (seek c d sect_no s)
    s ← down_wait c s
    let (ret, s) = read_answer buf c (poll c s)
    s ← up_rw c s
    done (ret, s)

  unfoldable pub ide_write : ℕ → ℕ → ℕ → ℕ → Ide → Outcome (ℕ × Ide)
  ide_write buf sect_no c d s = do
    s ← down_rw c s
    let s = issue_pio_cmd c cmd_write_sector_retry (seek c d sect_no s)
    r ← write_answer buf c (poll c s)
    s ← up_rw c r.1
    done (r.0, s)

  -- `id` is the address of the buffer; the strings in it are only printed.
  pub identify_ata_device : ℕ → ℕ → ℕ → Ide → Outcome Ide
  identify_ata_device id c d s = do
    let chan = s.channels c
    let disk = chan.ata_disks d
    let selected = record s { log = select_disk_wait device chan.reg_base disk.dev_no s.log }
    if not disk.is_ata_disk then done s else (do
      s ← down_wait c (issue_pio_cmd c cmd_identify_device selected)
      let (ok, s) = poll c s
      if not ok
          then done (set_disk c d (record ((s.channels c).ata_disks d) { is_ata_disk = false }) s)
          else identified id c d (input_sector c id s))
