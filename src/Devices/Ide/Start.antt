-- ===== src/Devices/Ide/Start.antt =====
-- devices/ide.c, ide_init: the adaptors and disks are set up, reset, identified and registered.
use qemu_usage_test.Base.{
  ℕ, zero, suc, ◌+◌, ◌*◌, Bool, [], ◌∷◌, Outcome, done, ◌>>=◌, if◌then◌else◌, ◌==◌,
}
use qemu_usage_test.Format.{sprintf}
use qemu_usage_test.Spin.{spin_lock_init}
use qemu_usage_test.Semaphore.{sema_init}
use qemu_usage_test.Devices.Gates.{set_interrupt_gate}
use qemu_usage_test.Devices.Block.{block_register}
use qemu_usage_test.Devices.Ide.{Log, reset_adaptor, check_disk_type}
use qemu_usage_test.Devices.Ide.Transfer.{
  Ide, nr_ata_disks, set_channel, set_disk, set_mem, identify_ata_device,
}

-- Where the objects of the driver lie.
pub record Places : Type 0 where
  pub chan_name : ℕ → ℕ
  pub ata_disk : ℕ → ℕ → ℕ
  pub ide_disk : ℕ → ℕ
  pub ide_ops : ℕ
  pub chan_format : ℕ
  pub disk_format : ℕ
  pub id : ℕ
  pub ide_interrupt_at : ℕ

-- chan_reg_bases and chan_irqs
abbrev pub chan_reg_base : ℕ → ℕ
chan_reg_base chan_no = if chan_no == 0 then 0x1f0 else 0x170

abbrev pub chan_irq : ℕ → ℕ
chan_irq chan_no = if chan_no == 0 then 14 + 0x20 else 15 + 0x20

unfoldable pub init_channel : ℕ → Ide → Ide
init_channel chan_no s =
    let chan = s.channels chan_no in
    let (sema_wait, sched) = sema_init chan.sema_wait 0 s.sched in
    let (sema_rw, sched) = sema_init chan.sema_rw 1 sched in
    set_channel chan_no
      (record chan {
        reg_base = chan_reg_base chan_no;
        irq = chan_irq chan_no;
        slock = spin_lock_init chan.slock;
        sema_wait = sema_wait;
        sema_rw = sema_rw;
      })
      (record s { sched = sched })

module _ (device : Log → ℕ → ℕ) (meanwhile : Ide → Outcome Ide) (isr_stubs : ℕ → ℕ)
    (at : Places) where
  -- The loop over the disks from `d` on, with `n` of them left. A disk's name is at its start.
  unfoldable pub name_disks : ℕ → ℕ → ℕ → Ide → Outcome Ide
  name_disks c zero d s = done s
  name_disks c (suc n) d s = do
    let s = set_disk c d (record ((s.channels c).ata_disks d) { dev_no = d }) s
    r ← sprintf (at.ata_disk c d) at.disk_format ((b'a' + c * nr_ata_disks + d) ∷ []) s.devices.mem
    name_disks c n (d + 1) (set_mem r.1 s)

  -- check_disk_type(&chan->ata_disks[d])
  unfoldable pub check_disk : ℕ → ℕ → Ide → Bool × Ide
  check_disk c d s =
      let chan = s.channels c in
      let disk = chan.ata_disks d in
      let (ret, is_ata_disk, log) = check_disk_type device chan.reg_base disk.dev_no s.log in
      (ret, set_disk c d (record disk { is_ata_disk = is_ata_disk }) (record s { log = log }))

  unfoldable pub check_disks : ℕ → Ide → Ide
  unfolding check_disk
  check_disks c s =
      let (more, s) = check_disk c 0 s in
      let (more', s') = check_disk c 1 s in if more then s' else s

  -- The loop over the disks from `d` on, with `n` of them left.
  unfoldable pub register_disks : ℕ → ℕ → ℕ → Ide → Outcome Ide
  register_disks c zero d s = done s
  register_disks c (suc n) d s =
      if ((s.channels c).ata_disks d).is_ata_disk
      then (do
        s ← identify_ata_device device meanwhile at.id c d s
        let disk = at.ata_disk c d
        r ←
            block_register (at.ide_disk (c * nr_ata_disks + d)) disk
              ((s.channels c).ata_disks d).nr_sectors at.ide_ops disk s.devices
        register_disks c n (d + 1) (record s { devices = r.1 }))
      else register_disks c n (d + 1) s

  unfoldable pub init_adaptor : ℕ → Ide → Outcome Ide
  unfolding init_channel name_disks check_disks register_disks
  init_adaptor c s = do
    r ← sprintf (at.chan_name c) at.chan_format (c ∷ []) s.devices.mem
    s ← name_disks c nr_ata_disks 0 (init_channel c (set_mem r.1 s))
    idt ← set_interrupt_gate isr_stubs (chan_irq c) at.ide_interrupt_at s.idt
    let s = record s { idt = idt }
    let s = record s { log = reset_adaptor device (s.channels c).reg_base s.log }
    register_disks c nr_ata_disks 0 (check_disks c s)

  -- The loop over the adaptors from `c` on, with `n` of them left.
  pub ide_init : ℕ → ℕ → Ide → Outcome Ide
  unfolding init_adaptor
  ide_init zero c s = done s
  ide_init (suc n) c s = do s ← init_adaptor c s; ide_init n (c + 1) s
