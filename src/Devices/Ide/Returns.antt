-- ===== src/Devices/Ide/Returns.antt =====
-- What `ide_read` and `ide_write` give where nobody else uses the adaptor and the interrupt comes.
use qemu_usage_test.Base.{
  ℕ, ◌-◌, ◌^◌, ◌≡◌, refl, sym, ap, ◌∙◌, Bool, true, false, ◌∷◌, Outcome, done,
}
use qemu_usage_test.Memory.{Memory}
use qemu_usage_test.Devices.Ide.{
  read8, Log, outb, insw, outsw, reg_data, reg_status, reg_command, select_sector, wait_while_busy,
}
use qemu_usage_test.Devices.Ide.Transfer.{
  Ide, ide_interrupt, issue_pio_cmd, seek, poll, input_sector, output_sector, read_answer,
  write_answer, ide_read, ide_write, cmd_read_sector_retry, cmd_write_sector_retry,
}
use qemu_usage_test.Devices.Ide.Settled.{
  Unused, accessed, settled, settled-channel, down_rw-settled, down_wait-settled, up_rw-settled,
  Unused-settled,
}

module _ (device : Log → ℕ → ℕ) (meanwhile : Ide → Outcome Ide) where
  -- The accesses up to the command, for the disk `d` of the adaptor `c`.
  abbrev pub commanded : ℕ → ℕ → ℕ → ℕ → Ide → Log
  commanded c d sect_no cmd s =
      let chan = s.channels c in
      outb (reg_command chan.reg_base) cmd
        (select_sector device chan.reg_base (chan.ata_disks d).dev_no sect_no s.log)

  seek-settled :
      (c d sect_no cmd free pending : ℕ) (s : Ide)
      → issue_pio_cmd c cmd
          (seek device meanwhile c d sect_no (settled c free pending s.log s.devices.mem s))
        ≡ settled c free pending (commanded c d sect_no cmd s) s.devices.mem s
  unfolding issue_pio_cmd seek
  seek-settled c d sect_no cmd free pending s =
      rw (settled-channel c free pending s.log s.devices.mem s) refl

  poll-settled :
      (c free pending : ℕ) (log : Log) (mem : Memory) (s : Ide) (ok : Bool) (log' : Log)
      → wait_while_busy device (s.channels c).reg_base log ≡ (ok, log')
      → poll device meanwhile c (settled c free pending log mem s)
        ≡ (ok, settled c free pending log' mem s)
  unfolding poll
  poll-settled c free pending log mem s ok log' e =
      rw (settled-channel c free pending log mem s, e) refl

  input_sector-settled :
      (c buf free pending : ℕ) (log : Log) (mem : Memory) (s : Ide)
      → let r = insw device (reg_data (s.channels c).reg_base) buf 256 mem log in
        input_sector device meanwhile c buf (settled c free pending log mem s)
        ≡ settled c free pending r.1 r.0 s
  unfolding input_sector
  input_sector-settled c buf free pending log mem s =
      rw (settled-channel c free pending log mem s) refl

  output_sector-settled :
      (c buf free pending : ℕ) (log : Log) (mem : Memory) (s : Ide)
      → output_sector device meanwhile c buf (settled c free pending log mem s)
        ≡ settled c free pending (outsw (reg_data (s.channels c).reg_base) buf 256 mem log) mem s
  unfolding output_sector
  output_sector-settled c buf free pending log mem s =
      rw (settled-channel c free pending log mem s) refl

  -- The interrupt comes before the wait for it.
  abbrev pub Interrupted : ℕ → Ide → Type 0
  Interrupted c s = (t : Ide) → meanwhile t ≡ ide_interrupt (s.channels c).irq t

  -- What a read comes to after the polls with the answer `ok`.
  abbrev pub read_result : ℕ → ℕ → Bool → Log → Ide → ℕ × Ide
  read_result c buf true log s =
      let r = insw device (reg_data (s.channels c).reg_base) buf 256 s.devices.mem log in
      (512, accessed r.1 r.0 s)
  read_result c buf false log s = (2 ^ 32 - 1, accessed log s.devices.mem s)

  -- On an adaptor that nobody uses, whose interrupt is what comes before the wait for it, and for
  -- any answers to the polls behind the command, `ide_read` returns: with 512 and the words of
  -- the data port in the buffer if the disk is ready with data, and with an error and the memory
  -- unchanged if not; in both cases only the accesses are added and the adaptor is unused again.
  pub ide_read-Returns :
      (buf sect_no c d : ℕ) (s : Ide) (ok : Bool) (log : Log)
      → Unused c s
      → Interrupted c s
      → let base = (s.channels c).reg_base in
        wait_while_busy device base
            (read8 (reg_status base) ∷ commanded c d sect_no cmd_read_sector_retry s)
          ≡ (ok, log)
        → ide_read device meanwhile buf sect_no c d s ≡ done (read_result c buf ok log s)
  unfolding ide_read read_answer
  ide_read-Returns buf sect_no c d s true log u m e =
      let start = commanded c d sect_no cmd_read_sector_retry s in
      let mem = s.devices.mem in
      let after = read8 (reg_status (s.channels c).reg_base) ∷ start in
      let r = insw device (reg_data (s.channels c).reg_base) buf 256 mem log in
      ap (ide_read device meanwhile buf sect_no c d) (sym (Unused-settled c s.log mem s u))
      ∙ rw
          (
            down_rw-settled device meanwhile c 0 s.log mem s,
            seek-settled c d sect_no cmd_read_sector_retry 0 0 s,
            down_wait-settled device meanwhile c 0 start mem s u m,
            poll-settled c 0 0 after mem s true log e,
            input_sector-settled c buf 0 0 log mem s,
            up_rw-settled c 0 r.1 r.0 s u.rw_empty,
            Unused-settled c r.1 r.0 s u,
          )
          refl
  ide_read-Returns buf sect_no c d s false log u m e =
      let start = commanded c d sect_no cmd_read_sector_retry s in
      let mem = s.devices.mem in
      let after = read8 (reg_status (s.channels c).reg_base) ∷ start in
      ap (ide_read device meanwhile buf sect_no c d) (sym (Unused-settled c s.log mem s u))
      ∙ rw
          (
            down_rw-settled device meanwhile c 0 s.log mem s,
            seek-settled c d sect_no cmd_read_sector_retry 0 0 s,
            down_wait-settled device meanwhile c 0 start mem s u m,
            poll-settled c 0 0 after mem s false log e,
            up_rw-settled c 0 log mem s u.rw_empty,
            Unused-settled c log mem s u,
          )
          refl

  -- What a write comes to: nothing is sent if the disk is not ready.
  abbrev pub write_result : ℕ → ℕ → Bool → Log → Ide → ℕ × Ide
  write_result c buf true log s =
      let base = (s.channels c).reg_base in
      let sent = outsw (reg_data base) buf 256 s.devices.mem log in
      (512, accessed (read8 (reg_status base) ∷ sent) s.devices.mem s)
  write_result c buf false log s = (2 ^ 32 - 1, accessed log s.devices.mem s)

  -- On an adaptor that nobody uses, whose interrupt is what comes before the wait for it, and for
  -- any answers to the polls behind the command, `ide_write` returns: with 512 and the words of
  -- the buffer sent to the data port if the disk is ready for them, and with an error and nothing
  -- sent if not; in both cases only the accesses are added and the adaptor is unused again.
  pub ide_write-Returns :
      (buf sect_no c d : ℕ) (s : Ide) (ok : Bool) (log : Log)
      → Unused c s
      → Interrupted c s
      → wait_while_busy device
          (s.channels c).reg_base
          (commanded c d sect_no cmd_write_sector_retry s)
        ≡ (ok, log)
      → ide_write device meanwhile buf sect_no c d s ≡ done (write_result c buf ok log s)
  unfolding ide_write write_answer
  ide_write-Returns buf sect_no c d s true log u m e =
      let start = commanded c d sect_no cmd_write_sector_retry s in
      let mem = s.devices.mem in
      let base = (s.channels c).reg_base in
      let sent = outsw (reg_data base) buf 256 mem log in
      ap (ide_write device meanwhile buf sect_no c d) (sym (Unused-settled c s.log mem s u))
      ∙ rw
          (
            down_rw-settled device meanwhile c 0 s.log mem s,
            seek-settled c d sect_no cmd_write_sector_retry 0 0 s,
            poll-settled c 0 0 start mem s true log e,
            output_sector-settled c buf 0 0 log mem s,
            down_wait-settled device meanwhile c 0 sent mem s u m,
            up_rw-settled c 0 (read8 (reg_status base) ∷ sent) mem s u.rw_empty,
            Unused-settled c (read8 (reg_status base) ∷ sent) mem s u,
          )
          refl
  ide_write-Returns buf sect_no c d s false log u m e =
      let start = commanded c d sect_no cmd_write_sector_retry s in
      let mem = s.devices.mem in
      ap (ide_write device meanwhile buf sect_no c d) (sym (Unused-settled c s.log mem s u))
      ∙ rw
          (
            down_rw-settled device meanwhile c 0 s.log mem s,
            seek-settled c d sect_no cmd_write_sector_retry 0 0 s,
            poll-settled c 0 0 start mem s false log e,
            up_rw-settled c 0 log mem s u.rw_empty,
            Unused-settled c log mem s u,
          )
          refl
