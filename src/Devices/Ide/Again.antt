-- ===== src/Devices/Ide/Again.antt =====
-- A sector that is written to a disk and read again, through the block devices.
use qemu_usage_test.Base.{ℕ, ◌+◌, ◌<◌, ◌≡◌, refl, ◌∙◌, true, [], ◌∷◌, Outcome, done, ◌>>=◌, lt→ltb}
use qemu_usage_test.Memory.{Memory}
use qemu_usage_test.Devices.Ide.{
  read8, Log, outsw, reg_data, reg_status, wait_while_busy, select_sector,
}
use qemu_usage_test.Devices.Ide.Transfer.{Ide, cmd_read_sector_retry, cmd_write_sector_retry}
use qemu_usage_test.Devices.Ide.Start.{Places}
use qemu_usage_test.Devices.Ide.Settled.{Unused, accessed}
use qemu_usage_test.Devices.Ide.Returns.{commanded, read_result}
use qemu_usage_test.Devices.Ide.Sent.{data_sent, Repeated, outsw-data_sent, commands-Repeated}
use mathlib.Core.Path.{subst}
use qemu_usage_test.Devices.Ide.Copy.{words, Gives, insw-outsw}
use qemu_usage_test.Devices.Ide.Blocks.{
  IsDisk, read_block, write_block, read_block-Returns, write_block-Returns,
}

-- Accesses and another memory do not change who uses an adaptor.
pub Unused-accessed :
    (c : ℕ) (log : Log) (mem : Memory) (s : Ide) → Unused c s → Unused c (accessed log mem s)
Unused-accessed c log mem s u = record {
  adaptor = u.adaptor;
  apart = u.apart;
  lock_free = u.lock_free;
  rw_free = u.rw_free;
  rw_count = u.rw_count;
  rw_empty = u.rw_empty;
  wait_free = u.wait_free;
  wait_count = u.wait_count;
  wait_empty = u.wait_empty;
}

module _ (at : Places) (device : Log → ℕ → ℕ) (meanwhile : Ide → Outcome Ide) where
  pub IsDisk-accessed :
      (blk c d : ℕ) (log : Log) (mem : Memory) (s : Ide)
      → IsDisk at device meanwhile blk c d s
      → IsDisk at device meanwhile blk c d (accessed log mem s)
  IsDisk-accessed blk c d log mem s is = record {
    ops = is.ops;
    params = is.params;
    unused = Unused-accessed c log mem s is.unused;
    interrupted = is.interrupted;
  }

  module _ (blk q sector c d : ℕ) (s : Ide) where
    -- The registers of the adaptor, and the state behind a write of the buffer at `q`.
    abbrev pub base : ℕ
    base = (s.channels c).reg_base

    abbrev pub written : Log → Ide
    written log =
        accessed (read8 (reg_status base) ∷ outsw (reg_data base) q 256 s.devices.mem log)
          s.devices.mem s

    -- On a block device that is a disk of the driver, on an adaptor that nobody uses and whose
    -- interrupt comes before the wait for it, for a sector that the disk has, memory of bytes,
    -- and polls that end with the disk ready: if the data port, where the last commands were a
    -- write and then a read with the same values in the registers for count, number and device,
    -- gives the words that the accesses of the write sent, then `block_write` of a buffer and
    -- `block_read` of the same sector into a buffer succeed, the second buffer has the bytes of
    -- the first, and the adaptor is unused again.
    pub read_block-write_block :
        (p : ℕ) (log_written log_read : Log)
        → IsDisk at device meanwhile blk c d s
        → sector < (s.devices.blocks blk).nr_sectors
        → ((a : ℕ) → s.devices.mem a < 256)
        → wait_while_busy device base
            (commanded device meanwhile c d sector cmd_write_sector_retry s)
          ≡ (true, log_written)
        → wait_while_busy device base (
            read8 (reg_status base)
            ∷ commanded device meanwhile c d sector cmd_read_sector_retry (written log_written))
          ≡ (true, log_read)
        → (Repeated base log_written log_read
            → Gives device (reg_data base) (data_sent base (written log_written).log []) log_read)
        → (s' : Ide) × ((write_block at device meanwhile blk q sector s >>= λ r.
              read_block at device meanwhile blk p sector r.1)
            ≡ done (512, s'))
          × ((k : ℕ) → k < 512 → s'.devices.mem (p + k) ≡ s.devices.mem (q + k))
          × Unused c s'
    read_block-write_block p log_written log_read is inside bytes wrote read gives =
        let s1 = written log_written in
        let is1 = IsDisk-accessed blk c d _ s.devices.mem s is in
        let e1 : write_block at device meanwhile blk q sector s ≡ done (512, s1) =
          write_block-Returns at device meanwhile blk q sector c d s true log_written is wrote
          ∙ rw (lt→ltb sector (s.devices.blocks blk).nr_sectors inside) refl in
        let e2 : read_block at device meanwhile blk p sector s1
            ≡ done (read_result device meanwhile c p true log_read s1) =
          read_block-Returns at device meanwhile blk p sector c d s1 true log_read is1 read
          ∙ rw (lt→ltb sector (s.devices.blocks blk).nr_sectors inside) refl in
        let repeated : Repeated base log_written log_read =
          commands-Repeated device base ((s.channels c).ata_disks d).dev_no sector s.log s1.log
            log_written log_read true true wrote read in
        let sent : data_sent base s1.log [] ≡ words q 256 s.devices.mem =
          outsw-data_sent device base cmd_write_sector_retry q 256 s.devices.mem
            (select_sector device base ((s.channels c).ata_disks d).dev_no sector s.log) log_written
            true wrote in
        (
          (read_result device meanwhile c p true log_read s1).1,
          rw (e1, e2) refl,
          λ k h.
              (insw-outsw device (reg_data base) p q 256 k s.devices.mem s.devices.mem log_read
                log_read bytes
                (subst (λ ws. Gives device (reg_data base) ws log_read) sent (gives repeated)) h).1,
          Unused-accessed c _ _ s is.unused,
        )
