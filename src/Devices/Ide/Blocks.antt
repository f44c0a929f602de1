-- ===== src/Devices/Ide/Blocks.antt =====
-- The disks of the driver as block devices: block_read and block_write of devices/block.c with the
-- operations ide_ops of devices/ide.c.
use qemu_usage_test.Base.{
  ℕ, ◌≡◌, refl, Bool, ◌∷◌, Option, none, some, Outcome, done, fault, ltb, ◌==◌, if◌then◌else◌,
  eq→==, Bool-cases, inl, inr,
}
use qemu_usage_test.Devices.Block.{block_err, valid_sector_no, block_read, block_write}
use qemu_usage_test.Devices.Ide.{read8, Log, reg_status, wait_while_busy}
use qemu_usage_test.Devices.Ide.Transfer.{
  Ide, ide_read, ide_write, cmd_read_sector_retry, cmd_write_sector_retry,
}
use qemu_usage_test.Devices.Ide.Start.{Places}
use qemu_usage_test.Devices.Ide.Settled.{Unused}
use qemu_usage_test.Devices.Ide.Returns.{
  commanded, Interrupted, read_result, write_result, ide_read-Returns, ide_write-Returns,
}

module _ (at : Places) where
  -- The disk that `params` points to.
  unfoldable pub disk_at : ℕ → Option (ℕ × ℕ)
  disk_at params =
      if params == at.ata_disk 0 0
      then some (0, 0)
      else if params == at.ata_disk 0 1
      then some (0, 1)
      else if params == at.ata_disk 1 0
      then some (1, 0)
      else if params == at.ata_disk 1 1
      then some (1, 1)
      else none

  module _ (device : Log → ℕ → ℕ) (meanwhile : Ide → Outcome Ide) where
    -- ide_ops.read and ide_ops.write; there is nothing at any other address.
    unfoldable pub read_operation : ℕ → ℕ → ℕ → ℕ → Ide → Outcome (ℕ × Ide)
    read_operation ops buf sector params s =
        if ops == at.ide_ops
        then elim (disk_at params) [
          | none ↦ fault
          | some (c, d) ↦ ide_read device meanwhile buf sector c d s
        ]
        else fault

    unfoldable pub write_operation : ℕ → ℕ → ℕ → ℕ → Ide → Outcome (ℕ × Ide)
    write_operation ops buf sector params s =
        if ops == at.ide_ops
        then elim (disk_at params) [
          | none ↦ fault
          | some (c, d) ↦ ide_write device meanwhile buf sector c d s
        ]
        else fault

    -- `block_read(blk, buf, sector)` and `block_write(blk, buf, sector)`
    unfoldable pub read_block : ℕ → ℕ → ℕ → Ide → Outcome (ℕ × Ide)
    unfolding read_operation
    read_block blk buf sector s = block_read read_operation (s.devices.blocks blk) buf sector s

    unfoldable pub write_block : ℕ → ℕ → ℕ → Ide → Outcome (ℕ × Ide)
    unfolding write_operation
    write_block blk buf sector s = block_write write_operation (s.devices.blocks blk) buf sector s

    -- The block device `blk` is the disk `d` of the adaptor `c`, which nobody else uses.
    pub record IsDisk (blk c d : ℕ) (s : Ide) : Type 0 where
      pub ops : (s.devices.blocks blk).ops ≡ at.ide_ops
      pub params : disk_at (s.devices.blocks blk).params ≡ some (c, d)
      pub unused : Unused c s
      pub interrupted : Interrupted device meanwhile c s

    module _ (blk buf sector c d : ℕ) (s : Ide) (ok : Bool) (log : Log)
        (is : IsDisk blk c d s) where
      -- A read from a disk is that of the driver if the disk has the sector, and an error if not.
      pub read_block-Returns :
          wait_while_busy device (s.channels c).reg_base (
              read8 (reg_status (s.channels c).reg_base)
              ∷ commanded device meanwhile c d sector cmd_read_sector_retry s)
            ≡ (ok, log)
          → read_block blk buf sector s
            ≡ done (
                if ltb sector (s.devices.blocks blk).nr_sectors
                then read_result device meanwhile c buf ok log s
                else (block_err, s))
      unfolding read_block block_read valid_sector_no
      read_block-Returns e = elim (Bool-cases (ltb sector (s.devices.blocks blk).nr_sectors)) [
        | inl inside ↦
            rw (inside, eq→== (s.devices.blocks blk).ops at.ide_ops is.ops, is.params)
              (ide_read-Returns device meanwhile buf sector c d s ok log is.unused is.interrupted e)
        | inr beyond ↦ rw beyond refl
      ]

      -- A write to a disk, likewise.
      pub write_block-Returns :
          wait_while_busy device
              (s.channels c).reg_base
              (commanded device meanwhile c d sector cmd_write_sector_retry s)
            ≡ (ok, log)
          → write_block blk buf sector s
            ≡ done (
                if ltb sector (s.devices.blocks blk).nr_sectors
                then write_result device meanwhile c buf ok log s
                else (block_err, s))
      unfolding write_block block_write valid_sector_no
      write_block-Returns e = elim (Bool-cases (ltb sector (s.devices.blocks blk).nr_sectors)) [
        | inl inside ↦
            rw (inside, eq→== (s.devices.blocks blk).ops at.ide_ops is.ops, is.params)
              (ide_write-Returns device meanwhile buf sector c d s ok log is.unused is.interrupted
                e)
        | inr beyond ↦ rw beyond refl
      ]
