-- ===== src/Devices/Ide/Tests.antt =====
-- The driver at a disk that is always ready, or never is.
use qemu_usage_test.Base.{
  ℕ, ◌+◌, ◌*◌, ◌%◌, ◌≡◌, refl, true, false, [], ◌∷◌, Outcome, done, ◌==◌, if◌then◌else◌, get_or,
  arith,
}
use qemu_usage_test.Memory.{Memory}
use qemu_usage_test.Sched.{task_ready, task_blocked}
use qemu_usage_test.Sched.Sample.{kernel}
use qemu_usage_test.Links.{list_empty}
use qemu_usage_test.Semaphore.{Semaphore}
use qemu_usage_test.Devices.Ide.{
  read8, Log, reg_alt_status, check_disk_type, select_sector, select_disk_wait, wait_while_busy,
  busy_loop,
}
use qemu_usage_test.Devices.Ide.Polls.{Polled, wait_while_busy-Polled}
use qemu_usage_test.Devices.Ide.Info.{
  InfoString, manipulate_info_string, manipulate_info_string-InfoString,
}
use qemu_usage_test.Devices.Ide.Sector.{Addressed, select_sector-Addressed}
use qemu_usage_test.Devices.Ide.Transfer.{Ide, AtaAdaptor, ide_interrupt, ide_read, ide_write}
use qemu_usage_test.Devices.Ide.Start.{init_channel}
use qemu_usage_test.Devices.Ide.Settled.{Unused}
use qemu_usage_test.Devices.Ide.Returns.{
  commanded, read_result, write_result, ide_read-Returns, ide_write-Returns,
}
use qemu_usage_test.Devices.Ide.Setup.{init_channel-Unused}

-- The alternate status says ready with data, the other registers answer 0.
abbrev ready_device : Log → ℕ → ℕ
ready_device log port = if port == 0x3f6 then 0x48 else 0

abbrev busy_device : Log → ℕ → ℕ
busy_device log port = 0x80

abbrev semaphore : ℕ → ℕ → Semaphore
semaphore wait count = record { slock = 1; count = count; wait = wait }

abbrev adaptor : ℕ → AtaAdaptor
adaptor c = record {
  reg_base = if c == 0 then 0x1f0 else 0x170;
  irq = 46 + c;
  slock = 1;
  sema_wait = semaphore (0x7000 + 0x100 * c) 0;
  sema_rw = semaphore (0x7080 + 0x100 * c) 1;
  ata_disks = λ d. record { dev_no = d; is_ata_disk = true; nr_sectors = 1000 };
}

abbrev driver : Ide
driver = record {
  channels = adaptor;
  log = [];
  sched = kernel task_ready task_blocked;
  devices = record {
    links = record { next = λ a. a; prev = λ a. a };
    blocks = λ b. record { nr_sectors = 0; ops = 0; params = 0 };
    mem = λ a. a % 256;
    block_devices = 10;
  };
  idt = record { idt_table = []; isr_table = [] };
}

-- The interrupt of the first adaptor.
abbrev interrupt : Ide → Outcome Ide
interrupt t = ide_interrupt 46 t

idle_lists :
    (list_empty 0x7000 driver.sched.links ≡ true) × (list_empty 0x7080 driver.sched.links ≡ true)
unfolding list_empty
idle_lists = (refl, refl)

driver-Unused : Unused 0 driver
driver-Unused = record {
  adaptor = omega arith;
  apart = omega arith;
  lock_free = refl;
  rw_free = refl;
  rw_count = refl;
  rw_empty = idle_lists.1;
  wait_free = refl;
  wait_count = refl;
  wait_empty = idle_lists.0;
}

-- A disk that signs on as the first one with the signature of ATA, and a device that is no disk.
check_disk_runs :
    ((check_disk_type
        (λ log port. if port == 0x1f1 then 1 else if port == 0x1f7 then 0x50 else 0)
        0x1f0
        0
        []).1
      ≡ true)
    × ((check_disk_type busy_device 0x1f0 0 []).1 ≡ false)
unfolding check_disk_type
check_disk_runs = (refl, refl)

ready_run :
    (log : Log) → wait_while_busy ready_device 0x1f0 log ≡ (true, read8 0x3f6 ∷ read8 0x3f6 ∷ log)
unfolding wait_while_busy busy_loop
ready_run log = refl

ide_read-Returns_example :
    ide_read ready_device interrupt 0x5000 300 0 1 driver
    ≡ done (
        read_result ready_device interrupt 0 0x5000 true
          (read8 0x3f6
            ∷ read8 0x3f6
            ∷ read8 0x1f7
            ∷ commanded ready_device interrupt 0 1 300 0x20 driver)
          driver)
ide_read-Returns_example =
    ide_read-Returns ready_device interrupt 0x5000 300 0 1 driver true
      (read8 0x3f6
        ∷ read8 0x3f6
        ∷ read8 0x1f7
        ∷ commanded ready_device interrupt 0 1 300 0x20 driver)
      driver-Unused (λ t. refl)
      (ready_run (read8 0x1f7 ∷ commanded ready_device interrupt 0 1 300 0x20 driver))

ide_write-Returns_example :
    ide_write ready_device interrupt 0x5000 300 0 1 driver
    ≡ done (
        write_result ready_device interrupt 0 0x5000 true
          (read8 0x3f6 ∷ read8 0x3f6 ∷ commanded ready_device interrupt 0 1 300 0x30 driver)
          driver)
ide_write-Returns_example =
    ide_write-Returns ready_device interrupt 0x5000 300 0 1 driver true
      (read8 0x3f6 ∷ read8 0x3f6 ∷ commanded ready_device interrupt 0 1 300 0x30 driver)
      driver-Unused (λ t. refl) (ready_run (commanded ready_device interrupt 0 1 300 0x30 driver))

wait_while_busy-Polled_example :
    Polled ready_device (reg_alt_status 0x1f0) 3000 [] (wait_while_busy ready_device 0x1f0 [])
wait_while_busy-Polled_example = wait_while_busy-Polled ready_device 0x1f0 []

-- "BADC" as the device sends it, which becomes "ABC".
abbrev info : Memory
info a = get_or (b'B' ∷ b'A' ∷ b'D' ∷ b'C' ∷ []) a 0

manipulate_info_string-InfoString_example : InfoString 0 2 info (manipulate_info_string 0 4 info)
manipulate_info_string-InfoString_example =
    manipulate_info_string-InfoString 2 0 info (omega arith) (omega arith)

select_sector-Addressed_example :
    Addressed 0x1f0 1 123456789
      (select_disk_wait ready_device 0x1f0 1 [])
      (select_sector ready_device 0x1f0 1 123456789 [])
select_sector-Addressed_example =
    select_sector-Addressed ready_device 0x1f0 1 123456789 [] (omega arith)

init_channel-Unused_example :
    Unused 0 (init_channel 1 (init_channel 0 driver))
    × Unused 1 (init_channel 1 (init_channel 0 driver))
init_channel-Unused_example = init_channel-Unused driver (record {
  first = omega arith;
  second = omega arith;
  waits = omega arith;
  wait_rw = omega arith;
  rw_wait = omega arith;
  rws = omega arith;
})
