-- ===== src/Start/Sample.antt =====
-- A machine with the disk "hda", which is always ready, for tests.
use qemu_usage_test.Base.{
  ℕ, zero, suc, ◌+◌, ◌-◌, ◌*◌, ◌%◌, ◌≡◌, refl, true, List, [], ◌∷◌, none, ltb, ◌==◌, if◌then◌else◌,
  get_or, replicate, arith, Outcome,
}
use qemu_usage_test.Memory.{Memory}
use qemu_usage_test.Links.{list_empty}
use qemu_usage_test.Sched.{task_ready, task_blocked}
use qemu_usage_test.Sched.Sample.{kernel}
use qemu_usage_test.Devices.Gates.Laws.{no_entry}
use qemu_usage_test.Devices.Block.{BlockDevices}
use qemu_usage_test.Devices.Ide.{read8, read16, Log, wait_while_busy, busy_loop}
use qemu_usage_test.Devices.Ide.Transfer.{Ide, ide_interrupt}
use qemu_usage_test.Devices.Ide.Copy.{words, Gives}
use qemu_usage_test.Devices.Ide.Blocks.{IsDisk, disk_at}
use qemu_usage_test.Start.{Machine, Layout}

abbrev pub layout : Layout
layout = record {
  start_bss = 0;
  end_bss = 0;
  start = 0;
  end_text = 0;
  isr_stubs = λ n. 0xc0100000 + 16 * (n % 256);
  default_isr = 1;
  systick = 2;
  serial_interrupt = 3;
  kbd_interrupt = 4;
  divide_error = 5;
  task_exit = 6;
  switch_initial = 7;
  idle_proc = 8;
  idle_sema = 0x9000;
  printk_buf = 0x5000;
  isr_format = 1;
  blk_format = 1;
  sector_format = 1;
  hda = 20;
  buf = 0x8000;
  ide = record {
    chan_name = λ c. 0xa000 + 16 * c;
    ata_disk = λ c d. 0x6000 + 256 * c + 16 * d;
    ide_disk = λ n. 100 + 100 * n;
    ide_ops = 0xb000;
    chan_format = 0xb100;
    disk_format = 0xb200;
    id = 0xb300;
    ide_interrupt_at = 9;
  };
}

abbrev pub hda : List ℕ
hda = b'h' ∷ b'd' ∷ b'a' ∷ []

-- The format "blk %d\n" at 1, and the name "hda" at 20 and in the device at 100.
abbrev pub mem : Memory
mem a =
    if ltb a 20
    then get_or (0 ∷ b'b' ∷ b'l' ∷ b'k' ∷ b' ' ∷ b'%' ∷ b'd' ∷ 10 ∷ []) a 0
    else if ltb a 108
    then get_or hda (a - 20) 0
    else get_or hda (a - 108) 0

abbrev pub devices : BlockDevices
devices = record {
  links = record {
    next = λ a. if a == 10 then 100 else if a == 100 then 10 else a;
    prev = λ a. if a == 10 then 100 else if a == 100 then 10 else a;
  };
  blocks = λ b. record { nr_sectors = 8; ops = 0xb000; params = 0x6000 };
  mem = mem;
  block_devices = 10;
}

abbrev pub driver : Ide
driver = record {
  channels = λ c. record {
    reg_base = if c == 0 then 0x1f0 else 0x170;
    irq = 46 + c;
    slock = 1;
    sema_wait = record { slock = 1; count = 0; wait = 0x7000 + 0x100 * c };
    sema_rw = record { slock = 1; count = 1; wait = 0x7080 + 0x100 * c };
    ata_disks = λ d. record { dev_no = d; is_ata_disk = true; nr_sectors = 8 };
  };
  log = [];
  sched = kernel task_ready task_blocked;
  devices = devices;
  idt = record { idt_table = replicate 256 no_entry; isr_table = replicate 256 none };
}

abbrev pub machine : Machine
machine = record {
  ide = driver;
  screen = record { cx = 0; cy = 3; fb = 0xc00b8000; inited = true; mem = mem; writes = [] };
  writes = [];
  sema_write = record { slock = 0; count = 0; wait = 0xc000 };
  lock = 1;
  cr3 = 0;
}

-- Every word of the sector is 0x5555.
abbrev pub device : Log → ℕ → ℕ
device log port = if port == 0x3f6 then 0x48 else if port == 0x1f0 then 0x5555 else 0

abbrev pub image : Memory
image a = 0x55

pub device-Gives : (n p : ℕ) (log : Log) → Gives device 0x1f0 (words p n image) log
device-Gives zero p log = tt
device-Gives (suc n) p log = (refl, device-Gives n (p + 2) (read16 0x1f0 ∷ log))

abbrev pub interrupt : Ide → Outcome Ide
interrupt t = ide_interrupt 46 t

pub idle_lists :
    (list_empty 0x7000 driver.sched.links ≡ true) × (list_empty 0x7080 driver.sched.links ≡ true)
unfolding list_empty
idle_lists = (refl, refl)

pub hda-IsDisk : IsDisk layout.ide device interrupt 100 0 0 driver
hda-IsDisk = record {
  ops = refl;
  params = unfold disk_at in refl;
  unused = record {
    adaptor = omega arith;
    apart = omega arith;
    lock_free = refl;
    rw_free = refl;
    rw_count = refl;
    rw_empty = idle_lists.1;
    wait_free = refl;
    wait_count = refl;
    wait_empty = idle_lists.0;
  };
  interrupted = λ t. refl;
}

pub polls : (log : Log) → wait_while_busy device 0x1f0 log ≡ (true, read8 0x3f6 ∷ read8 0x3f6 ∷ log)
unfolding wait_while_busy busy_loop
polls log = refl
