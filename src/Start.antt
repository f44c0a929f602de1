-- ===== src/Start.antt =====
-- kernel/init.c: `main`, and the handlers and the task that only print. All of it runs on one memory,
-- which each part of the state holds while it works.
pub mod Gates
pub mod Sector
pub mod Sample
mod Tests
use qemu_usage_test.Base.{
  ℕ, ◌+◌, ◌^◌, Bool, true, List, [], ◌∷◌, ◌++◌, Outcome, done, fault, ◌>>=◌, ◌==◌, if◌then◌else◌,
  u8,
}
use qemu_usage_test.Memory.{Memory, null}
use qemu_usage_test.Spin.{spin_lock, spin_unlock, spin_lock_init}
use qemu_usage_test.Paging.{bss_init, init_memory}
use qemu_usage_test.Sched.{Sched, task_exit}
use qemu_usage_test.Sched.Start.{sched_init}
use qemu_usage_test.Semaphore.{Semaphore, sema_up}
use qemu_usage_test.Printk.{printk}
use qemu_usage_test.Devices.{PortWrite}
use qemu_usage_test.Devices.Timer.{hw_timer_init}
use qemu_usage_test.Devices.Gates.{Idt, init_interrupt, set_trap_gate}
use qemu_usage_test.Devices.Fb.{Screen}
use qemu_usage_test.Devices.Kbd.{kbd_init}
use qemu_usage_test.Devices.Serial.{serial_init}
use qemu_usage_test.Devices.Block.{block_init, blcok_get_by_name}
use qemu_usage_test.Devices.Ide.{Log}
use qemu_usage_test.Devices.Ide.Transfer.{Ide, nr_ata_adaptors, set_mem}
use qemu_usage_test.Devices.Ide.Start.{Places, ide_init}
use qemu_usage_test.Devices.Ide.Blocks.{read_block}

-- `ide` has the scheduler, the interrupt table, the block devices and the memory; `writes` are those
-- of the drivers without a log of their own, and `cr3` is what set_cr3 was given.
pub record Machine : Type 0 where
  pub ide : Ide
  pub screen : Screen
  pub writes : List PortWrite
  pub sema_write : Semaphore
  pub lock : ℕ
  pub cr3 : ℕ

-- Where the linker and the stack put things: sections, handlers, routines, strings and buffers.
pub record Layout : Type 0 where
  pub start_bss : ℕ
  pub end_bss : ℕ
  pub start : ℕ
  pub end_text : ℕ
  pub isr_stubs : ℕ → ℕ
  pub default_isr : ℕ
  pub systick : ℕ
  pub serial_interrupt : ℕ
  pub kbd_interrupt : ℕ
  pub divide_error : ℕ
  pub task_exit : ℕ
  pub switch_initial : ℕ
  pub idle_proc : ℕ
  pub idle_sema : ℕ
  pub printk_buf : ℕ
  pub isr_format : ℕ
  pub blk_format : ℕ
  pub sector_format : ℕ
  pub hda : ℕ
  pub buf : ℕ
  pub ide : Places

abbrev pub memory : Machine → Memory
memory m = m.ide.devices.mem

abbrev pub with_sched : Sched → Machine → Machine
with_sched s m = record m { ide = set_mem s.mem (record (m.ide) { sched = s }) }

-- The scheduler's state with the memory as it is now.
abbrev pub sched_of : Machine → Sched
sched_of m = record (m.ide.sched) { mem = memory m }

abbrev pub with_idt : Idt → Machine → Machine
with_idt idt m = record m { ide = record (m.ide) { idt = idt } }

abbrev pub with_writes : List PortWrite → Machine → Machine
with_writes writes m = record m { writes = m.writes ++ writes }

-- `high` and `low` are what the cursor's port answers.
module _ (at : Layout) (high low : ℕ) where
  -- printk
  unfoldable pub say : ℕ → List ℕ → Machine → Outcome Machine
  say fmt args m = do
    r ← printk at.printk_buf fmt args high low (record (m.screen) { mem = memory m })
    done (record m { screen = r.1; ide = set_mem r.1.mem m.ide })

  -- The handler for vectors without one of their own; `format` is where its message is.
  pub default_isr : ℕ → ℕ → ℕ → Machine → Outcome Machine
  unfolding say
  default_isr format vec_no error_code m = say format (vec_no ∷ error_code ∷ []) m

  unfoldable pub divide_error : ℕ → ℕ → Machine → Outcome Machine
  unfolding say
  divide_error format error_code m = do
    lock ← spin_lock m.lock
    m ← say format (error_code ∷ []) (record m { lock = lock })
    done (record m { lock = spin_unlock m.lock })

  -- idle_proc up to its endless loop; `params` is NULL or the address of the semaphore `sema`.
  pub idle_proc : ℕ → ℕ → ℕ → Semaphore → Machine → Outcome (Semaphore × Machine)
  unfolding say
  idle_proc current_format param_format params sema m = do
    m ← say current_format (m.ide.sched.current ∷ []) m
    m ← say param_format (params ∷ []) m
    if params == null
        then done (sema, m)
        else (do r ← sema_up sema (sched_of m); done (r.0, with_sched r.1 m))

  -- bss_init, mm_init and kernel_pg_dir_init; `words` is what lies where the pool's bitmap is put.
  unfoldable pub start_memory : List ℕ → ℕ → Machine → Outcome Machine
  start_memory words init_ram_pages m = do
    let mem = bss_init at.start_bss at.end_bss (memory m)
    (cr3, pool, mem) ← init_memory words at.start at.end_text init_ram_pages mem
    done (with_sched (record (m.ide.sched) { pool = pool; mem = mem }) (record m { cr3 = cr3 }))

  -- init_interrupt, hw_timer_init, serial_init and kbd_init; `lcr` is what the line control register
  -- of the serial port answers.
  unfoldable pub start_interrupts : ℕ → Machine → Outcome Machine
  start_interrupts lcr m = do
    (idt, writes) ← init_interrupt at.isr_stubs at.default_isr m.ide.idt
    (idt, timer_writes) ← hw_timer_init at.isr_stubs at.systick idt
    (serial_writes, sema_write, idt, s) ←
        serial_init at.isr_stubs at.serial_interrupt lcr m.sema_write idt (sched_of m)
    idt ← kbd_init at.isr_stubs at.kbd_interrupt idt
    let m = with_idt idt (with_sched s (record m { sema_write = sema_write }))
    done (with_writes (writes ++ timer_writes ++ serial_writes) m)

  -- `device` answers for the ports of the disks; `meanwhile` is what others do while this task sleeps.
  module _ (device : Log → ℕ → ℕ) (meanwhile : Ide → Outcome Ide) where
    -- sched_init, block_init and ide_init; the first of them waits for the idle task.
    unfoldable pub start_tasks : Machine → Outcome Machine
    start_tasks m = do
      (sema, s) ← sched_init at.task_exit at.switch_initial at.idle_proc at.idle_sema (sched_of m)
      let m = with_sched s m
      s ← meanwhile m.ide
      let s = record s { devices = block_init s.devices }
      s ← ide_init device meanwhile at.isr_stubs at.ide nr_ata_adaptors 0 s
      done (record m { ide = s })

    -- The handler of vector 14
    unfoldable pub start_trap : Machine → Outcome Machine
    start_trap m = do
      let m = record m { lock = spin_lock_init m.lock }
      m ← say at.isr_format (at.divide_error ∷ []) m
      idt ← set_trap_gate at.isr_stubs 0x0e at.divide_error m.ide.idt
      done (with_idt idt m)

    -- The first sector of "hda"; NULL points to no device.
    unfoldable pub show_sector : Machine → Outcome Machine
    unfolding say
    show_sector m = do
      blk ← blcok_get_by_name at.hda m.ide.devices
      if blk == null then fault else (do
        m ← say at.blk_format ((m.ide.devices.blocks blk).nr_sectors ∷ []) m
        r ← read_block at.ide device meanwhile blk at.buf 0 m.ide
        let m = record m { ide = r.1 }
        say at.sector_format (u8 (memory m (at.buf + 510)) ∷ []) m)

    unfoldable pub main : List ℕ → ℕ → ℕ → Machine → Outcome Machine
    main words init_ram_pages lcr m = do
      m ← start_memory words init_ram_pages m
      m ← start_interrupts lcr m
      m ← start_tasks m
      m ← start_trap m
      m ← show_sector m
      s ← task_exit (sched_of m)
      done (with_sched s m)
