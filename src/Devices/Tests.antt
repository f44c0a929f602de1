-- ===== src/Devices/Tests.antt =====
-- The theorems at concrete writes, keys and screens.
use qemu_usage_test.Base.{
  ℕ, ◌+◌, ◌*◌, ◌/◌, ◌%◌, ◌^◌, ◌≤◌, ◌<◌, ◌≡◌, ◌≢◌, refl, Bool, true, false, ◌==◌, if◌then◌else◌,
  ne→==, truth, bit_and, done, List, [], ◌∷◌, Option, none, some, replicate, length-replicate,
  arith,
}
use qemu_usage_test.Devices.{PortWrite, outb, outw}
use qemu_usage_test.Devices.Timer.{timer_counter, tick_hz, systick_intr}
use qemu_usage_test.Devices.Timer.Laws.{counted, timer_counter_exact}
use qemu_usage_test.Devices.Gates.{
  Idt, Cpu, set_interrupt_gate, set_trap_gate, set_system_gate, generic_isr,
}
use qemu_usage_test.Devices.Gates.Laws.{Gate, IsIdt, no_entry, set_gate_lem}
use qemu_usage_test.Devices.Gates.Dispatch.{Preempted, timer_preempts}
use qemu_usage_test.Devices.Gates.Turns.{Turning}
use qemu_usage_test.Devices.Gates.Fair.{Reached, every_turn}
use qemu_usage_test.Devices.Fb.{Screen, cell, newline, fb_putc}
use qemu_usage_test.Devices.Fb.Laws.{OnScreen, fb_putc-OnScreen, newline_scrolls}
use qemu_usage_test.Devices.Ctype.{tolower}
use qemu_usage_test.Devices.Kbd.{Keyboard, kbd_interrupt}
use qemu_usage_test.Devices.Serial.{serial_set_rate, serial_init_poll}
use qemu_usage_test.Devices.Serial.Laws.{
  Uart, port_of, tell, rate_writes, poll_writes, serial_init_poll_no_rate,
}
use qemu_usage_test.Sched.{task_running, task_blocked}
use qemu_usage_test.Sched.Switch.{IsReady}
use qemu_usage_test.Sched.Sample.{kernel}

timer_counter_exact_example :
    (counted (timer_counter 100) * 100 ≤ tick_hz)
    × (tick_hz < 100 * (counted (timer_counter 100) + 1))
timer_counter_exact_example = timer_counter_exact 100 (omega arith) (omega arith)

abbrev empty_idt : Idt
empty_idt = record { idt_table = replicate 256 no_entry; isr_table = replicate 256 none }

empty_idt-IsIdt : IsIdt empty_idt
empty_idt-IsIdt = (length-replicate 256 no_entry, length-replicate {A = Option ℕ} 256 none)

abbrev stub : ℕ → ℕ
stub n = 0xc0100000

set_gate_lem_example :
    Gate 33 5 0xc0100000 0 14 empty_idt (set_interrupt_gate stub 33 5 empty_idt)
    × Gate 33 5 0xc0100000 0 15 empty_idt (set_trap_gate stub 33 5 empty_idt)
    × Gate 33 5 0xc0100000 3 15 empty_idt (set_system_gate stub 33 5 empty_idt)
set_gate_lem_example = set_gate_lem stub 33 5 empty_idt empty_idt-IsIdt (omega arith) (omega arith)

stub-small : (m : ℕ) → stub m < 2 ^ 32
stub-small m = omega arith

abbrev cpu : Cpu
cpu = record { in_interrupt_flag = false; sched = kernel task_running task_blocked; writes = [] }

cpu-IsReady : IsReady (kernel task_running task_blocked) (0x1030 ∷ 0x2030 ∷ [])
cpu-IsReady = record { linked = omega arith; distinct = omega arith }

timer_preempts_example :
    Preempted cpu 0x1030
      (0x2030 ∷ 0x1030 ∷ [])
      (generic_isr (λ isr vec_no c. systick_intr c) (replicate 33 (some 7)) 32 cpu)
timer_preempts_example =
    timer_preempts (λ isr vec_no c. systick_intr c) (replicate 33 (some 7)) 7 cpu [] (0x2030 ∷ [])
      refl refl refl (omega arith) refl cpu-IsReady refl refl

-- The same tasks with slices of 3 ticks, of which 2 are left.
abbrev slow : Cpu
slow = record cpu {
  sched = record (cpu.sched) {
    tasks = λ t. record (cpu.sched.tasks t) { time_slice_res = 2; time_slice_init = 3 };
  };
}

slow-Turning : Turning 3 (0x1000 ∷ 0x2000 ∷ []) slow.sched
slow-Turning = record {
  lock_free = refl;
  ready = record { linked = omega arith; distinct = omega arith };
  running = refl;
  slices = omega arith;
}

every_turn_example :
    Reached
      (λ isr vec_no c. systick_intr c)
      (replicate 33 (some 7))
      3
      6
      (0x2000 ∷ 0x1000 ∷ [])
      0x2000
      slow
every_turn_example =
    every_turn (λ isr vec_no c. systick_intr c) (replicate 33 (some 7)) 7 3 refl (λ c. refl)
      (omega arith) [] [] 0x2000 slow slow-Turning

abbrev screen : ℕ → Screen
screen cy = record { cx = 79; cy = cy; fb = 0xc00b8000; inited = true; mem = λ a. a; writes = [] }

fb_putc-OnScreen_example : OnScreen (fb_putc 0 0 0x41 (screen 24))
fb_putc-OnScreen_example = fb_putc-OnScreen 0 0 0x41 (screen 24) refl (omega arith, omega arith)

newline_scrolls_example :
    (5 < 3840 → (newline (screen 24)).mem 0xc00b8005 ≡ 0xc00b80a5)
    × (5 < 80
        → ((newline (screen 24)).mem (cell 0xc00b8000 24 5) ≡ 0x20)
          × ((newline (screen 24)).mem (cell 0xc00b8000 24 5 + 1) ≡ 0x07))
    × (4000 ≤ 5 → (newline (screen 24)).mem 0xc00b8005 ≡ 0xc00b8005)
    × ((newline (screen 24)).cy ≡ 24)
newline_scrolls_example = newline_scrolls (screen 24) 5 (omega arith) refl

abbrev fresh : Screen
fresh = record { cx = 0; cy = 0; fb = 0; inited = false; mem = λ a. a; writes = [] }

abbrev keyboard : Keyboard
keyboard = record {
  left_shift = false;
  right_shift = false;
  left_alt = false;
  right_alt = false;
  left_ctrl = false;
  right_ctrl = false;
  caps_locks = false;
}

-- The key A is printed as a small letter, and with the left shift key as a capital.
letter :
    ((kbd_interrupt 0x1e 0 keyboard).0 ≡ some 0x61)
    × ((kbd_interrupt 0x1e 0 (record keyboard { left_shift = true })).0 ≡ some 0x41)
unfolding kbd_interrupt tolower
letter = (refl, refl)

-- A 16550: whether its latch is open, and what is in it.
record Port : Type 0 where
  dlab : Bool
  divisor : ℕ

write_latch : ℕ → ℕ → Port → Port
write_latch port value u =
    if port == 0x3f8
    then record u { divisor = u.divisor / 256 * 256 + value }
    else if port == 0x3f9
    then record u { divisor = u.divisor % 256 + 256 * value }
    else u

unfoldable put : PortWrite → Port → Port
put (outw port value) u = u
put (outb port value) u =
    if port == 0x3fb
    then record u { dlab = truth (bit_and value 0x80) }
    else if u.dlab
    then write_latch port value u
    else u

write_latch-dlab : (port value : ℕ) (u : Port) → (write_latch port value u).dlab ≡ u.dlab
unfolding write_latch
write_latch-dlab port value u = ground arith

put-dlab : (w : PortWrite) (u : Port) → port_of w ≢ 0x3fb → (put w u).dlab ≡ u.dlab
unfolding put
put-dlab (outw port value) u h = refl
put-dlab (outb port value) u h =
    rw (ne→== port 0x3fb h) (ground (arith, write_latch-dlab port value u))

put-divisor : (w : PortWrite) (u : Port) → u.dlab ≡ false → (put w u).divisor ≡ u.divisor
unfolding put
put-divisor (outw port value) u h = refl
put-divisor (outb port value) u h = rw h (ground arith)

port-Uart : Uart put (λ u. u.dlab) (λ u. u.divisor)
unfolding put
port-Uart = record { sets_dlab = λ value u. refl; keeps_dlab = put-dlab; keeps_latch = put-divisor }

abbrev port : Port
port = record { dlab = false; divisor = 1 }

abbrev told : List PortWrite → Port
told ws = tell put (λ u. u.dlab) (λ u. u.divisor) ws port

serial_init_poll_no_rate_example :
    (serial_set_rate 3 1200 ≡ done (rate_writes 3 96))
    × (serial_init_poll 3 ≡ done (poll_writes 3))
    × ((told (rate_writes 3 96)).divisor ≡ 1)
    × ((told (poll_writes 3)).dlab ≡ false)
    × ((told (poll_writes 3)).divisor ≡ 1)
serial_init_poll_no_rate_example =
    serial_init_poll_no_rate put (λ u. u.dlab) (λ u. u.divisor) 3 1200 port (omega arith) port-Uart
      refl
