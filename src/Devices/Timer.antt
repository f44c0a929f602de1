-- ===== src/Devices/Timer.antt =====
-- devices/hw_timer.c: the programmable timer.
pub mod Laws
use qemu_usage_test.Base.{
  ℕ, ◌+◌, ◌*◌, ◌/◌, ◌%◌, ◌^◌, ◌&&◌, ◌||◌, not, Outcome, done, ◌>>=◌, List, [], ◌∷◌, ltb, ◌==◌,
  if◌then◌else◌, bit_or, u8, u16, shl32, shr32,
}
use qemu_usage_test.Devices.{PortWrite, outb}
use qemu_usage_test.Devices.Gates.{Cpu, Idt, set_interrupt_gate}
use qemu_usage_test.Sched.{task_tick}

abbrev pub timer_ctrl : ℕ
timer_ctrl = 0x43

-- TIMER_DATA
abbrev pub timer_data : ℕ → ℕ
timer_data channel = 0x40 + channel

abbrev pub tick_hz : ℕ
tick_hz = 1193180

-- The 16-bit counter for a frequency; 0 counts as 65536.
unfoldable pub timer_counter : ℕ → ℕ
timer_counter frequency =
    if ltb frequency (tick_hz / 2 ^ 16)
    then 0
    else if ltb tick_hz frequency
    then 2
    else u16 (tick_hz / frequency)

-- hw_timer_config
unfoldable pub hw_timer_config : ℕ → ℕ → ℕ → List PortWrite
unfolding timer_counter
hw_timer_config channel mode frequency =
    if not (channel == 0) && not (channel == 2)
    then []
    else if not (mode == 2) && not (mode == 3)
    then []
    else (let counter = timer_counter frequency in
        outb timer_ctrl (u8 (bit_or (bit_or (shl32 channel 6) 0x30) (shl32 mode 1)))
        ∷ outb (timer_data channel) (u8 counter)
        ∷ outb (timer_data channel) (u8 (shr32 counter 8))
        ∷ [])

-- systick_intr; the count of ticks that it also keeps is read nowhere.
unfoldable pub systick_intr : Cpu → Outcome Cpu
systick_intr c = done (record c { sched = task_tick c.sched })

-- hw_timer_init: 100 ticks a second in mode 2, at vector 0x20; `systick` is the handler's address.
unfoldable pub hw_timer_init : (ℕ → ℕ) → ℕ → Idt → Outcome (Idt × List PortWrite)
unfolding hw_timer_config
hw_timer_init isr_stubs systick idt = do
  idt ← set_interrupt_gate isr_stubs 0x20 systick idt
  done (idt, hw_timer_config 0 2 100)
