-- ===== src/Devices/Serial.antt =====
-- devices/serial.c: the rate of the serial port, and sending one character by polling.
pub mod Laws
use qemu_usage_test.Base.{
  ℕ, zero, suc, ◌+◌, ◌/◌, ◌%◌, ◌^◌, not, List, [], ◌∷◌, ◌++◌, Outcome, done, fault, hang, ◌>>=◌,
  ◌==◌, if◌then◌else◌, truth, bit_and, bit_or, u8,
}
use qemu_usage_test.Devices.{PortWrite, outb}
use qemu_usage_test.Devices.Gates.{Idt, set_interrupt_gate}
use qemu_usage_test.Sched.{Sched}
use qemu_usage_test.Semaphore.{Semaphore, sema_init, sema_down, sema_up}

-- SERIAL_BASE and the registers behind it
abbrev pub serial_base : ℕ
serial_base = 0x3f8

abbrev pub ls_reg : ℕ
ls_reg = serial_base

abbrev pub ms_reg : ℕ
ms_reg = serial_base + 1

abbrev pub thr_reg : ℕ
thr_reg = serial_base

abbrev pub ier_reg : ℕ
ier_reg = serial_base + 1

abbrev pub fcr_reg : ℕ
fcr_reg = serial_base + 3

abbrev pub lcr_reg : ℕ
lcr_reg = serial_base + 4

abbrev pub lcr_dlab : ℕ
lcr_dlab = 0x80

abbrev pub lsr_thre : ℕ
lsr_thre = 0x20

-- `lcr` is what the line control register answers; a division by zero is a fault.
unfoldable pub serial_set_rate : ℕ → ℕ → Outcome (List PortWrite)
serial_set_rate lcr bps =
    if bps == 0
    then fault
    else (let divisor = 115200 / bps in
        let lcr = bit_or lcr lcr_dlab in
        done (
          outb lcr_reg lcr
          ∷ outb ls_reg (bit_and divisor 0xff)
          ∷ outb ms_reg (bit_and divisor 0xff)
          ∷ outb lcr_reg (bit_and lcr 0x7f)
          ∷ []))

unfoldable pub serial_init_poll : ℕ → Outcome (List PortWrite)
unfolding serial_set_rate
serial_init_poll lcr = do
  rate ← serial_set_rate lcr 9600
  done (outb ier_reg 0 ∷ outb fcr_reg 0 ∷ outb lcr_reg (bit_or 0x01 0x02) ∷ rate)

-- `status` are the answers of the line status register, one for each round of the loop.
unfoldable pub serial_putc_poll : List ℕ → ℕ → Outcome (List PortWrite)
serial_putc_poll [] ch = hang
serial_putc_poll (status ∷ rest) ch =
    let later = serial_putc_poll rest ch in
    if truth (bit_and status lsr_thre) then done (outb thr_reg ch ∷ []) else later

unfoldable pub serial_putc :
    List ℕ → ℕ → Semaphore → Sched → Outcome (List PortWrite × Semaphore × Sched)
unfolding serial_putc_poll
serial_putc status ch sema_write s = do
  r ← sema_down sema_write s
  writes ← serial_putc_poll status ch
  q ← sema_up r.0 r.1
  done (writes, q.0, q.1)

-- `rx_ch` is what the receiver buffer answers; `status` and `status'` are read by the two echoes.
pub serial_interrupt :
    List ℕ → List ℕ → ℕ → Semaphore → Sched → Outcome (List PortWrite × Semaphore × Sched)
unfolding serial_putc
serial_interrupt status status' rx_ch sema_write s = do
  r ← serial_putc status rx_ch sema_write s
  let (writes, sema_write, s) = r
  if rx_ch == 0x0d
      then (do
        q ← serial_putc status' 0x0a sema_write s
        done (writes ++ q.0 ++ outb ier_reg 1 ∷ [], q.1, q.2))
      else done (writes ++ outb ier_reg 1 ∷ [], sema_write, s)

-- IER_RX: only received characters interrupt.
abbrev pub serial_enable_intr : List PortWrite
serial_enable_intr = outb ier_reg 1 ∷ []

-- `handler` is the address of serial_interrupt.
unfoldable pub serial_init :
    (ℕ → ℕ) → ℕ → ℕ → Semaphore → Idt → Sched → Outcome (List PortWrite × Semaphore × Idt × Sched)
unfolding serial_init_poll
serial_init isr_stubs handler lcr sema_write idt s = do
  writes ← serial_init_poll lcr
  let (sema_write, s) = sema_init sema_write 1 s
  idt ← set_interrupt_gate isr_stubs (0x20 + 4) handler idt
  done (writes ++ serial_enable_intr, sema_write, idt, s)
