-- ===== src/Start/Gates.antt =====
-- The interrupt table that `main` sets up.
use qemu_usage_test.Base.{
  ℕ, ◌^◌, ◌<◌, [], ◌∷◌, ◌++◌, ◌≡◌, refl, sym, ap, ◌∙◌, some, Outcome, done, load, load-done, none,
  true, ◌==◌, if◌then◌else◌, eq→==, ne→==, arith,
}
use native.Mathlib.Decide.{ℕ_discrete}
use qemu_usage_test.Links.{list_empty}
use qemu_usage_test.Semaphore.{sema_init}
use qemu_usage_test.Devices.Serial.{serial_init, serial_init_poll, serial_set_rate}
use qemu_usage_test.Devices.Kbd.{kbd_init}
use qemu_usage_test.Devices.{outb}
use qemu_usage_test.Devices.Pic.{pic_init}
use qemu_usage_test.Devices.Timer.{hw_timer_init}
use qemu_usage_test.Devices.Serial.Laws.{poll_writes}
use qemu_usage_test.Devices.Gates.{Idt}
use qemu_usage_test.Devices.Gates.Laws.{
  Decodes, IsIdt, Gate, AllDefault, entry_at, isr_at, set_gate_lem, init_interrupt-Defaults,
}
use qemu_usage_test.Devices.Ide.Setup.{head_init-empty}
use qemu_usage_test.Start.{Machine, Layout, start_interrupts}

-- `f` with another value at `n`.
abbrev pub at_vector : ℕ → ℕ → (ℕ → ℕ) → ℕ → ℕ
at_vector n v f m = if m == n then v else f m

-- Every vector has an interrupt gate of the kernel with the handler of the function.
pub record Table (isr_stubs handler : ℕ → ℕ) (idt : Idt) : Type 0 where
  pub sizes : IsIdt idt
  pub entry : (m : ℕ) → m < 256 → Decodes (entry_at idt m) (isr_stubs m) 0 14
  pub isr : (m : ℕ) → m < 256 → isr_at idt m ≡ some (handler m)

module _ (isr_stubs : ℕ → ℕ) (stubs-small : (m : ℕ) → isr_stubs m < 2 ^ 32) where
  Gate-Table :
      (handler : ℕ → ℕ) (n isr : ℕ) (idt : Idt) {r : Outcome Idt}
      → Table isr_stubs handler idt
      → (g : Gate n isr (isr_stubs n) 0 14 idt r) → Table isr_stubs (at_vector n isr handler) g.idt'
  Gate-Table handler n isr idt t g = record {
    sizes = g.valid;
    entry = λ m h. elim (ℕ_discrete m n) [
      | yes e ↦ rw e g.entry
      | no ne ↦ rw ((g.others m (λ e. ne (sym e))).0) (t.entry m h)
    ];
    isr = λ m h. elim (ℕ_discrete m n) [
      | yes e ↦ rw (eq→== m n e, e) g.handler
      | no ne ↦ rw (ne→== m n ne, (g.others m (λ e. ne (sym e))).1) (t.isr m h)
    ];
  }

  -- The table behind init_interrupt.
  default-Table :
      (default_isr : ℕ) (idt : Idt)
      → IsIdt idt
      → AllDefault isr_stubs default_isr 0 256 idt
      → Table isr_stubs (λ m. default_isr) idt
  default-Table default_isr idt sizes gates = record {
    sizes = sizes;
    entry = λ m h. (gates m (omega arith) (omega arith)).0;
    isr = λ m h. (gates m (omega arith) (omega arith)).1;
  }

-- The handlers behind the start of the interrupts.
abbrev pub handlers : Layout → ℕ → ℕ
handlers at =
    at_vector 0x21 at.kbd_interrupt
      (at_vector 0x24 at.serial_interrupt (at_vector 0x20 at.systick (λ m. at.default_isr)))

-- What the start of the interrupts leaves.
pub record Started (at : Layout) (lcr : ℕ) (m : Machine) (r : Outcome Machine) : Type 0 where
  pub m' : Machine
  pub returns : r ≡ done m'
  pub table : Table at.isr_stubs (handlers at) m'.ide.idt
  pub timer : load m'.ide.idt.isr_table 0x20 ≡ done (some at.systick)
  pub one_writer : m'.sema_write.count ≡ 1
  pub nobody_waits : list_empty m'.sema_write.wait m'.ide.sched.links ≡ true
  pub told :
      m'.writes
      ≡ m.writes
        ++ (pic_init
            ++ (outb 0x43 0x34 ∷ outb 0x40 155 ∷ outb 0x40 46 ∷ [])
            ++ poll_writes lcr
            ++ outb 0x3f9 1 ∷ [])
  pub memory_kept : m'.ide.devices.mem ≡ m.ide.devices.mem

-- With tables of 256 entries and stubs at 32-bit addresses, the part of `main` from
-- `init_interrupt` to `kbd_init` succeeds and leaves interrupt gates of the kernel at all vectors,
-- with the handlers of timer, keyboard and serial port at 0x20, 0x21 and 0x24 and the default
-- handler at all others, so that the timer handler is what is loaded for vector 0x20; the ports are
-- told what `pic_init` writes, the counter 11931 for the timer in mode 2, what `serial_init_poll`
-- writes and 1 for 0x3f9, in this order, one task may write to the serial port, nobody waits for
-- it, and the memory is as it was.
pub start_interrupts-Started :
    (at : Layout) (high low lcr : ℕ) (m : Machine)
    → IsIdt m.ide.idt
    → ((n : ℕ) → at.isr_stubs n < 2 ^ 32)
    → Started at lcr m (start_interrupts at high low lcr m)
unfolding start_interrupts hw_timer_init serial_init serial_init_poll serial_set_rate kbd_init
    sema_init pic_init
start_interrupts-Started at high low lcr m sizes small =
    let stubs = at.isr_stubs in
    let (idt0, e0, gates, sizes0) =
      init_interrupt-Defaults stubs at.default_isr m.ide.idt sizes small in
    let t0 = default-Table stubs small at.default_isr idt0 sizes0 gates in
    let g1 = (set_gate_lem stubs 0x20 at.systick idt0 sizes0 (omega arith) (small 0x20)).0 in
    let t1 = Gate-Table stubs small (λ m. at.default_isr) 0x20 at.systick idt0 t0 g1 in
    let g2 =
      (set_gate_lem stubs 0x24 at.serial_interrupt g1.idt' g1.valid (omega arith) (small 0x24)).0 in
    let t2 = Gate-Table stubs small _ 0x24 at.serial_interrupt g1.idt' t1 g2 in
    let g3 =
      (set_gate_lem stubs 0x21 at.kbd_interrupt g2.idt' g2.valid (omega arith) (small 0x21)).0 in
    let t3 : Table stubs (handlers at) g3.idt' =
      Gate-Table stubs small _ 0x21 at.kbd_interrupt g2.idt' t2 g3 in
    rw (e0, g1.returns, g2.returns, g3.returns)
      (record {
        m' = _;
        returns = refl;
        table = t3;
        timer =
            load-done g3.idt'.isr_table 0x20 none (omega (arith, g3.valid.1))
            ∙ ap done (t3.isr 0x20 (omega arith));
        one_writer = refl;
        nobody_waits = head_init-empty m.sema_write.wait m.ide.sched.links;
        told = refl;
        memory_kept = refl;
      })
