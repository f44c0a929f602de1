-- ===== src/Devices/Gates.antt =====
-- kernel/interrupt.c: the interrupt descriptor table and the dispatch of interrupts.
pub mod Laws
pub mod Dispatch
pub mod Turns
pub mod Fair
use qemu_usage_test.Base.{
  ℕ, zero, suc, ◌+◌, ◌*◌, ◌^◌, Bool, true, false, ◌&&◌, List, ◌++◌, Option, none, some, Outcome,
  done, ◌>>=◌, leb, ltb, if◌then◌else◌, load, store, bit_or, u16, shl32, shr32,
}
use qemu_usage_test.Devices.{PortWrite}
use qemu_usage_test.Devices.Pic.{pic_init, pic_end_of_interrupt}
use qemu_usage_test.Sched.{Sched, schedule}

abbrev pub gate_type_intr : ℕ
gate_type_intr = 0xe

abbrev pub gate_type_trap : ℕ
gate_type_trap = 0xf

abbrev pub hardware_intr_start : ℕ
hardware_intr_start = 0x20

abbrev pub intr_count : ℕ
intr_count = 256

-- SEL_KCSEG
abbrev pub sel_kcseg : ℕ
sel_kcseg = 0x08

pub record IdtEntry : Type 0 where
  pub offset0_15 : ℕ
  pub seg_sel : ℕ
  pub gate_config : ℕ
  pub offset16_31 : ℕ

-- `idt_table` and `isr_table`; a handler is known by its address, `none` is NULL.
pub record Idt : Type 0 where
  pub idt_table : List IdtEntry
  pub isr_table : List (Option ℕ)

-- `isr_stubs n` is the address of the assembly stub of vector `n`.
module _ (isr_stubs : ℕ → ℕ) where
  unfoldable pub gate_entry : ℕ → ℕ → ℕ → IdtEntry
  gate_entry n dpl type = record {
    offset0_15 = u16 (isr_stubs n);
    offset16_31 = u16 (shr32 (isr_stubs n) 16);
    seg_sel = sel_kcseg;
    gate_config = u16 (bit_or (bit_or 0x8000 (shl32 dpl 13)) (shl32 type 8));
  }

  -- The entry is the one of the table at index `n`, and so not NULL.
  unfoldable pub set_gate : ℕ → ℕ → ℕ → ℕ → Idt → Outcome Idt
  unfolding gate_entry
  set_gate n isr dpl type idt = do
    isr_table ← store idt.isr_table n (some isr)
    idt_table ← store idt.idt_table n (gate_entry n dpl type)
    done (record { idt_table = idt_table; isr_table = isr_table })

  unfoldable pub set_interrupt_gate : ℕ → ℕ → Idt → Outcome Idt
  unfolding set_gate
  set_interrupt_gate n isr idt = set_gate n isr 0 gate_type_intr idt

  unfoldable pub set_trap_gate : ℕ → ℕ → Idt → Outcome Idt
  unfolding set_gate
  set_trap_gate n isr idt = set_gate n isr 0 gate_type_trap idt

  unfoldable pub set_system_gate : ℕ → ℕ → Idt → Outcome Idt
  unfolding set_gate
  set_system_gate n isr idt = set_gate n isr 3 gate_type_trap idt

  -- The loop over the vectors from `i` on, with `n` of them left.
  unfoldable pub set_default_gates : ℕ → ℕ → ℕ → Idt → Outcome Idt
  unfolding set_interrupt_gate
  set_default_gates default_isr i zero idt = done idt
  set_default_gates default_isr i (suc n) idt = do
    idt ← set_interrupt_gate i default_isr idt
    set_default_gates default_isr (i + 1) n idt

  unfoldable pub init_interrupt : ℕ → Idt → Outcome (Idt × List PortWrite)
  unfolding set_default_gates
  init_interrupt default_isr idt = do
    idt ← set_default_gates default_isr 0 intr_count idt
    done (idt, pic_init)

-- What the dispatch changes: the flags, the scheduler's state and what has been written to ports.
pub record Cpu : Type 0 where
  pub in_interrupt_flag : Bool
  pub sched : Sched
  pub writes : List PortWrite

unfoldable pub in_interrupt : Cpu → Bool
in_interrupt c = c.in_interrupt_flag

pub set_flag_schedule_on_return : Sched → Sched
set_flag_schedule_on_return s = record s { sched_on_return = true }

-- The part behind the handler of an external interrupt.
unfoldable pub end_external : ℕ → Cpu → Outcome Cpu
end_external vec_no c =
    let c = record c {
      writes = c.writes ++ pic_end_of_interrupt vec_no;
      in_interrupt_flag = false;
    } in
    if c.sched.sched_on_return
    then (do s ← schedule c.sched; done (record c { sched = s }))
    else done c

-- `call isr vec_no` runs the handler at the address `isr`.
module _ (call : ℕ → ℕ → Cpu → Outcome Cpu) where
  -- The whole of it, once `external_intr` is known.
  unfoldable pub handle : Bool → List (Option ℕ) → ℕ → Cpu → Outcome Cpu
  unfolding end_external
  handle external_intr isr_table vec_no c = do
    let c =
        if external_intr
        then record c {
          in_interrupt_flag = true;
          sched = record (c.sched) { sched_on_return = false };
        }
        else c
    isr ← load isr_table vec_no
    c ← elim isr [ none ↦ done c | some isr ↦ call isr vec_no c ]
    if external_intr then end_external vec_no c else done c

  unfoldable pub generic_isr : List (Option ℕ) → ℕ → Cpu → Outcome Cpu
  unfolding handle
  generic_isr isr_table vec_no c =
      handle (leb hardware_intr_start vec_no && ltb vec_no intr_count) isr_table vec_no c
