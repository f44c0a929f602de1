-- ===== src/Devices/Gates/Laws.antt =====
-- What the gates of the interrupt descriptor table hold.
use qemu_usage_test.Base.{
  ℕ, zero, suc, ◌+◌, ◌*◌, ◌/◌, ◌%◌, ◌^◌, ◌≤◌, ◌<◌, ◌≡◌, ◌≢◌, refl, sym, ap, ◌∙◌, ◌⊎◌, inl, inr,
  Option, none, some, Outcome, done, length, get_or, set, length-set, get_or-set_self,
  get_or-set_ne, store-done, arith,
}
use qemu_usage_test.Devices.Pic.{pic_init}
use qemu_usage_test.Devices.Gates.{
  IdtEntry, Idt, sel_kcseg, intr_count, gate_entry, set_gate, set_interrupt_gate, set_trap_gate,
  set_system_gate, set_default_gates, init_interrupt,
}

-- What the processor reads from an entry.
pub record Decodes (e : IdtEntry) (offset dpl type : ℕ) : Type 0 where
  pub address : e.offset0_15 + 65536 * e.offset16_31 ≡ offset
  pub selector : e.seg_sel ≡ sel_kcseg
  pub present : e.gate_config / 2 ^ 15 ≡ 1
  pub level : e.gate_config / 2 ^ 13 % 4 ≡ dpl
  pub kind : e.gate_config / 2 ^ 8 % 32 ≡ type

-- Both tables have an entry for every vector.
abbrev pub IsIdt : Idt → Type 0
IsIdt idt = (length idt.idt_table ≡ intr_count) × (length idt.isr_table ≡ intr_count)

abbrev pub no_entry : IdtEntry
no_entry = record { offset0_15 = 0; seg_sel = 0; gate_config = 0; offset16_31 = 0 }

abbrev pub entry_at : Idt → ℕ → IdtEntry
entry_at idt n = get_or idt.idt_table n no_entry

abbrev pub isr_at : Idt → ℕ → Option ℕ
isr_at idt n = get_or idt.isr_table n none

-- A gate at `n` with its handler, and everything else as it was.
pub record Gate (n isr offset dpl type : ℕ) (idt : Idt) (r : Outcome Idt) : Type 0 where
  pub idt' : Idt
  pub returns : r ≡ done idt'
  pub entry : Decodes (entry_at idt' n) offset dpl type
  pub handler : isr_at idt' n ≡ some isr
  pub others : (m : ℕ) → n ≢ m → (entry_at idt' m ≡ entry_at idt m) × (isr_at idt' m ≡ isr_at idt m)
  pub valid : IsIdt idt'

eq_or_above : (i m : ℕ) → i ≤ m → (i ≡ m) ⊎ (i + 1 ≤ m)
eq_or_above i m h = ground arith

module _ (isr_stubs : ℕ → ℕ) where
  set_gate-Gate :
      (n isr dpl type : ℕ) (idt : Idt)
      → IsIdt idt
      → n < 256
      → Decodes (gate_entry isr_stubs n dpl type) (isr_stubs n) dpl type
      → Gate n isr (isr_stubs n) dpl type idt (set_gate isr_stubs n isr dpl type idt)
  unfolding set_gate
  set_gate-Gate n isr dpl type idt valid h ok =
      let entry = gate_entry isr_stubs n dpl type in
      record {
        idt' = record {
          idt_table = set idt.idt_table n entry;
          isr_table = set idt.isr_table n (some isr);
        };
        returns =
            rw
              (
                store-done idt.isr_table n (some isr) (omega (arith, valid.1)),
                store-done idt.idt_table n entry (omega (arith, valid.0)),
              )
              refl;
        entry = rw (get_or-set_self idt.idt_table n entry no_entry (omega (arith, valid.0))) ok;
        handler = get_or-set_self idt.isr_table n (some isr) none (omega (arith, valid.1));
        others = λ m k. (
          get_or-set_ne idt.idt_table n m entry no_entry k,
          get_or-set_ne idt.isr_table n m (some isr) none k,
        );
        valid = (
          length-set idt.idt_table n entry ∙ valid.0,
          length-set idt.isr_table n (some isr) ∙ valid.1,
        );
      }

  gate_entry-Decodes :
      (n : ℕ)
      → isr_stubs n < 2 ^ 32
      → Decodes (gate_entry isr_stubs n 0 14) (isr_stubs n) 0 14
        × Decodes (gate_entry isr_stubs n 0 15) (isr_stubs n) 0 15
        × Decodes (gate_entry isr_stubs n 3 15) (isr_stubs n) 3 15
  unfolding gate_entry
  gate_entry-Decodes n h = (
    record { address = omega arith; selector = refl; present = refl; level = refl; kind = refl },
    record { address = omega arith; selector = refl; present = refl; level = refl; kind = refl },
    record { address = omega arith; selector = refl; present = refl; level = refl; kind = refl },
  )

  -- In tables of 256 entries, a vector below 256 and a stub at a 32-bit address,
  -- `set_interrupt_gate`, `set_trap_gate` and `set_system_gate` write an entry from which the
  -- address of the stub, the kernel code selector, the present bit, the privilege level and the
  -- type of the gate are read back, record the handler and change no other vector.
  pub set_gate_lem :
      (n isr : ℕ) (idt : Idt)
      → IsIdt idt
      → n < 256
      → isr_stubs n < 2 ^ 32
      → Gate n isr (isr_stubs n) 0 14 idt (set_interrupt_gate isr_stubs n isr idt)
        × Gate n isr (isr_stubs n) 0 15 idt (set_trap_gate isr_stubs n isr idt)
        × Gate n isr (isr_stubs n) 3 15 idt (set_system_gate isr_stubs n isr idt)
  unfolding set_interrupt_gate set_trap_gate set_system_gate
  set_gate_lem n isr idt valid h k =
      let d = gate_entry-Decodes n k in
      (
        set_gate-Gate n isr 0 14 idt valid h d.0,
        set_gate-Gate n isr 0 15 idt valid h d.1,
        set_gate-Gate n isr 3 15 idt valid h d.2,
      )

  -- Every vector below `n` has an interrupt gate with the handler.
  abbrev pub AllDefault : ℕ → ℕ → ℕ → Idt → Type 0
  AllDefault default_isr i n idt =
      (m : ℕ)
      → i ≤ m
      → m < i + n
      → Decodes (entry_at idt m) (isr_stubs m) 0 14 × (isr_at idt m ≡ some default_isr)

  pub record Defaults (default_isr i n : ℕ) (idt : Idt) (r : Outcome Idt) : Type 0 where
    pub idt' : Idt
    pub returns : r ≡ done idt'
    pub gates : AllDefault default_isr i n idt'
    pub below :
        (m : ℕ) → m < i → (entry_at idt' m ≡ entry_at idt m) × (isr_at idt' m ≡ isr_at idt m)
    pub valid : IsIdt idt'

  -- A gate set at `i` and then the rest of the loop.
  first-Defaults :
      (isr i n : ℕ) (idt : Idt)
      → (g : Gate i isr (isr_stubs i) 0 14 idt (set_interrupt_gate isr_stubs i isr idt))
      → Defaults isr (i + 1) n g.idt' (set_default_gates isr_stubs isr (i + 1) n g.idt')
      → Defaults isr i (suc n) idt (set_default_gates isr_stubs isr i (suc n) idt)
  unfolding set_default_gates
  first-Defaults isr i n idt g rest = record {
    idt' = rest.idt';
    returns = rw g.returns rest.returns;
    gates = λ m lo hi. elim (eq_or_above i m lo) [
      | inl e ↦
          let (kept, kept_isr) = rest.below m (omega (arith, e)) in
          (rw (kept, sym e) g.entry, kept_isr ∙ ap (isr_at g.idt') (sym e) ∙ g.handler)
      | inr k ↦ rest.gates m (omega (arith, k)) (omega (arith, hi))
    ];
    below = λ m k.
        let (kept, kept_isr) = rest.below m (omega (arith, k)) in
        let (same, same_isr) = g.others m (λ e. omega (arith, e, k)) in
        (kept ∙ same, kept_isr ∙ same_isr);
    valid = rest.valid;
  }

  set_default_gates-Defaults :
      (isr i n : ℕ) (idt : Idt)
      → IsIdt idt
      → i + n ≤ 256
      → ((m : ℕ) → isr_stubs m < 2 ^ 32)
      → Defaults isr i n idt (set_default_gates isr_stubs isr i n idt)
  unfolding set_default_gates
  set_default_gates-Defaults isr i zero idt valid h k = record {
    idt' = idt;
    returns = refl;
    gates = λ m lo hi. absurd (omega (arith, lo, hi));
    below = λ m l. (refl, refl);
    valid = valid;
  }
  set_default_gates-Defaults isr i (suc n) idt valid h k =
      let g = (set_gate_lem i isr idt valid (omega arith) (k i)).0 in
      first-Defaults isr i n idt g
        (set_default_gates-Defaults isr (i + 1) n g.idt' g.valid (omega arith) k)

  -- In tables of 256 entries and for stubs at 32-bit addresses, `init_interrupt` succeeds, gives
  -- every vector an interrupt gate of the kernel with the default handler, and sets up the
  -- interrupt controllers.
  pub init_interrupt-Defaults :
      (default_isr : ℕ) (idt : Idt)
      → IsIdt idt
      → ((m : ℕ) → isr_stubs m < 2 ^ 32)
      → (idt' : Idt) × (init_interrupt isr_stubs default_isr idt ≡ done (idt', pic_init))
        × AllDefault default_isr 0 256 idt'
        × IsIdt idt'
  unfolding init_interrupt
  init_interrupt-Defaults default_isr idt valid k =
      let d = set_default_gates-Defaults default_isr 0 256 idt valid (omega arith) k in
      (d.idt', rw d.returns refl, d.gates, d.valid)
