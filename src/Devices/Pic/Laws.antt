-- ===== src/Devices/Pic/Laws.antt =====
-- What the writes to the interrupt controllers do to an 8259A, as its data sheet has it.
use mathlib.Core.Path.{subst}
use qemu_usage_test.Base.{
  ℕ, ◌+◌, ◌-◌, ◌<◌, ◌≡◌, refl, sym, ap, List, [], ◌∷◌, ◌==◌, leb, if◌then◌else◌, arith,
}
use qemu_usage_test.Devices.{PortWrite, outb, outw}
use qemu_usage_test.Devices.Pic.{pic_init, pic_end_of_interrupt}

-- A controller: the initialization word that it expects next (0 for none), the first vector, the
-- cascade word, the mask, and the number of lines in service.
pub record Pic : Type 0 where
  pub expects : ℕ
  pub first_vector : ℕ
  pub cascade : ℕ
  pub mask : ℕ
  pub in_service : ℕ

-- A write to the command port: ICW1 has bit 4, a non-specific end of interrupt is 0x20.
abbrev pub command : ℕ → Pic → Pic
command v p =
    if v == 0x11
    then record p { expects = 2; mask = 0 }
    else if v == 0x20
    then record p { in_service = p.in_service - 1 }
    else p

-- A write to the data port.
abbrev pub data_write : ℕ → Pic → Pic
data_write v p =
    if p.expects == 2
    then record p { expects = 3; first_vector = v }
    else if p.expects == 3
    then record p { expects = 4; cascade = v }
    else if p.expects == 4
    then record p { expects = 0 }
    else record p { mask = v }

abbrev pub write_pic : ℕ → PortWrite → Pic → Pic
write_pic ctrl (outb port v) p =
    if port == ctrl then command v p else if port == ctrl + 1 then data_write v p else p
write_pic ctrl (outw port v) p = p

-- The controller at `ctrl` behind a list of writes.
abbrev pub write_all : ℕ → List PortWrite → Pic → Pic
write_all ctrl [] p = p
write_all ctrl (w ∷ ws) p = write_all ctrl ws (write_pic ctrl w p)

-- A controller that serves its lines from `first` on, with the cascade word, and masks none.
abbrev pub Ready : Pic → ℕ → ℕ → Type 0
Ready p first cascade =
    (p.expects ≡ 0) × (p.first_vector ≡ first) × (p.cascade ≡ cascade) × (p.mask ≡ 0)

-- Two controllers behind the writes of `pic_init`.
pub pic_init-Ready :
    (p q : Pic)
    → p.expects ≡ 0
    → q.expects ≡ 0
    → Ready (write_all 0x20 pic_init p) 0x20 4 × Ready (write_all 0xa0 pic_init q) 0x28 2
unfolding pic_init
pic_init-Ready p q hp hq = (
  subst (λ p. Ready (write_all 0x20 pic_init p) 0x20 4)
      (sym (ap (λ e. record p { expects = e }) hp)) (refl, refl, refl, refl),
  subst (λ q. Ready (write_all 0xa0 pic_init q) 0x28 2)
      (sym (ap (λ e. record q { expects = e }) hq)) (refl, refl, refl, refl),
)

-- A line of the sixteen is acknowledged at the master, and at the slave if it is one of the
-- upper eight.
pub pic_end_of_interrupt-served :
    (p q : Pic) (irq : ℕ)
    → irq < 16
    → ((write_all 0x20 (pic_end_of_interrupt (0x20 + irq)) p).in_service ≡ p.in_service - 1)
      × ((write_all 0xa0 (pic_end_of_interrupt (0x20 + irq)) q).in_service
          ≡ (if leb 8 irq then q.in_service - 1 else q.in_service))
unfolding pic_end_of_interrupt
pic_end_of_interrupt-served p q irq h = ground (arith, h)
