-- ===== src/Devices/Kbd/Laws.antt =====
-- What the keyboard driver prints.
use mathlib.Core.Path.{subst}
use qemu_usage_test.Base.{
  sym, ℕ, ◌≡◌, refl, Bool, true, Option, none, some, ◌||◌, truth, bit_and, bit_or, u16, shl32, ◌==◌,
  if◌then◌else◌, Bool-cases, inl, inr,
}
use qemu_usage_test.Devices.Kbd.{Keyboard, find_char, on_found, key_event, kbd_interrupt}

-- The scan code that the driver works with.
abbrev pub code : ℕ → ℕ → ℕ
code first second = if first == 0xe0 then bit_or (u16 (shl32 first 8)) second else first

on_found-right :
    (found : Option ℕ) (scan_code : ℕ) (release : Bool) (k : Keyboard) (right : Bool)
    → ((on_found found scan_code release (record k { right_ctrl = right })).0
        ≡ (on_found found scan_code release k).0)
      × ((on_found found scan_code true k).0 ≡ none)
unfolding on_found
on_found-right none scan_code release k right = (refl, refl)
on_found-right (some ch) scan_code release k right = (refl, refl)

key_event-right :
    (scan_code : ℕ) (release : Bool) (k : Keyboard) (right : Bool)
    → ((key_event scan_code release (record k { right_ctrl = right })).0
        ≡ (key_event scan_code release k).0)
      × ((key_event scan_code true k).0 ≡ none)
unfolding key_event
key_event-right scan_code release k right =
    let found =
      on_found-right (find_char (k.left_shift || k.right_shift) scan_code) scan_code release k
        right in
    elim (Bool-cases (scan_code == 0x3a)) [ inl e ↦ rw e (refl, refl) | inr e ↦ rw e found ]

-- What `kbd_interrupt` prints does not depend on the state of the right control key, and it prints
-- nothing when a key is released.
pub kbd_interrupt_printed :
    (first second : ℕ) (k : Keyboard) (right : Bool)
    → ((kbd_interrupt first second (record k { right_ctrl = right })).0
        ≡ (kbd_interrupt first second k).0)
      × (truth (bit_and (code first second) 0x80) ≡ true → (kbd_interrupt first second k).0 ≡ none)
unfolding kbd_interrupt
kbd_interrupt_printed first second k right =
    let c = code first second in
    (
      (key_event-right (bit_and c 0xff7f) (truth (bit_and c 0x80)) k right).0,
      λ e.
          subst (λ b. (key_event (bit_and c 0xff7f) b k).0 ≡ none) (sym e)
            (key_event-right (bit_and c 0xff7f) true k right).1,
    )
