-- ===== src/Devices/Kbd.antt =====
-- devices/kbd.c: from scan codes to characters and the state of the modifier keys.
pub mod Laws
use qemu_usage_test.Base.{
  ℕ, ◌+◌, ◌-◌, ◌%◌, ◌^◌, Bool, true, false, not, ◌&&◌, ◌||◌, List, [], ◌∷◌, Option, none, some,
  Outcome, ltb, leb, ◌==◌, if◌then◌else◌, length, get_elem?, truth, bit_and, bit_or, u16, shl32, u8,
}
use qemu_usage_test.Devices.Gates.{Idt, set_interrupt_gate}
use qemu_usage_test.Devices.Ctype.{tolower}

-- `struct keymap`; the entry with NULL that ends a table is the end of the list.
pub record Keymap : Type 0 where
  pub scan_code_first : ℕ
  pub chars : List ℕ

abbrev keys : ℕ → List ℕ → Keymap
keys first chars = record { scan_code_first = first; chars = chars }

abbrev pub invariant_keymap : List Keymap
invariant_keymap =
    keys 0x01 (0x1b ∷ [])
    ∷ keys 0x0e (0x08 ∷ [])
    ∷ keys 0x0f (0x09 ∷ 0x51 ∷ 0x57 ∷ 0x45 ∷ 0x52 ∷ 0x54 ∷ 0x59 ∷ 0x55 ∷ 0x49 ∷ 0x4f ∷ 0x50 ∷ [])
    ∷ keys 0x1c (0x0d ∷ [])
    ∷ keys 0x1e (0x41 ∷ 0x53 ∷ 0x44 ∷ 0x46 ∷ 0x47 ∷ 0x48 ∷ 0x4a ∷ 0x4b ∷ 0x4c ∷ [])
    ∷ keys 0x2c (0x5a ∷ 0x58 ∷ 0x43 ∷ 0x56 ∷ 0x42 ∷ 0x4e ∷ 0x4d ∷ [])
    ∷ keys 0x37 (0x2a ∷ [])
    ∷ keys 0x39 (0x20 ∷ [])
    ∷ keys 0x53 (0x7f ∷ [])
    ∷ []

abbrev pub unshifted_keymap : List Keymap
unshifted_keymap =
    keys 0x02
      (0x31 ∷ 0x32 ∷ 0x33 ∷ 0x34 ∷ 0x35 ∷ 0x36 ∷ 0x37 ∷ 0x38 ∷ 0x39 ∷ 0x30 ∷ 0x2d ∷ 0x3d ∷ [])
    ∷ keys 0x1a (0x5b ∷ 0x5d ∷ [])
    ∷ keys 0x27 (0x3b ∷ 0x27 ∷ 0x60 ∷ [])
    ∷ keys 0x2b (0x5c ∷ [])
    ∷ keys 0x33 (0x2c ∷ 0x2e ∷ 0x2f ∷ [])
    ∷ []

abbrev pub shifted_keymap : List Keymap
shifted_keymap =
    keys 0x02
      (0x21 ∷ 0x40 ∷ 0x23 ∷ 0x24 ∷ 0x25 ∷ 0x5e ∷ 0x26 ∷ 0x2a ∷ 0x28 ∷ 0x29 ∷ 0x5f ∷ 0x2b ∷ [])
    ∷ keys 0x1a (0x7b ∷ 0x7d ∷ [])
    ∷ keys 0x27 (0x3a ∷ 0x22 ∷ 0x7e ∷ [])
    ∷ keys 0x2b (0x7c ∷ [])
    ∷ keys 0x33 (0x3c ∷ 0x3e ∷ 0x3f ∷ [])
    ∷ []

-- `none` is the result false.
unfoldable pub map_scan_code : List Keymap → ℕ → Option ℕ
map_scan_code [] scan_code = none
map_scan_code (km ∷ kms) scan_code =
    let rest = map_scan_code kms scan_code in
    let code_group_len = length km.chars in
    if leb km.scan_code_first scan_code && ltb scan_code (km.scan_code_first + code_group_len)
    then get_elem? km.chars (scan_code - km.scan_code_first)
    else rest

-- The modifier keys, and what has been printed.
pub record Keyboard : Type 0 where
  pub left_shift : Bool
  pub right_shift : Bool
  pub left_alt : Bool
  pub right_alt : Bool
  pub left_ctrl : Bool
  pub right_ctrl : Bool
  pub caps_locks : Bool

-- The table special_keymap: what a change of the key does.
unfoldable pub set_special : ℕ → Bool → Keyboard → Keyboard
set_special scan_code pressed k =
    if scan_code == 0x1d
    then record k { left_ctrl = pressed }
    else if scan_code == 0x2a
    then record k { left_shift = pressed }
    else if scan_code == 0x36
    then record k { right_shift = pressed }
    else if scan_code == 0x38
    then record k { left_alt = pressed }
    else if scan_code == 0xe01d
    then record k { right_ctrl = pressed }
    else if scan_code == 0xe038
    then record k { right_alt = pressed }
    else k

-- The three tables in their order.
unfoldable pub find_char : Bool → ℕ → Option ℕ
unfolding map_scan_code
find_char shift scan_code = elim (map_scan_code invariant_keymap scan_code) [
  | some ch ↦ some ch
  | none ↦
      if shift
      then map_scan_code shifted_keymap scan_code
      else map_scan_code unshifted_keymap scan_code
]

-- What ctrl, shift, caps lock and alt make of a character.
unfoldable pub modify_char : Bool → Bool → Bool → Bool → ℕ → ℕ
modify_char ctrl shift caps alt ch =
    let ch =
      if ctrl && leb 0x40 ch && ltb ch 0x60
      then ch - 0x40
      else if (shift && caps) || (not shift && not caps)
      then tolower ch
      else ch in
    if alt then u8 (ch + 0x80) else ch

-- The part behind the search of the tables, with its result.
unfoldable pub on_found : Option ℕ → ℕ → Bool → Keyboard → Option ℕ × Keyboard
unfolding set_special modify_char
on_found (some ch) scan_code release k =
    let shift = k.left_shift || k.right_shift in
    let alt = k.left_alt || k.right_alt in
    let ctrl = k.left_ctrl || k.right_alt in
    (if release then none else some (modify_char ctrl shift k.caps_locks alt ch), k)
on_found none scan_code release k = (none, set_special scan_code (not release) k)

-- The part behind the reading of the scan code.
unfoldable pub key_event : ℕ → Bool → Keyboard → Option ℕ × Keyboard
unfolding find_char on_found
key_event scan_code release k =
    if scan_code == 0x3a
    then (none, if release then k else record k { caps_locks = not k.caps_locks })
    else on_found (find_char (k.left_shift || k.right_shift) scan_code) scan_code release k

-- `first` and `second` are what the data port answers; the character printed comes with the state.
unfoldable pub kbd_interrupt : ℕ → ℕ → Keyboard → Option ℕ × Keyboard
unfolding key_event
kbd_interrupt first second k =
    let scan_code = if first == 0xe0 then bit_or (u16 (shl32 first 8)) second else first in
    key_event (bit_and scan_code 0xff7f) (truth (bit_and scan_code 0x80)) k

-- `handler` is the address of kbd_interrupt.
unfoldable pub kbd_init : (ℕ → ℕ) → ℕ → Idt → Outcome Idt
kbd_init isr_stubs handler idt = set_interrupt_gate isr_stubs (0x20 + 1) handler idt
