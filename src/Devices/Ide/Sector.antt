-- ===== src/Devices/Ide/Sector.antt =====
-- How a sector is addressed: the number over four registers, and the disk.
use qemu_usage_test.Base.{
  ℕ, ◌+◌, ◌*◌, ◌/◌, ◌%◌, ◌^◌, ◌<◌, ◌≡◌, refl, sym, ap, ◌∙◌, true, false, ◌&&◌, ◌||◌, ◌∷◌, ltb,
  lt→ltb, ◌==◌, bit_or, u8, shr32, Bool-cases, inl, inr, arith,
}
use qemu_usage_test.Base.Binary.{bit, bit-or, bit-mod_pow, bit-zero, bit_ext}
use qemu_usage_test.Devices.Ide.{
  write8, Log, reg_device, reg_lbah, reg_lbam, reg_lbal, reg_nsect, dev_mbs, dev_lba, dev_bit,
  select_disk_wait, select_sector,
}

-- Where the first number has none of the last four bits, they are those of the second.
bit_or-low : (a x : ℕ) → a % 2 ^ 4 ≡ 0 → bit_or a x % 2 ^ 4 ≡ x % 2 ^ 4
bit_or-low a x h =
    bit_ext 4 (bit_or a x % 2 ^ 4) (x % 2 ^ 4) (omega arith) (omega arith) (λ k small.
      let clear : bit k a && true ≡ false =
        ap (λ b. bit k a && b) (sym (lt→ltb k 4 small))
        ∙ sym (bit-mod_pow k 4 a)
        ∙ ap (bit k) h
        ∙ bit-zero k in
      bit-mod_pow k 4 (bit_or a x)
      ∙ ap (λ b. b && ltb k 4) (bit-or k a x)
      ∙ ground (arith, clear)
      ∙ sym (bit-mod_pow k 4 x))

-- The bits that a disk's selection sets for sure.
abbrev fixed_bits : ℕ → ℕ
fixed_bits dev_no = bit_or (bit_or dev_mbs dev_lba) (dev_bit dev_no)

record Selecting (dev_no : ℕ) : Type 0 where
  low : fixed_bits dev_no % 2 ^ 4 ≡ 0
  lba : bit 6 (fixed_bits dev_no) ≡ true
  slave : bit 4 (fixed_bits dev_no) ≡ (dev_no == 1)

fixed_bits-Selecting : (dev_no : ℕ) → Selecting dev_no
unfolding bit
fixed_bits-Selecting dev_no = elim (Bool-cases (dev_no == 1)) [
  | inl e ↦ record { low = rw e refl; lba = rw e refl; slave = rw e refl }
  | inr e ↦ record { low = rw e refl; lba = rw e refl; slave = rw e refl }
]

-- What is written to the registers behind `before`.
pub record Addressed (base dev_no sect_no : ℕ) (before after : Log) : Type 0 where
  pub low : ℕ
  pub mid : ℕ
  pub high : ℕ
  pub device : ℕ
  pub writes :
      after
      ≡ write8 (reg_device base) device
        ∷ write8 (reg_lbah base) high
        ∷ write8 (reg_lbam base) mid
        ∷ write8 (reg_lbal base) low
        ∷ write8 (reg_nsect base) 1
        ∷ before
  pub number : low + mid * 2 ^ 8 + high * 2 ^ 16 + device % 2 ^ 4 * 2 ^ 24 ≡ sect_no % 2 ^ 28
  pub lba : bit 6 device ≡ true
  pub slave : bit 4 device ≡ ((dev_no == 1) || bit 4 (sect_no / 2 ^ 24))

-- For a 32-bit sector number, `select_sector` writes five registers behind the selection of the
-- disk: a count of 1 and a number in which the low 28 bits of the sector number stand, in the
-- linear mode; the bit that selects the second disk is set if that disk is meant or if bit 28 of
-- the sector number is set.
pub select_sector-Addressed :
    (device : Log → ℕ → ℕ) (base dev_no sect_no : ℕ) (log : Log)
    → sect_no < 2 ^ 32
    → Addressed base dev_no sect_no
        (select_disk_wait device base dev_no log)
        (select_sector device base dev_no sect_no log)
unfolding select_sector
select_sector-Addressed device base dev_no sect_no log small =
    let h = fixed_bits-Selecting dev_no in
    let top = shr32 sect_no 24 in
    let d = u8 (bit_or (fixed_bits dev_no) top) in
    let nibble = bit_or-low (fixed_bits dev_no) top h.low in
    record {
      low = u8 sect_no;
      mid = u8 (shr32 sect_no 8);
      high = u8 (shr32 sect_no 16);
      device = d;
      writes = refl;
      number = omega (arith, nibble);
      lba =
          bit-mod_pow 6 8 (bit_or (fixed_bits dev_no) top)
          ∙ ground (arith, bit-or 6 (fixed_bits dev_no) top, h.lba);
      slave =
          bit-mod_pow 4 8 (bit_or (fixed_bits dev_no) top)
          ∙ ground (arith, bit-or 4 (fixed_bits dev_no) top, h.slave);
    }
