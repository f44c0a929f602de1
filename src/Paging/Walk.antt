-- ===== src/Paging/Walk.antt =====
-- Addresses walked through a directory whose loop is done.

use qemu_usage_test.Base.{
  ℕ, ◌+◌, ◌-◌, ◌*◌, ◌/◌, ◌%◌, ◌^◌, ◌≤◌, ◌<◌, ◌≡◌, refl, ap, ◌∙◌, sym, inl, inr, Bool, true,
  Bool-cases, not, ltb, leb, ◌&&◌, ◌==◌, none, some, arith,
}
use qemu_usage_test.Base.Binary.{bit}
use qemu_usage_test.Memory.{Memory}
use qemu_usage_test.Vaddr.{ptov}
use native.Mathlib.Decide.{dec_le}
use qemu_usage_test.Paging.{Tables, load32, entry_at}
use qemu_usage_test.Paging.Entry.{translate, walk_entry}
use qemu_usage_test.Paging.Step.{Placed, Mapped, slot}
use qemu_usage_test.Paging.Loop.{tables, flags_of, flags-small}

-- The kernel's code may not be written.
abbrev pub is_writable : ℕ → ℕ → ℕ → Bool
is_writable start end_text vaddr = not (leb start vaddr && ltb vaddr end_text)

-- An entry with a frame and flags below 4, in which bit 0 is set.
walk_present :
    (table k frame flags : ℕ) (mem : Memory)
    → load32 (entry_at table k) mem ≡ frame * 2 ^ 12 + flags
    → flags < 4
    → flags % 2 ≡ 1
    → walk_entry table k mem ≡ some (frame * 2 ^ 12, flags == 3)
unfolding bit
walk_present table k frame flags mem e small odd =
    let page : (frame * 2 ^ 12 + flags) / 2 ^ 12 * 2 ^ 12 ≡ frame * 2 ^ 12 = omega arith in
    let present : (frame * 2 ^ 12 + flags) % 2 == 1 ≡ true = ground (arith, odd) in
    let writable : (frame * 2 ^ 12 + flags) / 2 % 2 == 1 ≡ (flags == 3) =
      ground (arith, small, odd) in
    rw (e, present, page, writable) refl

walk_absent :
    (table k : ℕ) (mem : Memory) → load32 (entry_at table k) mem ≡ 0 → walk_entry table k mem ≡ none
unfolding bit
walk_absent table k mem e = rw e refl

flags-writable :
    (start end_text k : ℕ)
    → (flags_of start end_text k % 2 ≡ 1)
      × ((flags_of start end_text k == 3) ≡ is_writable start end_text (ptov (k * 2 ^ 12)))
flags-writable start end_text k =
    elim (Bool-cases (leb start (ptov (k * 2 ^ 12)) && ltb (ptov (k * 2 ^ 12)) end_text)) [
      | inl e ↦ rw e (refl, refl)
      | inr e ↦ rw e (refl, refl)
    ]

module _ (start end_text : ℕ) {base count n : ℕ} {t : Tables} (placed : Placed base count)
    (mapped : Mapped (flags_of start end_text) base count (tables n) n t) (fits : n ≤ 2 ^ 18)
    (room : tables n < count) where
  directory-frame :
      (k : ℕ)
      → k < 1024 * tables n
      → walk_entry base (768 + k / 1024) t.mem
        ≡ some (base - 0xc0000000 + 4096 * (1 + k / 1024), true)
  directory-frame k h =
      let frame = (base - 0xc0000000) / 4096 + 1 + k / 1024 in
      let address : frame * 2 ^ 12 ≡ base - 0xc0000000 + 4096 * (1 + k / 1024) =
        omega (arith, placed.aligned, placed.high) in
      let entry : load32 (entry_at base (768 + k / 1024)) t.mem ≡ frame * 2 ^ 12 + 3 =
        mapped.directory (768 + k / 1024) (omega arith) ∙ ground (arith, address, h) in
      walk_present base (768 + k / 1024) frame 3 t.mem entry (omega arith) refl
      ∙ ap (λ a. some (a, true)) address

  table-address :
      (k : ℕ)
      → k < 1024 * tables n
      → ptov (base - 0xc0000000 + 4096 * (1 + k / 1024)) ≡ base + 4096 * (1 + k / 1024)
  unfolding ptov
  table-address k h = omega (arith, placed.high, placed.fits)

  page_parts :
      (k off : ℕ)
      → k < 2 ^ 18
      → off < 4096
      → ((ptov (k * 2 ^ 12) + off) / 2 ^ 22 ≡ 768 + k / 1024)
        × ((ptov (k * 2 ^ 12) + off) / 2 ^ 12 % 2 ^ 10 ≡ k % 1024)
        × ((ptov (k * 2 ^ 12) + off) % 2 ^ 12 ≡ off)
  unfolding ptov
  page_parts k off h small = (omega arith, omega arith, omega arith)

  slot-eq : (k : ℕ) → slot base k ≡ entry_at (base + 4096 * (1 + k / 1024)) (k % 1024)
  slot-eq k = omega arith

  pub maps_page :
      (k off : ℕ)
      → k < n
      → off < 4096
      → translate base (ptov (k * 2 ^ 12) + off) t.mem
        ≡ some (k * 2 ^ 12 + off, is_writable start end_text (ptov (k * 2 ^ 12)))
  maps_page k off h small =
      let parts = page_parts k off (omega arith) small in
      let fl = flags-writable start end_text k in
      let entry =
        ap (λ p. load32 p t.mem) (sym (slot-eq k))
        ∙ mapped.entries k (omega arith)
        ∙ ground (arith, h) in
      let page =
        walk_present (base + 4096 * (1 + k / 1024)) (k % 1024) k (flags_of start end_text k) t.mem
          entry (flags-small start end_text k) fl.0 in
      rw
        (
          translate,
          parts.0,
          parts.1,
          parts.2,
          directory-frame k (omega arith),
          table-address k (omega arith),
          page,
          fl.1,
        )
        refl

  pub maps_nothing_above :
      (k off : ℕ)
      → n ≤ k
      → k < 2 ^ 18
      → off < 4096
      → translate base (ptov (k * 2 ^ 12) + off) t.mem ≡ none
  maps_nothing_above k off h low small =
      let parts = page_parts k off low small in
      elim (dec_le (1024 * tables n) k) [
        | yes l ↦
            rw
              (
                translate,
                parts.0,
                walk_absent base (768 + k / 1024) t.mem
                    (mapped.directory (768 + k / 1024) (omega arith) ∙ ground (arith, l)),
              )
              refl
        | no l ↦
            let entry : load32 (entry_at (base + 4096 * (1 + k / 1024)) (k % 1024)) t.mem ≡ 0 =
              ap (λ p. load32 p t.mem) (sym (slot-eq k))
              ∙ mapped.entries k (omega arith)
              ∙ ground (arith, h) in
            rw
              (
                translate,
                parts.0,
                parts.1,
                directory-frame k (omega arith),
                table-address k (omega arith),
                walk_absent (base + 4096 * (1 + k / 1024)) (k % 1024) t.mem entry,
              )
              refl
      ]

  pub maps_nothing_below : (vaddr : ℕ) → vaddr < 0xc0000000 → translate base vaddr t.mem ≡ none
  maps_nothing_below vaddr h =
      rw
        (
          translate,
          walk_absent base (vaddr / 2 ^ 22) t.mem
              (mapped.directory (vaddr / 2 ^ 22) (omega arith) ∙ ground (arith, h)),
        )
        refl
