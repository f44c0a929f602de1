-- ===== src/Paging/Entry.antt =====
-- The entries of directory and tables, and how the processor walks them.
use qemu_usage_test.Base.{
  ℕ, ◌+◌, ◌-◌, ◌*◌, ◌/◌, ◌%◌, ◌^◌, ◌<◌, ◌≡◌, ◌∙◌, Bool, ◌&&◌, Option, none, some, if◌then◌else◌,
  bit_and, arith,
}
use qemu_usage_test.Base.Binary.{bit, bit_and-shifted, bit_and-ones, bit_or-shifted}
use qemu_usage_test.Vaddr.{ptov}
use qemu_usage_test.Memory.{Memory}
use qemu_usage_test.Paging.{load32, virt_to_pd_idx, virt_to_pt_idx, mk_pde, entry_at}

-- For a page frame and flags, an entry is their sum.
pub mk_pde-sum :
    (frame flags : ℕ)
    → frame < 2 ^ 20
    → flags < 2 ^ 12
    → mk_pde (frame * 2 ^ 12) flags ≡ frame * 2 ^ 12 + flags
unfolding mk_pde
mk_pde-sum frame flags hf hg =
    let high : bit_and (frame * 2 ^ 12) 0xfffff000 ≡ frame * 2 ^ 12 =
      bit_and-shifted 12 frame (2 ^ 20 - 1) ∙ omega (arith, bit_and-ones 20 frame) in
    let low : bit_and flags 0xfff ≡ flags = bit_and-ones 12 flags ∙ omega arith in
    rw (high, low) (bit_or-shifted 12 frame flags hg)

-- The indices of the kernel's address of page `i` of the memory.
pub page_idx :
    (i : ℕ)
    → i < 2 ^ 18
    → (virt_to_pd_idx (ptov (i * 2 ^ 12)) ≡ 768 + i / 1024)
      × (virt_to_pt_idx (ptov (i * 2 ^ 12)) ≡ i % 1024)
unfolding virt_to_pd_idx virt_to_pt_idx ptov
page_idx i h =
    let address : (i * 2 ^ 12 + 0xc0000000) % 2 ^ 32 ≡ (i + 786432) * 2 ^ 12 = omega arith in
    (
      omega arith,
      rw (address, bit_and-shifted 12 (i + 786432) (2 ^ 10 - 1))
          (omega (arith, bit_and-ones 10 (i + 786432))),
    )

-- The translation of a 32-bit address as the processor does it, with write permission: two levels of
-- tables, whose entries hold a page frame, the present bit 0 and the writable bit 1.
abbrev pub walk_entry : ℕ → ℕ → Memory → Option (ℕ × Bool)
walk_entry table k mem =
    let e = load32 (entry_at table k) mem in
    if bit 0 e then some (e / 2 ^ 12 * 2 ^ 12, bit 1 e) else none

abbrev pub with_offset : ℕ → Bool → Option (ℕ × Bool) → Option (ℕ × Bool)
with_offset off w none = none
with_offset off w (some page) = some (page.0 + off, w && page.1)

abbrev pub in_table : ℕ → ℕ → Memory → Option (ℕ × Bool) → Option (ℕ × Bool)
in_table k off mem none = none
in_table k off mem (some table) = with_offset off table.1 (walk_entry (ptov table.0) k mem)

abbrev pub translate : ℕ → ℕ → Memory → Option (ℕ × Bool)
translate pd vaddr mem =
    in_table (vaddr / 2 ^ 12 % 2 ^ 10) (vaddr % 2 ^ 12) mem (walk_entry pd (vaddr / 2 ^ 22) mem)
