-- ===== src/Paging.antt =====
-- kernel/pte.h, and the page directory of kernel/init.c: a table for each 4 MB of the memory that the
-- kernel sees from 3 GB on.
pub mod Words
pub mod Entry
pub mod Frames
pub mod Step
pub mod Loop
pub mod Walk
pub mod Maps
pub mod Boot
mod Tests
use qemu_usage_test.Base.{
  ℕ, zero, suc, ◌+◌, ◌-◌, ◌*◌, ◌/◌, ◌%◌, ◌^◌, ◌&&◌, List, Outcome, done, fault, ◌>>=◌, ltb, leb,
  ◌==◌, if◌then◌else◌, bit_and, bit_or, not32, shl32, shr32, sub32,
}
use qemu_usage_test.Vaddr.{page_bits, ptov, vtop}
use qemu_usage_test.Memory.{Memory, poke, null}
use qemu_usage_test.Str.{memset}
use qemu_usage_test.Mm.{MemPool, pf_atomic, pf_zero, mm_kget_page, mm_init}

abbrev pub pte_mask_phy_addr : ℕ
pte_mask_phy_addr = 0xfffff000

abbrev pub pte_mask_flags : ℕ
pte_mask_flags = not32 pte_mask_phy_addr

abbrev pub page_table_bits : ℕ
page_table_bits = 10

abbrev pub page_dir_bit_shift : ℕ
page_dir_bit_shift = page_bits + page_table_bits

abbrev pub page_table_idx_mask : ℕ
page_table_idx_mask = 0x3ff000

abbrev pub pte_p : ℕ
pte_p = 0x1

abbrev pub pte_w : ℕ
pte_w = 0x2

unfoldable pub virt_to_pd_idx : ℕ → ℕ
virt_to_pd_idx vaddr = shr32 vaddr page_dir_bit_shift

unfoldable pub virt_to_pt_idx : ℕ → ℕ
virt_to_pt_idx vaddr = shr32 (bit_and vaddr page_table_idx_mask) page_bits

unfoldable pub mk_pde : ℕ → ℕ → ℕ
mk_pde paddr flags = bit_or (bit_and paddr pte_mask_phy_addr) (bit_and flags pte_mask_flags)

unfoldable pub mk_pte : ℕ → ℕ → ℕ
unfolding mk_pde
mk_pte paddr flags = mk_pde paddr flags

-- bss_init: the bytes from `_start_bss` to `_end_bss`
pub bss_init : ℕ → ℕ → Memory → Memory
bss_init start_bss end_bss mem = (memset start_bss 0 (sub32 end_bss start_bss) mem).1

-- A `uint32_t` in memory.
unfoldable pub load32 : ℕ → Memory → ℕ
load32 p mem = mem p + 2 ^ 8 * mem (p + 1) + 2 ^ 16 * mem (p + 2) + 2 ^ 24 * mem (p + 3)

unfoldable pub store32 : ℕ → ℕ → Memory → Memory
store32 p v mem =
    poke
      (poke (poke (poke mem p (v % 2 ^ 8)) (p + 1) (v / 2 ^ 8 % 2 ^ 8)) (p + 2)
        (v / 2 ^ 16 % 2 ^ 8))
      (p + 3) (v / 2 ^ 24 % 2 ^ 8)

-- `pt` of the loop, the pool and the memory.
pub record Tables : Type 0 where
  pub pt : ℕ
  pub pool : MemPool
  pub mem : Memory

-- `&p[k]` of a page of entries
abbrev pub entry_at : ℕ → ℕ → ℕ
entry_at p k = p + 4 * k

-- A table for an entry of the directory; there is nothing where a page at NULL could lie.
unfoldable pub new_table : ℕ → Tables → Outcome Tables
new_table pde t = do
  (pt, pool, mem) ← mm_kget_page (bit_or pf_zero pf_atomic) t.pool t.mem
  if pt == null
      then fault
      else done (record {
        pt = pt;
        pool = pool;
        mem = store32 pde (mk_pde (vtop pt) (bit_or pte_p pte_w)) mem;
      })

-- `start` and `end_text` are the addresses of `_start` and `_end_kernel_text`.
module _ (start end_text : ℕ) where
  abbrev pub page_flags : ℕ → ℕ
  page_flags vaddr =
      if leb start vaddr && ltb vaddr end_text
      then bit_and (bit_or pte_p pte_w) (not32 pte_w)
      else bit_or pte_p pte_w

  -- A round of the loop at an address; a store through a null pointer is undefined behaviour.
  pub map_at : ℕ → ℕ → Tables → Outcome Tables
  map_at pd vaddr t = do
    let pde = entry_at pd (virt_to_pd_idx vaddr)
    t ← if load32 pde t.mem == 0 then new_table pde t else done t
    let pte = entry_at t.pt (virt_to_pt_idx vaddr)
    if t.pt == null
        then fault
        else done (record t { mem = store32 pte (mk_pte (vtop vaddr) (page_flags vaddr)) t.mem })

  unfoldable pub map_page : ℕ → ℕ → Tables → Outcome Tables
  map_page pd i t = map_at pd (ptov (shl32 i page_bits)) t

  -- The loop over the pages from `i` on, with `n` of them left.
  pub map_pages : ℕ → ℕ → ℕ → Tables → Outcome Tables
  map_pages pd i zero t = done t
  map_pages pd i (suc n) t = do t ← map_page pd i t; map_pages pd (i + 1) n t

  -- The result is what `set_cr3` is given.
  unfoldable pub kernel_pg_dir_init : ℕ → MemPool → Memory → Outcome (ℕ × MemPool × Memory)
  kernel_pg_dir_init init_ram_pages pool mem = do
    (pd, pool, mem) ← mm_kget_page (bit_or pf_zero pf_atomic) pool mem
    t ←
        if pd == null
        then fault
        else map_pages pd 0 init_ram_pages (record { pt = null; pool = pool; mem = mem })
    done (vtop pd, t.pool, t.mem)

-- The start of `main`: the pool and the page directory. `words` is what lies where the pool's bitmap
-- is put; the text section and the bss lie outside of the pool.
unfoldable pub init_memory : List ℕ → ℕ → ℕ → ℕ → Memory → Outcome (ℕ × MemPool × Memory)
init_memory words start end_text init_ram_pages mem = do
  pool ← mm_init words init_ram_pages
  kernel_pg_dir_init start end_text init_ram_pages pool mem
