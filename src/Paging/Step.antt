-- ===== src/Paging/Step.antt =====
-- What each part of a round of the loop over the pages does to directory and tables.
use mathlib.Core.Path.{subst}
use qemu_usage_test.Base.{
  ℕ, ◌+◌, ◌-◌, ◌*◌, ◌/◌, ◌%◌, ◌^◌, ◌≤◌, ◌<◌, ◌≡◌, refl, ap, ◌∙◌, inl, inr, ltb, leb, ◌&&◌,
  if◌then◌else◌, done, ne→==, arith,
}
use native.Mathlib.Decide.{ℕ_discrete, dec_le}
use qemu_usage_test.Memory.{Memory}
use qemu_usage_test.Vaddr.{vtop}
use qemu_usage_test.Mm.{MemPool}
use qemu_usage_test.Paging.{Tables, load32, store32, entry_at, new_table, mk_pde}
use qemu_usage_test.Paging.Words.{
  load32-zeroed, load32-unzeroed, load32-store32, load32-store32_apart,
}
use qemu_usage_test.Paging.Entry.{mk_pde-sum}
use qemu_usage_test.Paging.Frames.{Used, next_page}

-- The directory is page 0 of the pool and the tables are the pages behind it, so that the entry of
-- page `k` of the memory lies at `slot k`.
module _ (base : ℕ) where
  abbrev pub slot : ℕ → ℕ
  slot k = base + 4096 + 4 * k

  abbrev pub pde : ℕ → ℕ
  pde j = (base - 0xc0000000 + 4096 * (1 + j)) + 3

-- `m` tables in which the entries of the first `i` pages are set, with these flags.
pub record Mapped (flags : ℕ → ℕ) (base count m i : ℕ) (t : Tables) : Type 0 where
  pub used : Used base count (1 + m) t.pool
  pub directory :
      (j : ℕ)
      → j < 1024
      → load32 (entry_at base j) t.mem
        ≡ (if leb 768 j && ltb j (768 + m) then pde base (j - 768) else 0)
  pub entries :
      (k : ℕ)
      → k < 1024 * m
      → load32 (slot base k) t.mem ≡ (if ltb k i then k * 2 ^ 12 + flags k else 0)

-- The pool lies in the kernel's part of the address space.
pub record Placed (base count : ℕ) : Type 0 where
  pub aligned : base % 4096 ≡ 0
  pub high : 0xc0000000 ≤ base
  pub fits : base + 4096 * count < 2 ^ 32

module _ {flags : ℕ → ℕ} {base count m i : ℕ} {t : Tables} (placed : Placed base count)
    (mapped : Mapped flags base count m i t) where
  -- The entry of page `i` is written.
  pub store-Mapped :
      i < 1024 * m
      → i * 2 ^ 12 + flags i < 2 ^ 32
      → Mapped flags base count m
          (i + 1)
          (record t { mem = store32 (slot base i) (i * 2 ^ 12 + flags i) t.mem })
  store-Mapped inside small = record {
    used = mapped.used;
    directory = λ j h.
        load32-store32_apart (slot base i) (entry_at base j) (i * 2 ^ 12 + flags i) t.mem
          (inr (omega arith))
        ∙ mapped.directory j h;
    entries = λ k h. elim (ℕ_discrete k i) [
      | yes e ↦
          ap (λ x. load32 (slot base x) (store32 (slot base i) (i * 2 ^ 12 + flags i) t.mem)) e
          ∙ load32-store32 (slot base i) (i * 2 ^ 12 + flags i) t.mem small
          ∙ ground (arith, e, ap flags e)
      | no d ↦
          load32-store32_apart (slot base i) (slot base k) (i * 2 ^ 12 + flags i) t.mem
            (ground (arith, d))
          ∙ mapped.entries k h
          ∙ ground (arith, d)
    ];
  }

  pde-eq : 1 + m < count → mk_pde (vtop (base + 4096 * (1 + m))) 3 ≡ pde base m
  unfolding vtop
  pde-eq room =
      let frame = (base - 0xc0000000) / 4096 + 1 + m in
      let address : (base + 4096 * (1 + m) + 2 ^ 32 - 0xc0000000) % 2 ^ 32 ≡ frame * 2 ^ 12 =
        omega (arith, placed.aligned, placed.high, placed.fits) in
      ap (λ a. mk_pde a 3) address
      ∙ mk_pde-sum frame 3 (omega (arith, placed.high, placed.fits)) (omega arith)
      ∙ omega (arith, placed.aligned, placed.high)

  -- The memory behind the new table and its entry in the directory.
  table-Mapped :
      (pool' : MemPool) (mem' : Memory) (pt : ℕ)
      → Used base count (1 + (m + 1)) pool'
      → ((a : ℕ)
          → mem' a ≡ (
              if leb (base + 4096 * (1 + m)) a && ltb a (base + 4096 * (1 + m) + 4096)
              then 0
              else t.mem a))
      → m < 256
      → 1 + m < count
      → i ≤ 1024 * m
      → Mapped flags base count (m + 1) i (record {
        pt = pt;
        pool = pool';
        mem = store32 (entry_at base (768 + m)) (pde base m) mem';
      })
  table-Mapped pool' mem' pt used zeroed few room inside =
      let here = entry_at base (768 + m) in
      let page = base + 4096 * (1 + m) in
      record {
        used = used;
        directory = λ j h. elim (ℕ_discrete j (768 + m)) [
          | yes e ↦
              ap (λ x. load32 (entry_at base x) (store32 here (pde base m) mem')) e
              ∙ load32-store32 here (pde base m) mem' (omega (arith, placed.fits))
              ∙ ground (arith, e)
          | no d ↦
              load32-store32_apart here (entry_at base j) (pde base m) mem' (ground (arith, d))
              ∙ load32-unzeroed page (entry_at base j) t.mem mem' zeroed (omega arith)
              ∙ mapped.directory j h
              ∙ ground (arith, d)
        ];
        entries = λ k h.
            load32-store32_apart here (slot base k) (pde base m) mem' (inl (omega arith))
            ∙ (elim (dec_le (1024 * m) k) [
              | yes l ↦
                  load32-zeroed page (slot base k) t.mem mem' zeroed (omega arith) (omega arith)
                  ∙ ground (arith, l, inside)
              | no l ↦
                  load32-unzeroed page (slot base k) t.mem mem' zeroed (omega arith)
                  ∙ mapped.entries k (omega arith)
            ]);
      }

  pub new_table-Mapped :
      1 + m < count
      → m < 256
      → i ≤ 1024 * m
      → (t' : Tables) × (new_table (entry_at base (768 + m)) t ≡ done t')
        × (t'.pt ≡ base + 4096 * (1 + m))
        × Mapped flags base count (m + 1) i t'
  unfolding new_table
  new_table-Mapped room few inside =
      let n = next_page mapped.used room t.mem in
      let page = base + 4096 * (1 + m) in
      let result : Tables = record {
        pt = page;
        pool = n.pool';
        mem = store32 (entry_at base (768 + m)) (pde base m) n.mem';
      } in
      (
        result,
        rw (n.returns, ne→== page 0 (omega (arith, placed.high)), pde-eq room) refl,
        refl,
        table-Mapped n.pool' n.mem' page
            (subst (λ x. Used base count x n.pool') (omega arith) n.used) n.zeroed few room inside,
      )
