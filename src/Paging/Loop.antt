-- ===== src/Paging/Loop.antt =====
-- The loop over the pages: its state, one round and all of them.
use mathlib.Core.Path.{subst}
use qemu_usage_test.Base.{
  ℕ, zero, suc, ◌+◌, ◌*◌, ◌/◌, ◌%◌, ◌^◌, ◌≤◌, ◌<◌, ◌≡◌, ◌≢◌, refl, ap, ◌∙◌, ◌==◌, if◌then◌else◌,
  done, ne→==, shl32, arith,
}
use native.Mathlib.Decide.{ℕ_discrete}
use qemu_usage_test.Vaddr.{ptov, vtop, ptov-vtop_inverse}
use qemu_usage_test.Paging.{
  Tables, map_at, load32, store32, entry_at, new_table, mk_pte, page_flags, map_page, map_pages,
}
use qemu_usage_test.Paging.Entry.{mk_pde-sum, page_idx}
use qemu_usage_test.Paging.Step.{Placed, Mapped, slot, store-Mapped, new_table-Mapped}

-- How many tables are needed for so many pages.
abbrev pub tables : ℕ → ℕ
tables n = (n + 1023) / 1024

module _ (start end_text : ℕ) where
  abbrev pub flags_of : ℕ → ℕ
  flags_of k = page_flags start end_text (ptov (k * 2 ^ 12))

  pub flags-small : (k : ℕ) → flags_of k < 4
  flags-small k = ground arith

module _ (start end_text : ℕ) {base count : ℕ} (placed : Placed base count) where
  pte-eq :
      (k : ℕ)
      → k < 2 ^ 18
      → mk_pte (vtop (ptov (k * 2 ^ 12))) (flags_of start end_text k)
        ≡ k * 2 ^ 12 + flags_of start end_text k
  unfolding mk_pte
  pte-eq k h = rw ((ptov-vtop_inverse (k * 2 ^ 12) (omega arith)).0) (
      mk_pde-sum k (flags_of start end_text k) (omega arith)
        (omega (arith, flags-small start end_text k)))

  -- The state of the loop at page `i`.
  pub record Going (i : ℕ) (t : Tables) : Type 0 where
    pub mapped : Mapped (flags_of start end_text) base count (tables i) i t
    pub current : i % 1024 ≢ 0 → t.pt ≡ base + 4096 * tables i

  record Round (i : ℕ) (t : Tables) : Type 0 where
    pub t' : Tables
    pub returns : map_page start end_text base i t ≡ done t'
    pub going : Going (i + 1) t'

  -- The part of a round behind the test of the directory.
  store_part :
      (i : ℕ) (t : Tables)
      → i < 2 ^ 18
      → tables (i + 1) < count
      → t.pt ≡ base + 4096 * tables (i + 1)
      → Mapped (flags_of start end_text) base count (tables (i + 1)) i t
      → Going
          (i + 1)
          (record t { mem = store32 (slot base i) (i * 2 ^ 12 + flags_of start end_text i) t.mem })
  store_part i t low room at mapped = record {
    mapped = store-Mapped placed mapped (omega arith) (omega (arith, flags-small start end_text i));
    current = λ h. at;
  }

  round_eq :
      (i : ℕ) (t t1 : Tables)
      → i < 2 ^ 18
      → (if load32 (entry_at base (768 + i / 1024)) t.mem == 0
          then new_table (entry_at base (768 + i / 1024)) t
          else done t)
        ≡ done t1
      → t1.pt ≡ base + 4096 * tables (i + 1)
      → map_page start end_text base i t
        ≡ done (record t1 {
          mem = store32 (slot base i) (i * 2 ^ 12 + flags_of start end_text i) t1.mem;
        })
  unfolding map_page map_at
  round_eq i t t1 low table at =
      let shifted : shl32 i 12 ≡ i * 2 ^ 12 = omega arith in
      let place : base + 4096 * tables (i + 1) + 4 * (i % 1024) ≡ slot base i = omega arith in
      let some_table : t1.pt ≢ 0 = omega (arith, at, placed.high) in
      let idx = page_idx i low in
      ap (λ a. map_at start end_text base (ptov a) t) shifted
      ∙ rw (idx.0, table, ne→== t1.pt 0 some_table, idx.1, pte-eq i low)
          (ap
            (λ q.
              done (record t1 { mem = store32 q (i * 2 ^ 12 + flags_of start end_text i) t1.mem }))
            (ap (λ q. q + 4 * (i % 1024)) at ∙ place))

  fresh_table :
      (i : ℕ) (t : Tables)
      → i < 2 ^ 18
      → tables (i + 1) < count
      → i % 1024 ≡ 0
      → Going i t
      → Round i t
  fresh_table i t low room e g =
      let place : 768 + tables i ≡ 768 + i / 1024 = omega (arith, e) in
      let more : tables i + 1 ≡ tables (i + 1) = omega (arith, e) in
      let vacant : load32 (entry_at base (768 + i / 1024)) t.mem ≡ 0 =
        g.mapped.directory (768 + i / 1024) (omega arith) ∙ ground (arith, place) in
      let (t1, made, at, mapped) =
        new_table-Mapped placed g.mapped (omega (arith, room, more)) (omega (arith, e))
          (omega (arith, e)) in
      let at' : t1.pt ≡ base + 4096 * tables (i + 1) = omega (arith, at, more) in
      record {
        t' = record t1 {
          mem = store32 (slot base i) (i * 2 ^ 12 + flags_of start end_text i) t1.mem;
        };
        returns =
            round_eq i t t1 low
              (rw vacant (subst (λ x. new_table (entry_at base x) t ≡ done t1) place made)) at';
        going =
            store_part i t1 low room at'
              (subst (λ x. Mapped (flags_of start end_text) base count x i t1) more mapped);
      }

  same_table :
      (i : ℕ) (t : Tables)
      → i < 2 ^ 18
      → tables (i + 1) < count
      → i % 1024 ≢ 0
      → Going i t
      → Round i t
  same_table i t low room h g =
      let same : tables i ≡ tables (i + 1) = omega (arith, h) in
      let present : load32 (entry_at base (768 + i / 1024)) t.mem ≢ 0 =
        ground (arith, h, g.mapped.directory (768 + i / 1024) (omega arith)) in
      let at : t.pt ≡ base + 4096 * tables (i + 1) = g.current h ∙ ap (λ x. base + 4096 * x) same in
      record {
        t' = record t {
          mem = store32 (slot base i) (i * 2 ^ 12 + flags_of start end_text i) t.mem;
        };
        returns = round_eq i t t low (rw (ne→== _ 0 present) refl) at;
        going =
            store_part i t low room at
              (subst (λ x. Mapped (flags_of start end_text) base count x i t) same g.mapped);
      }

  round : (i : ℕ) (t : Tables) → i < 2 ^ 18 → tables (i + 1) < count → Going i t → Round i t
  round i t low room g = elim (ℕ_discrete (i % 1024) 0) [
    | yes e ↦ fresh_table i t low room e g
    | no h ↦ same_table i t low room h g
  ]

  pub record Rounds (n i : ℕ) (t : Tables) : Type 0 where
    pub t' : Tables
    pub returns : map_pages start end_text base i n t ≡ done t'
    pub going : Going (i + n) t'

  pub rounds :
      (n i : ℕ) (t : Tables) → i + n ≤ 2 ^ 18 → tables (i + n) < count → Going i t → Rounds n i t
  unfolding map_pages
  rounds zero i t low room g = record {
    t' = t;
    returns = refl;
    going = subst (λ x. Going x t) (omega arith) g;
  }
  rounds (suc n) i t low room g =
      let one = round i t (omega arith) (omega arith) g in
      let rest = rounds n (i + 1) one.t' (omega arith) (omega arith) one.going in
      record {
        t' = rest.t';
        returns = rw (one.returns) rest.returns;
        going = subst (λ x. Going x rest.t') (omega arith) rest.going;
      }
