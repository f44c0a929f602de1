-- ===== src/Memory.antt =====
-- Memory as a byte at every address, and C strings in it.
use qemu_usage_test.Base.{ℕ, ◌+◌, ◌≡◌, ◌≢◌, List, [], ◌∷◌, ◌==◌, if◌then◌else◌}

abbrev pub Memory : Type 0
Memory = ℕ → ℕ

-- `*a = v`
unfoldable pub poke : Memory → ℕ → ℕ → Memory
poke mem a v x = if x == a then v else mem x

abbrev pub null : ℕ
null = 0

-- The string `s` lies at `p`, with its terminator behind it.
abbrev pub IsString : Memory → ℕ → List ℕ → Type 0
IsString mem p [] = mem p ≡ 0
IsString mem p (c ∷ s) = (mem p ≡ c) × (c ≢ 0) × IsString mem (p + 1) s
