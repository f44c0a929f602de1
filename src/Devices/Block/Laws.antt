-- ===== src/Devices/Block/Laws.antt =====
-- The search of a device by its name.
use qemu_usage_test.Base.{
  ℕ, zero, suc, ◌^◌, ◌<◌, ◌≡◌, refl, sym, Bool, true, false, List, [], ◌∷◌, done, All, length,
  if◌then◌else◌, ne→==, eq→==, arith,
}
use qemu_usage_test.Base.Int.{ℤ}
use qemu_usage_test.Memory.{null}
use qemu_usage_test.Str.{strcmp}
use qemu_usage_test.Links.Shape.{IsList, Linked, Absent}
use qemu_usage_test.Devices.Block.{
  BlockDevices, block_name, is_zero, search_name, blcok_get_by_name,
}

-- The first of the devices whose name compares as equal, or NULL.
abbrev pub first_equal : (ℕ → ℤ) → List ℕ → ℕ
first_equal order [] = null
first_equal order (x ∷ xs) = if is_zero (order x) then x else first_equal order xs

search_name-first :
    (rounds name a : ℕ) (d : BlockDevices) (order : ℕ → ℤ) (xs : List ℕ)
    → Linked d.links a xs d.block_devices
    → Absent d.block_devices xs
    → All (λ x. strcmp name (block_name x) d.mem ≡ done (order x)) xs
    → length xs < rounds
    → search_name rounds name (d.links.next a) d ≡ done (first_equal order xs)
unfolding search_name
search_name-first zero name a d order xs h out cmp k = absurd (omega arith)
search_name-first (suc rounds) name a d order [] h out cmp k =
    rw (eq→== (d.links.next a) d.block_devices h.0) refl
search_name-first (suc rounds) name a d order (x ∷ xs) h out cmp k =
    let rest = search_name-first rounds name x d order xs h.2 out.1 cmp.1 (omega arith) in
    rw (h.0, ne→== x d.block_devices (λ e. out.0 (sym e)), cmp.0, rest) (pick (is_zero (order x)))
  where
    pick :
        (b : Bool)
        → (if b then done x else done (first_equal order xs))
          ≡ done (if b then x else first_equal order xs)
    pick true = refl
    pick false = refl

-- On a well-formed list of fewer than 2^32 devices whose names `strcmp` gets to the end of,
-- `blcok_get_by_name` returns the first device for which `strcmp` gives 0, and NULL if there is
-- none.
pub blcok_get_by_name-first :
    (name : ℕ) (d : BlockDevices) (order : ℕ → ℤ) (xs : List ℕ)
    → IsList d.links d.block_devices xs
    → All (λ x. strcmp name (block_name x) d.mem ≡ done (order x)) xs
    → length xs < 2 ^ 32
    → blcok_get_by_name name d ≡ done (first_equal order xs)
unfolding blcok_get_by_name
blcok_get_by_name-first name d order xs is cmp k =
    search_name-first (2 ^ 32) name d.block_devices d order xs is.linked is.distinct.0 cmp k
