-- ===== src/Mm/Grants.antt =====
-- Lists of page ranges that `mm_kget_pages` has handed out: what they cover, and disjointness.
use qemu_usage_test.Base.{
  ℕ, ◌+◌, ◌*◌, ◌≤◌, ◌≡◌, refl, ◌⊎◌, inl, inr, Bool, true, false, ◌&&◌, ◌||◌, List, [], ◌∷◌, ◌++◌,
  ltb, leb, All, All-middle, arith,
}

-- `count` pages from the address `page` on.
pub record Grant : Type 0 where
  pub page : ℕ
  pub count : ℕ

abbrev pub end_of : Grant → ℕ
end_of g = g.page + 4096 * g.count

abbrev pub in_grant : Grant → ℕ → Bool
in_grant g a = leb g.page a && ltb a (end_of g)

-- The address `a` is in one of the ranges.
abbrev pub covers : List Grant → ℕ → Bool
covers [] a = false
covers (g ∷ gs) a = in_grant g a || covers gs a

abbrev pub Apart : Grant → Grant → Type 0
Apart g h = (end_of g ≤ h.page) ⊎ (end_of h ≤ g.page)

-- No two of the ranges overlap.
abbrev pub AllApart : List Grant → Type 0
AllApart [] = Unit
AllApart (g ∷ gs) = All (Apart g) gs × AllApart gs

Apart-sym : (g h : Grant) → Apart g h → Apart h g
Apart-sym g h (inl below) = inr below
Apart-sym g h (inr above) = inl above

pub covers-middle :
    (before after : List Grant) (g : Grant) (a : ℕ)
    → covers (before ++ g ∷ after) a ≡ (in_grant g a || covers (before ++ after) a)
covers-middle [] after g a = refl
covers-middle (b ∷ before) after g a = ground (arith, covers-middle before after g a)

-- What is apart from `g` has no address in common with it.
pub covers-Apart :
    (gs : List Grant) (g : Grant) (a : ℕ)
    → All (Apart g) gs
    → in_grant g a ≡ true
    → covers gs a ≡ false
covers-Apart [] g a h k = refl
covers-Apart (x ∷ gs) g a h k = ground (arith, covers-Apart gs g a h.1 k, h.0)

pub AllApart-middle :
    (before after : List Grant) (g : Grant)
    → AllApart (before ++ g ∷ after)
    → All (Apart g) (before ++ after) × AllApart (before ++ after)
AllApart-middle [] after g h = h
AllApart-middle (b ∷ before) after g h =
    let rest = AllApart-middle before after g h.1 in
    let parts = All-middle (Apart b) before after g h.0 in
    ((Apart-sym b g parts.0, rest.0), (parts.1, rest.1))
