-- ===== src/Links/Shape.antt =====
-- When the links from a head run through a list of nodes and back.
use qemu_usage_test.Base.{ℕ, ◌≡◌, ◌≢◌, sym, List, [], ◌∷◌, ◌++◌, arith}
use qemu_usage_test.Links.{Links, set_next, set_prev}

-- From `a` the links lead through `xs` to `b`, in both directions.
abbrev pub Linked : Links → ℕ → List ℕ → ℕ → Type 0
Linked l a [] b = (l.next a ≡ b) × (l.prev b ≡ a)
Linked l a (x ∷ xs) b = (l.next a ≡ x) × (l.prev x ≡ a) × Linked l x xs b

abbrev pub Absent : ℕ → List ℕ → Type 0
Absent a [] = Unit
Absent a (x ∷ xs) = (a ≢ x) × Absent a xs

abbrev pub Distinct : List ℕ → Type 0
Distinct [] = Unit
Distinct (x ∷ xs) = Absent x xs × Distinct xs

-- `head` is the head of a list of the nodes `xs`.
pub record IsList (l : Links) (head : ℕ) (xs : List ℕ) : Type 0 where
  pub linked : Linked l head xs head
  pub distinct : Distinct (head ∷ xs)

pub Absent-append : (a : ℕ) (xs ys : List ℕ) → Absent a (xs ++ ys) → Absent a xs × Absent a ys
Absent-append a [] ys h = (tt, h)
Absent-append a (x ∷ xs) ys h = let rest = Absent-append a xs ys h.1 in ((h.0, rest.0), rest.1)

pub append-Absent : (a : ℕ) (xs ys : List ℕ) → Absent a xs → Absent a ys → Absent a (xs ++ ys)
append-Absent a [] ys h k = k
append-Absent a (x ∷ xs) ys h k = (h.0, append-Absent a xs ys h.1 k)

-- Writes outside of a segment leave it as it is.
pub Linked-set_next :
    (l : Links) (n v a b : ℕ) (xs : List ℕ)
    → Linked l a xs b
    → n ≢ a
    → Absent n xs
    → Linked (set_next n v l) a xs b
unfolding set_next
Linked-set_next l n v a b [] h na out = (ground (arith, h.0), h.1)
Linked-set_next l n v a b (x ∷ xs) h na out =
    (ground (arith, h.0), h.1, Linked-set_next l n v x b xs h.2 out.0 out.1)

pub Linked-set_prev :
    (l : Links) (n v a b : ℕ) (xs : List ℕ)
    → Linked l a xs b
    → n ≢ b
    → Absent n xs
    → Linked (set_prev n v l) a xs b
unfolding set_prev
Linked-set_prev l n v a b [] h nb out = (h.0, ground (arith, h.1))
Linked-set_prev l n v a b (x ∷ xs) h nb out =
    (h.0, ground (arith, h.1, out.0), Linked-set_prev l n v x b xs h.2 nb out.1)

pub Linked-append :
    (l : Links) (a x b : ℕ) (xs ys : List ℕ)
    → Linked l a xs x
    → Linked l x ys b
    → Linked l a (xs ++ x ∷ ys) b
Linked-append l a x b [] ys h k = (h.0, h.1, k)
Linked-append l a x b (y ∷ xs) ys h k = (h.0, h.1, Linked-append l y x b xs ys h.2 k)

pub Linked-split :
    (l : Links) (a x b : ℕ) (xs ys : List ℕ)
    → Linked l a (xs ++ x ∷ ys) b
    → Linked l a xs x × Linked l x ys b
Linked-split l a x b [] ys h = ((h.0, h.1), h.2)
Linked-split l a x b (y ∷ xs) ys h =
    let rest = Linked-split l y x b xs ys h.2 in ((h.0, h.1, rest.0), rest.1)

-- The neighbours of the ends lie in the segment.
pub Linked-first :
    (l : Links) (a b c : ℕ) (xs : List ℕ) → Linked l a xs b → c ≢ b → Absent c xs → c ≢ l.next a
Linked-first l a b c [] h cb out = ground (arith, h.0)
Linked-first l a b c (x ∷ xs) h cb out = ground (arith, h.0, out.0)

pub Linked-last :
    (l : Links) (a b c : ℕ) (xs : List ℕ) → Linked l a xs b → c ≢ a → Absent c xs → c ≢ l.prev b
Linked-last l a b c [] h ca out = ground (arith, h.1)
Linked-last l a b c (x ∷ xs) h ca out = Linked-last l x b c xs h.2 out.0 out.1

-- No node of the first list is in the second.
abbrev pub Apart : List ℕ → List ℕ → Type 0
Apart [] ys = Unit
Apart (x ∷ xs) ys = Absent x ys × Apart xs ys

-- A node that every member of a list differs from is absent from it.
pub Absent-of_ne :
    (n : ℕ) (xs zs : List ℕ) → Apart xs zs → ((c : ℕ) → Absent c zs → c ≢ n) → Absent n xs
Absent-of_ne n [] zs h f = tt
Absent-of_ne n (x ∷ xs) zs h f = ((λ e. f x h.0 (sym e)), Absent-of_ne n xs zs h.1 f)

Apart-cons : (y : ℕ) (xs ys : List ℕ) → Apart xs ys → Absent y xs → Apart xs (y ∷ ys)
Apart-cons y [] ys h o = tt
Apart-cons y (x ∷ xs) ys h o = (((λ e. o.0 (sym e)), h.0), Apart-cons y xs ys h.1 o.1)

Apart-nil : (xs : List ℕ) → Apart xs []
Apart-nil [] = tt
Apart-nil (x ∷ xs) = (tt, Apart-nil xs)

pub Apart-sym : (xs ys : List ℕ) → Apart xs ys → Apart ys xs
Apart-sym [] ys h = Apart-nil ys
Apart-sym (x ∷ xs) ys h = Apart-cons x ys xs (Apart-sym xs ys h.1) h.0

pub Apart-del :
    (x : ℕ) (ys zs ws : List ℕ) → Apart (ys ++ x ∷ zs) ws → Absent x ws × Apart (ys ++ zs) ws
Apart-del x [] zs ws h = h
Apart-del x (y ∷ ys) zs ws h = let rest = Apart-del x ys zs ws h.1 in (rest.0, (h.0, rest.1))
