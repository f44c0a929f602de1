-- ===== src/Links/Laws.antt =====
-- Each operation of list.h on a well-formed list.
use mathlib.Core.Path.{subst, subst₂}
use qemu_usage_test.Base.{
  ◌↔◌, ℕ, ◌≡◌, ◌≢◌, refl, sym, List, [], ◌∷◌, ◌++◌, true, ne→==, eq→==, arith,
}
use qemu_usage_test.Links.{
  Links, set_next, set_prev, list_head_init, list_empty, list_del, list_pop,
}
use qemu_usage_test.Links.Shape.{
  Linked, Absent, Distinct, IsList, Absent-append, append-Absent, Linked-set_next, Linked-set_prev,
  Linked-split, Linked-first, Linked-last,
}

-- `list_del` as two writes with values from before.
pub list_del-writes :
    (l : Links) (x : ℕ)
    → l.next x ≢ x
    → list_del x l ≡ set_next (l.prev x) (l.next x) (set_prev (l.next x) (l.prev x) l)
unfolding list_del
list_del-writes l x h = rw (ne→== x (l.next x) (λ e. h (sym e)))

join :
    (l : Links) (a z b : ℕ) (zs : List ℕ)
    → Linked l z zs b
    → Absent a (z ∷ zs)
    → z ≢ b
    → Absent z zs
    → Linked (set_next a z (set_prev z a l)) a (z ∷ zs) b
unfolding set_next set_prev
join l a z b zs h out zb d = (
  ground arith,
  ground arith,
  Linked-set_next (set_prev z a l) a z z b zs (Linked-set_prev l z a z b zs h zb d) out.0 out.1,
)

module _ (l : Links) (x : ℕ) where
  abbrev without : Links
  without = set_next (l.prev x) (l.next x) (set_prev (l.next x) (l.prev x) l)

  Linked-del :
      (a b : ℕ) (ys zs : List ℕ)
      → Linked l a (ys ++ x ∷ zs) b
      → Absent a (ys ++ x ∷ zs)
      → Absent b (ys ++ x ∷ zs)
      → Distinct (ys ++ x ∷ zs)
      → Linked without a (ys ++ zs) b
  unfolding set_next set_prev
  Linked-del a b [] [] h ha hb d = (ground (arith, h.1, h.2.0), ground (arith, h.1, h.2.0))
  Linked-del a b [] (z ∷ zs) h ha hb d =
      subst₂ (λ p n. Linked (set_next p n (set_prev n p l)) a (z ∷ zs) b) (sym h.1) (sym h.2.0)
        (join l a z b zs h.2.2 ha.1 (λ e. hb.1.0 (sym e)) d.1.0)
  Linked-del a b (y ∷ ys) zs h ha hb d =
      let (left, right) = Linked-split l y x b ys zs h.2 in
      let (hay, hax) = Absent-append a ys (x ∷ zs) ha.1 in
      let (hyy, hyx) = Absent-append y ys (x ∷ zs) d.0 in
      (
        ground (arith, h.0, Linked-last l y x a ys left ha.0 hay),
        ground (arith, h.1, Linked-first l x b y zs right (λ e. hb.0 (sym e)) hyx.1),
        Linked-del y b ys zs h.2 d.0 hb.1 d.1,
      )

Distinct-del : (x : ℕ) (ys zs : List ℕ) → Distinct (ys ++ x ∷ zs) → Distinct (ys ++ zs)
Distinct-del x [] zs d = d.1
Distinct-del x (y ∷ ys) zs d =
    let (hyy, hyx) = Absent-append y ys (x ∷ zs) d.0 in
    (append-Absent y ys zs hyy hyx.1, Distinct-del x ys zs d.1)

pub Distinct-behind : (x : ℕ) (ys zs : List ℕ) → Distinct (ys ++ x ∷ zs) → Absent x zs
Distinct-behind x [] zs d = d.0
Distinct-behind x (y ∷ ys) zs d = Distinct-behind x ys zs d.1

pub next-ne :
    (l : Links) (x b : ℕ) (zs : List ℕ) → Linked l x zs b → x ≢ b → Absent x zs → l.next x ≢ x
next-ne l x b zs h xb out e = Linked-first l x b x zs h xb out (sym e)

-- `list_del` of a node of a well-formed list leaves a well-formed list of the other nodes in their
-- order.
pub list_del-IsList :
    {l : Links} {head : ℕ} (ys : List ℕ) (x : ℕ) (zs : List ℕ)
    → IsList l head (ys ++ x ∷ zs)
    → IsList (list_del x l) head (ys ++ zs)
list_del-IsList {l} {head} ys x zs is =
    let (left, right) = Linked-split l head x head ys zs is.linked in
    let (hy, hx) = Absent-append head ys (x ∷ zs) is.distinct.0 in
    let apart = Distinct-behind x ys zs is.distinct.1 in
    rw (list_del-writes l x (next-ne l x head zs right (λ e. hx.0 (sym e)) apart)) (record {
      linked = Linked-del l x head head ys zs is.linked is.distinct.0 is.distinct.0 is.distinct.1;
      distinct = (append-Absent head ys zs hy hx.1, Distinct-del x ys zs is.distinct.1);
    })

pub Distinct-before : (y : ℕ) (ys zs : List ℕ) → Distinct (ys ++ y ∷ zs) → Absent y ys
Distinct-before y [] zs d = tt
Distinct-before y (x ∷ ys) zs d =
    ((λ e. (Absent-append x ys (y ∷ zs) d.0).1.0 (sym e)), Distinct-before y ys zs d.1)

pub Absent-del : (x : ℕ) (ys zs : List ℕ) → Distinct (ys ++ x ∷ zs) → Absent x (ys ++ zs)
Absent-del x ys zs d = append-Absent x ys zs (Distinct-before x ys zs d) (Distinct-behind x ys zs d)

-- `list_pop` of a well-formed list with a node returns the first node and leaves a well-formed list
-- of the rest.
pub list_pop-IsList :
    {l : Links} {head x : ℕ} {xs : List ℕ}
    → IsList l head (x ∷ xs)
    → ((list_pop head l).0 ≡ x) × IsList (list_pop head l).1 head xs
unfolding list_pop
list_pop-IsList {l} {head} {x} {xs} is =
    let e : l.next head ≡ x = is.linked.0 in
    (e, subst (λ n. IsList (list_del n l) head xs) (sym e) (list_del-IsList [] x xs is))

-- On a well-formed list, `list_empty` holds exactly if the list has no node.
pub list_empty_iff :
    {l : Links} {head : ℕ} {xs : List ℕ} → IsList l head xs → (list_empty head l ≡ true) ↔ (xs ≡ [])
unfolding list_empty
list_empty_iff {l} {head} {xs} is = decide xs is.linked is.distinct.0
  where
    decide :
        (xs : List ℕ)
        → Linked l head xs head
        → Absent head xs
        → (list_empty head l ≡ true) ↔ (xs ≡ [])
    decide [] h o = ((λ _. refl), λ _. rw (eq→== (l.next head) head h.0))
    decide (x ∷ xs) h o =
        ((λ e. ground (arith, e, h.0, o.0, Linked-last l x head head xs h.2 o.0 o.1)), (λ e. cc))

pub list_head_init-IsList : (head : ℕ) (l : Links) → IsList (list_head_init head l) head []
unfolding list_head_init
list_head_init-IsList head l = record { linked = (ground arith, ground arith); distinct = (tt, tt) }
