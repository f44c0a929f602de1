-- ===== src/Links/Insert.antt =====
-- `list_add` and `list_add_tail` on a well-formed list.
use mathlib.Core.Path.{subst}
use mathlib.Core.List.{append_assoc}
use qemu_usage_test.Base.{ℕ, ◌≢◌, sym, List, [], ◌∷◌, ◌++◌, arith}
use qemu_usage_test.Links.{Links, set_next, set_prev, list_insert, list_add, list_add_tail}
use qemu_usage_test.Links.Shape.{
  Linked, Absent, Distinct, IsList, Absent-append, append-Absent, Linked-set_next, Linked-set_prev,
  Linked-append, Linked-split,
}
use qemu_usage_test.Links.Laws.{Distinct-before}

-- An insertion between `p` and `n` leaves a segment alone that neither `p` nor `n` is inside of.
pub insert-frame :
    (l : Links) (node p n a b : ℕ) (xs : List ℕ)
    → Linked l a xs b
    → (node ≢ a) × (node ≢ b) × Absent node xs
    → (p ≢ a) × Absent p xs
    → (n ≢ b) × Absent n xs
    → Linked (list_insert node p n l) a xs b
unfolding list_insert
insert-frame l node p n a b xs h new outp outn =
    Linked-set_prev _ n node a b xs
      (Linked-set_next _ p node a b xs
        (Linked-set_prev _ node p a b xs (Linked-set_next l node n a b xs h new.0 new.2) new.1
          new.2)
        outp.0 outp.1)
      outn.0 outn.1

-- The new node stands between the two.
insert-between :
    (l : Links) (node p n : ℕ)
    → node ≢ p
    → node ≢ n
    → Linked (list_insert node p n l) p [] node × Linked (list_insert node p n l) node [] n
unfolding list_insert set_next set_prev
insert-between l node p n np nn = ((ground arith, ground arith), (ground arith, ground arith))

-- `list_add` of a node that is new to a well-formed list leaves a well-formed list with the node in
-- front.
pub list_add-IsList :
    {l : Links} {head : ℕ} {xs : List ℕ} (node : ℕ)
    → IsList l head xs
    → node ≢ head
    → Absent node xs
    → IsList (list_add node head l) head (node ∷ xs)
unfolding list_add
list_add-IsList {l} {head} {xs} node is apart out = record {
  linked = front xs is.linked is.distinct.0 is.distinct.1 out;
  distinct = (((λ e. apart (sym e)), is.distinct.0), (out, is.distinct.1));
}
  where
    front :
        (xs : List ℕ)
        → Linked l head xs head
        → Absent head xs
        → Distinct xs
        → Absent node xs
        → Linked (list_insert node head (l.next head) l) head (node ∷ xs) head
    front [] h hd d o =
        let (before, behind) =
          insert-between l node head (l.next head) apart (ground (arith, h.0)) in
        (
          before.0,
          before.1,
          subst (λ n. Linked (list_insert node head (l.next head) l) node [] n) h.0 behind,
        )
    front (x ∷ xs) h hd d o =
        let (before, behind) =
          insert-between l node head (l.next head) apart (ground (arith, h.0, o.0)) in
        let next_x =
          subst (λ n. Linked (list_insert node head (l.next head) l) node [] n) h.0 behind in
        (
          before.0,
          before.1,
          (
            next_x.0,
            next_x.1,
            insert-frame l node head (l.next head) x head xs h.2 (o.0, apart, o.1) hd
                (subst (λ n. (n ≢ head) × Absent n xs) (sym h.0) ((λ e. hd.0 (sym e)), d.0)),
          ),
        )

data LastView : List ℕ → Type 0 where
  none_left : LastView []
  last : (ys : List ℕ) (y : ℕ) → LastView (ys ++ y ∷ [])

view_last : (xs : List ℕ) → LastView xs
view_last [] = none_left
view_last (x ∷ xs) = extend x (view_last xs)
  where
    extend : (x : ℕ) {xs : List ℕ} → LastView xs → LastView (x ∷ xs)
    extend x none_left = last [] x
    extend x (last ys y) = last (x ∷ ys) y

Distinct-append : (a : ℕ) (xs : List ℕ) → Distinct xs → Absent a xs → Distinct (xs ++ a ∷ [])
Distinct-append a [] d o = (tt, tt)
Distinct-append a (x ∷ xs) d o =
    (append-Absent x xs (a ∷ []) d.0 ((λ e. o.0 (sym e)), tt), Distinct-append a xs d.1 o.1)

-- `list_add_tail` of a node that is new to a well-formed list leaves a well-formed list with the
-- node at the end.
pub list_add_tail-IsList :
    {l : Links} {head : ℕ} {xs : List ℕ} (node : ℕ)
    → IsList l head xs
    → node ≢ head
    → Absent node xs
    → IsList (list_add_tail node head l) head (xs ++ node ∷ [])
unfolding list_add_tail
list_add_tail-IsList {l} {head} {xs} node is apart out = record {
  linked = back (view_last xs) is.linked is.distinct.0 is.distinct.1 out;
  distinct = (
    append-Absent head xs (node ∷ []) is.distinct.0 ((λ e. apart (sym e)), tt),
    Distinct-append node xs is.distinct.1 out,
  );
}
  where
    back :
        {xs : List ℕ}
        → LastView xs
        → Linked l head xs head
        → Absent head xs
        → Distinct xs
        → Absent node xs
        → Linked (list_insert node (l.prev head) head l) head (xs ++ node ∷ []) head
    back none_left h hd d o =
        let (before, behind) =
          insert-between l node (l.prev head) head (ground (arith, h.1)) apart in
        let before' =
          subst (λ p. Linked (list_insert node (l.prev head) head l) p [] node) h.1 before in
        (before'.0, before'.1, behind)
    back (last ys y) h hd d o =
        let (left, right) = Linked-split l head y head ys [] h in
        let (hy, hh) = Absent-append head ys (y ∷ []) hd in
        let (oy, oh) = Absent-append node ys (y ∷ []) o in
        let (before, behind) =
          insert-between l node (l.prev head) head (ground (arith, right.1, oh.0)) apart in
        let before' =
          subst (λ p. Linked (list_insert node (l.prev head) head l) p [] node) right.1 before in
        let kept =
          insert-frame l node (l.prev head) head head y ys left (apart, oh.0, oy)
            (subst (λ p. (p ≢ head) × Absent p ys) (sym right.1)
              ((λ e. hh.0 (sym e)), Distinct-before y ys [] d))
            (hh.0, hy) in
        subst (λ zs. Linked (list_insert node (l.prev head) head l) head zs head)
          (sym (append_assoc ys (y ∷ []) (node ∷ [])))
          (Linked-append _ head y head ys (node ∷ []) kept (before'.0, before'.1, behind))
