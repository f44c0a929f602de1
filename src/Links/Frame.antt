-- ===== src/Links/Frame.antt =====
-- An operation on one list leaves every list alone that shares no node with it.
use mathlib.Core.Path.{subst}
use qemu_usage_test.Base.{ℕ, sym, List, ◌∷◌, ◌++◌}
use qemu_usage_test.Links.{Links, list_del, list_insert, list_add, list_add_tail}
use qemu_usage_test.Links.Shape.{
  Absent, Apart, IsList, Absent-append, Absent-of_ne, Linked-set_next, Linked-set_prev,
  Linked-split, Linked-first, Linked-last,
}
use qemu_usage_test.Links.Laws.{list_del-writes, next-ne, Distinct-behind}
use qemu_usage_test.Links.Insert.{insert-frame}

module _ {l : Links} {other : ℕ} {zs : List ℕ} (kept : IsList l other zs) where
  -- `list_del` of a node of one well-formed list leaves every other well-formed list as it is
  -- that shares no node with the first, heads included.
  pub list_del-frame :
      {head : ℕ} (ys : List ℕ) (x : ℕ) (xs : List ℕ)
      → IsList l head (ys ++ x ∷ xs)
      → Apart (other ∷ zs) (head ∷ (ys ++ x ∷ xs))
      → IsList (list_del x l) other zs
  list_del-frame {head} ys x xs is apart =
      let (left, right) = Linked-split l head x head ys xs is.linked in
      let (hy, hx) = Absent-append head ys (x ∷ xs) is.distinct.0 in
      let behind = Distinct-behind x ys xs is.distinct.1 in
      let p_out : Absent (l.prev x) (other ∷ zs) =
        Absent-of_ne (l.prev x) (other ∷ zs) (head ∷ (ys ++ x ∷ xs)) apart
          (λ c o. Linked-last l head x c ys left o.0 (Absent-append c ys (x ∷ xs) o.1).0) in
      let n_out : Absent (l.next x) (other ∷ zs) =
        Absent-of_ne (l.next x) (other ∷ zs) (head ∷ (ys ++ x ∷ xs)) apart
          (λ c o. Linked-first l x head c xs right o.0 (Absent-append c ys (x ∷ xs) o.1).1.1) in
      subst (λ m. IsList m other zs)
        (sym (list_del-writes l x (next-ne l x head xs right (λ e. hx.0 (sym e)) behind)))
        (record {
          linked =
              Linked-set_next _ (l.prev x) (l.next x) other other zs
                (Linked-set_prev l (l.next x) (l.prev x) other other zs kept.linked n_out.0 n_out.1)
                p_out.0 p_out.1;
          distinct = kept.distinct;
        })

  insert_apart :
      (node p n : ℕ)
      → Absent node (other ∷ zs)
      → Absent p (other ∷ zs)
      → Absent n (other ∷ zs)
      → IsList (list_insert node p n l) other zs
  insert_apart node p n new outp outn = record {
    linked = insert-frame l node p n other other zs kept.linked (new.0, new.0, new.1) outp outn;
    distinct = kept.distinct;
  }

  -- `list_add` and `list_add_tail` to one list leave another list as it is.
  pub list_add-frame :
      {head : ℕ} (node : ℕ) {xs : List ℕ}
      → IsList l head xs
      → Absent node (other ∷ zs)
      → Apart (other ∷ zs) (head ∷ xs)
      → IsList (list_add node head l) other zs × IsList (list_add_tail node head l) other zs
  unfolding list_add list_add_tail
  list_add-frame {head} node {xs} is new apart =
      let head_out : Absent head (other ∷ zs) =
        Absent-of_ne head (other ∷ zs) (head ∷ xs) apart (λ c o. o.0) in
      (
        insert_apart node head (l.next head) new head_out (
            Absent-of_ne (l.next head) (other ∷ zs) (head ∷ xs) apart
              (λ c o. Linked-first l head head c xs is.linked o.0 o.1)),
        insert_apart node (l.prev head) head new
            (Absent-of_ne (l.prev head) (other ∷ zs) (head ∷ xs) apart
              (λ c o. Linked-last l head head c xs is.linked o.0 o.1))
            head_out,
      )
