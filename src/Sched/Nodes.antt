-- ===== src/Sched/Nodes.antt =====
-- What the two list nodes of a new task do to the lists.
use qemu_usage_test.Base.{ℕ, ◌≢◌, sym, List, [], ◌∷◌, ◌++◌}
use qemu_usage_test.Links.{Links, list_add, list_add_tail, list_head_init}
use qemu_usage_test.Links.Shape.{
  IsList, Absent, Apart, Apart-sym, Absent-append, Linked-set_next, Linked-set_prev,
}
use qemu_usage_test.Links.Insert.{list_add-IsList, list_add_tail-IsList}
use qemu_usage_test.Links.Frame.{list_add-frame}
use qemu_usage_test.Sched.{all_tasks, queued_tasks}
use qemu_usage_test.Sched.Create.{clear_nodes}

pub clear_nodes-IsList :
    {l : Links} {head : ℕ} {xs : List ℕ} (tsk : ℕ)
    → IsList l head xs
    → Absent (all_tasks tsk) (head ∷ xs)
    → Absent (queued_tasks tsk) (head ∷ xs)
    → IsList (clear_nodes tsk l) head xs
unfolding clear_nodes
clear_nodes-IsList {l} {head} {xs} tsk is a q = record {
  linked =
      Linked-set_next _ (all_tasks tsk) 0 head head xs
        (Linked-set_prev _ (all_tasks tsk) 0 head head xs
          (Linked-set_next _ (queued_tasks tsk) 0 head head xs
            (Linked-set_prev l (queued_tasks tsk) 0 head head xs is.linked q.0 q.1) q.0 q.1)
          a.0 a.1)
        a.0 a.1;
  distinct = is.distinct;
}

pub cleared_twice :
    {l : Links} {head : ℕ} {xs : List ℕ} (tsk : ℕ)
    → IsList l head xs
    → Absent (all_tasks tsk) (head ∷ xs)
    → Absent (queued_tasks tsk) (head ∷ xs)
    → IsList (clear_nodes tsk (clear_nodes tsk l)) head xs
cleared_twice tsk is a q = clear_nodes-IsList tsk (clear_nodes-IsList tsk is a q) a q

-- Two new nodes, one put in front of one list and one at the end of another.
pub two_added :
    {l : Links} {p r : ℕ} {ts rs : List ℕ} (a q : ℕ)
    → IsList l p ts
    → IsList l r rs
    → Absent a ((p ∷ ts) ++ r ∷ rs)
    → Absent q ((p ∷ ts) ++ r ∷ rs)
    → a ≢ q
    → Apart (p ∷ ts) (r ∷ rs)
    → IsList (list_add_tail q r (list_add a p l)) p (a ∷ ts)
      × IsList (list_add_tail q r (list_add a p l)) r (rs ++ q ∷ [])
two_added {l} {p} {r} {ts} {rs} a q all ready a_out q_out aq apart =
    let (ap, ar) = Absent-append a (p ∷ ts) (r ∷ rs) a_out in
    let (qp, qr) = Absent-append q (p ∷ ts) (r ∷ rs) q_out in
    let all1 = list_add-IsList a all ap.0 ap.1 in
    let ready1 = (list_add-frame ready a all ar (Apart-sym (p ∷ ts) (r ∷ rs) apart)).0 in
    (
      (list_add-frame all1 q ready1 (qp.0, ((λ e. aq (sym e)), qp.1)) (apart.0, (ar, apart.1))).1,
      list_add_tail-IsList q ready1 qr.0 qr.1,
    )

-- A list that neither of the two nodes nor of the two lists is in stays as it is.
pub two_added-frame :
    {l : Links} {p r h : ℕ} {ts rs xs : List ℕ} (a q : ℕ)
    → IsList l p ts
    → IsList l r rs
    → IsList l h xs
    → Absent a ((p ∷ ts) ++ r ∷ rs)
    → Apart (p ∷ ts) (r ∷ rs)
    → Absent a (h ∷ xs)
    → Absent q (h ∷ xs)
    → Apart (h ∷ xs) (p ∷ ts)
    → Apart (h ∷ xs) (r ∷ rs)
    → IsList (list_add_tail q r (list_add a p l)) h xs
two_added-frame {l} {p} {r} {h} {ts} {rs} a q all ready is a_out apart ha hq hp hr =
    let (ap, ar) = Absent-append a (p ∷ ts) (r ∷ rs) a_out in
    let ready1 = (list_add-frame ready a all ar (Apart-sym (p ∷ ts) (r ∷ rs) apart)).0 in
    let is1 = (list_add-frame is a all ha hp).0 in (list_add-frame is1 q ready1 hq hr).1

-- Setting up a head leaves a list alone that it is not in.
pub list_head_init-frame :
    {l : Links} {h : ℕ} {xs : List ℕ} (head : ℕ)
    → IsList l h xs
    → Absent head (h ∷ xs)
    → IsList (list_head_init head l) h xs
unfolding list_head_init
list_head_init-frame {l} {h} {xs} head is out = record {
  linked =
      Linked-set_next _ head head h h xs (Linked-set_prev l head head h h xs is.linked out.0 out.1)
        out.0 out.1;
  distinct = is.distinct;
}
