-- ===== src/Links.antt =====
-- lib/list.h: doubly linked circular lists through nodes embedded in other objects.
-- A node is known by its address; `next` and `prev` are its two fields, at every address.
pub mod Shape
pub mod Laws
pub mod Insert
pub mod Frame
mod Tests
use qemu_usage_test.Base.{ℕ, Bool, ◌||◌, ◌==◌, if◌then◌else◌}

pub record Links : Type 0 where
  pub prev : ℕ → ℕ
  pub next : ℕ → ℕ

abbrev pub update : (ℕ → ℕ) → ℕ → ℕ → ℕ → ℕ
update f a v b = if b == a then v else f b

-- `a->next = v` and `a->prev = v`
unfoldable pub set_next : ℕ → ℕ → Links → Links
set_next a v l = record l { next = update l.next a v }

unfoldable pub set_prev : ℕ → ℕ → Links → Links
set_prev a v l = record l { prev = update l.prev a v }

unfoldable pub list_head_init : ℕ → Links → Links
unfolding set_next set_prev
list_head_init head l = set_next head head (set_prev head head l)

unfoldable pub list_empty : ℕ → Links → Bool
list_empty head l = (l.next head == head) || (l.prev head == head)

unfoldable pub list_del : ℕ → Links → Links
unfolding set_next set_prev
list_del node l =
    let l = set_prev (l.next node) (l.prev node) l in set_next (l.prev node) (l.next node) l

unfoldable pub list_pop : ℕ → Links → ℕ × Links
unfolding list_del
list_pop head l = let ret_node = l.next head in (ret_node, list_del ret_node l)

-- __list_add
unfoldable pub list_insert : ℕ → ℕ → ℕ → Links → Links
unfolding set_next set_prev
list_insert node prev next l =
    set_prev next node (set_next prev node (set_prev node prev (set_next node next l)))

unfoldable pub list_add : ℕ → ℕ → Links → Links
unfolding list_insert
list_add node head l = list_insert node head (l.next head) l

unfoldable pub list_add_tail : ℕ → ℕ → Links → Links
unfolding list_insert
list_add_tail node head l = list_insert node (l.prev head) head l
