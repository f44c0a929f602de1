-- ===== src/Links/Tests.antt =====
-- The theorems at a list of two nodes, at 20 and 30, with its head at 10, beside an empty one at 40.
use qemu_usage_test.Base.{refl, [], ◌∷◌, ◌==◌, if◌then◌else◌, arith}
use qemu_usage_test.Links.{Links, list_del}
use qemu_usage_test.Links.Shape.{IsList}
use qemu_usage_test.Links.Laws.{list_del-IsList}

abbrev two_nodes : Links
two_nodes = record {
  next = λ a. if a == 10 then 20 else if a == 20 then 30 else if a == 30 then 10 else a;
  prev = λ a. if a == 10 then 30 else if a == 20 then 10 else if a == 30 then 20 else a;
}

two_nodes-IsList : IsList two_nodes 10 (20 ∷ 30 ∷ [])
two_nodes-IsList = record { linked = omega arith; distinct = omega arith }

beside-IsList : IsList two_nodes 40 []
beside-IsList = record { linked = (refl, refl); distinct = (tt, tt) }

list_del-IsList_example : IsList (list_del 20 two_nodes) 10 (30 ∷ [])
list_del-IsList_example = list_del-IsList [] 20 (30 ∷ []) two_nodes-IsList
