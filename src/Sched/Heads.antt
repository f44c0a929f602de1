-- ===== src/Sched/Heads.antt =====
-- The heads of the ready lists are set up one after the other.
use qemu_usage_test.Base.{ℕ, zero, suc, ◌+◌, ◌*◌, ◌<◌, ◌≡◌, ◌≢◌, refl, sym, ap, [], arith}
use mathlib.Core.Path.{subst}
use native.Mathlib.Decide.{ℕ_discrete}
use qemu_usage_test.Links.{Links, list_head_init}
use qemu_usage_test.Links.Shape.{IsList}
use qemu_usage_test.Links.Laws.{list_head_init-IsList}
use qemu_usage_test.Sched.{Sched, ready_head}
use qemu_usage_test.Sched.Nodes.{list_head_init-frame}
use qemu_usage_test.Sched.Start.{init_ready_lists}

-- The links behind the set-up of the heads up to `n` of the lists at `lists`.
pub ready_links : ℕ → ℕ → Links → Links
ready_links zero lists l = l
ready_links (suc n) lists l = list_head_init (lists + 8 * n) (ready_links n lists l)

pub init_ready_lists-links :
    (n : ℕ) (s : Sched)
    → init_ready_lists n s ≡ record s { links = ready_links n s.ready_task_list s.links }
unfolding init_ready_lists ready_links
init_ready_lists-links zero s = refl
init_ready_lists-links (suc n) s =
    ap (λ (t : Sched). record t { links = list_head_init (ready_head t n) t.links })
      (init_ready_lists-links n s)

pub ready_links-IsList :
    (n k lists : ℕ) (l : Links) → k < n → IsList (ready_links n lists l) (lists + 8 * k) []
unfolding ready_links
ready_links-IsList zero k lists l h = absurd (omega arith)
ready_links-IsList (suc n) k lists l h = elim (ℕ_discrete k n) [
  | yes e ↦
      subst
        (λ j. IsList (list_head_init (lists + 8 * n) (ready_links n lists l)) (lists + 8 * j) [])
        (sym e) (list_head_init-IsList (lists + 8 * n) (ready_links n lists l))
  | no ne ↦
      list_head_init-frame (lists + 8 * n) (ready_links-IsList n k lists l (omega arith))
        (omega arith)
]

pub ready_links-frame :
    (n lists wait : ℕ) (l : Links)
    → IsList l wait []
    → ((k : ℕ) → k < n → wait ≢ lists + 8 * k)
    → IsList (ready_links n lists l) wait []
unfolding ready_links
ready_links-frame zero lists wait l is out = is
ready_links-frame (suc n) lists wait l is out =
    list_head_init-frame (lists + 8 * n)
      (ready_links-frame n lists wait l is (λ k h. out k (omega arith)))
      ((λ e. out n (omega arith) (sym e)), tt)
