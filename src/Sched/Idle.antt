-- ===== src/Sched/Idle.antt =====
-- The tasks that init_tasks makes.
use qemu_usage_test.Base.{
  ℕ, ◌+◌, ◌*◌, ◌≡◌, ◌≢◌, refl, sym, ◌∙◌, List, [], ◌∷◌, some, done, ◌>>=◌, eq→==, arith,
}
use mathlib.Core.Path.{subst}
use qemu_usage_test.Memory.{null}
use qemu_usage_test.Links.Shape.{IsList, Apart, Distinct}
use qemu_usage_test.Mm.{MemPool}
use qemu_usage_test.Sched.{Sched, task_ready, prio_default, all_tasks, queued_tasks, ready_head}
use qemu_usage_test.Sched.Create.{task_create}
use qemu_usage_test.Sched.Created.{init_eq}
use qemu_usage_test.Sched.Start.{init_name, idle_name, init_tasks}
use qemu_usage_test.Sched.Stage.{
  Grants, Stage, IsNew, AreApart, create-Stage, first_task, first-Stage, valid_default,
}

-- The heads and the nodes of the three tasks lie at different addresses.
abbrev pub NodesApart : ℕ → ℕ → ℕ → ℕ → ℕ → ℕ → Type 0
NodesApart wait all lists c a b = Distinct (
    wait
    ∷ (lists + 8 * prio_default)
    ∷ all
    ∷ all_tasks c
    ∷ queued_tasks c
    ∷ all_tasks a
    ∷ queued_tasks a
    ∷ all_tasks b
    ∷ queued_tasks b
    ∷ [])

-- The nodes of a page are new to lists that are apart.
abbrev Fits : ℕ → ℕ → ℕ → List ℕ → List ℕ → ℕ → Type 0
Fits wait all lists ts rs page =
    IsNew wait all lists ts rs (all_tasks page)
    × IsNew wait all lists ts rs (queued_tasks page)
    × AreApart wait all lists ts rs

new_first :
    (wait all lists c a b : ℕ)
    → NodesApart wait all lists c a b
    → Fits wait all lists (all_tasks c ∷ []) (queued_tasks c ∷ []) a
new_first wait all lists c a b apart = (
  record { in_none = omega arith; not_wait = omega arith },
  record { in_none = omega arith; not_wait = omega arith },
  record { both = omega arith; wait_tasks = omega arith; wait_ready = omega arith },
)

new_second :
    (wait all lists c a b : ℕ)
    → NodesApart wait all lists c a b
    → Fits wait all lists (all_tasks a ∷ all_tasks c ∷ []) (queued_tasks c ∷ queued_tasks a ∷ []) b
new_second wait all lists c a b apart = (
  record { in_none = omega arith; not_wait = omega arith },
  record { in_none = omega arith; not_wait = omega arith },
  record { both = omega arith; wait_tasks = omega arith; wait_ready = omega arith },
)

pub waiting_alone :
    (wait all lists c a b : ℕ)
    → NodesApart wait all lists c a b
    → Apart
        (wait ∷ [])
        ((lists + 8 * prio_default) ∷ queued_tasks c ∷ queued_tasks a ∷ queued_tasks b ∷ [])
waiting_alone wait all lists c a b apart = omega arith

module _ (task_exit switch_initial idle_proc sem : ℕ) (proc_ne : idle_proc ≢ null) (s : Sched)
    (a b : ℕ) {pool1 pool2 : MemPool} (grants_a : Grants s.pool a pool1)
    (grants_b : Grants pool1 b pool2) where
  init_tasks_eq :
      (wait : ℕ)
      → s.current ≢ null
      → s.list_slock ≡ 1
      → s.pid_slock ≡ 1
      → init_tasks task_exit switch_initial idle_proc sem s ≡ (do
        r ←
            task_create task_exit switch_initial idle_proc sem
              (some idle_name)
              prio_default
              task_ready
              (first_task wait s)
        r ←
            task_create task_exit switch_initial idle_proc null
              (some idle_name)
              prio_default
              task_ready
              r.1
        done r.1)
  unfolding init_tasks
  init_tasks_eq wait some_task free pid_free =
      rw
        (
          init_eq s.current init_name prio_default (record s { init_task = s.current }) some_task
              valid_default free pid_free,
          eq→== s.current s.current refl,
        )
        refl

  pub init_tasks-Stage :
      (wait : ℕ)
      → s.list_slock ≡ 1
      → s.pid_slock ≡ 1
      → s.current ≢ null
      → a ≢ null
      → b ≢ null
      → IsList s.links s.all_tasks_list []
      → IsList s.links (ready_head s prio_default) []
      → IsList s.links wait []
      → NodesApart wait s.all_tasks_list s.ready_task_list s.current a b
      → (s' : Sched) × (init_tasks task_exit switch_initial idle_proc sem s ≡ done s')
        × Stage wait s.all_tasks_list s.ready_task_list s.current
            (all_tasks b ∷ all_tasks a ∷ all_tasks s.current ∷ [])
            (queued_tasks s.current ∷ queued_tasks a ∷ queued_tasks b ∷ [])
            s'
  init_tasks-Stage wait free pid_free some_task some_a some_b tasks ready nobody apart =
      let new1 = new_first wait s.all_tasks_list s.ready_task_list s.current a b apart in
      let new2 = new_second wait s.all_tasks_list s.ready_task_list s.current a b apart in
      let one = first-Stage wait s tasks ready nobody (omega arith) in
      let (pid_a, s1, made_a, two, pool_a) =
        create-Stage wait s.all_tasks_list s.ready_task_list s.current task_exit switch_initial
          idle_proc sem proc_ne (first_task wait s) a one grants_a some_a new1.0 new1.1 new1.2 in
      let (pid_b, s2, made_b, three, pool_b) =
        create-Stage wait s.all_tasks_list s.ready_task_list s.current task_exit switch_initial
          idle_proc null proc_ne s1 b two (subst (λ p. Grants p b pool2) (sym pool_a) grants_b)
          some_b new2.0 new2.1 new2.2 in
      (s2, init_tasks_eq wait some_task free pid_free ∙ rw (made_a, made_b) refl, three)
