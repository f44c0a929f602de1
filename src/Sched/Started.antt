-- ===== src/Sched/Started.antt =====
-- What sched_init leaves: two idle tasks, and the task that called it asleep.
use qemu_usage_test.Base.{
  ℕ, ◌+◌, ◌*◌, ◌<◌, ◌≡◌, ◌≢◌, refl, sym, ap, ◌∙◌, [], ◌∷◌, Outcome, done, arith,
}
use mathlib.Core.Path.{subst, subst₂}
use qemu_usage_test.Memory.{null}
use qemu_usage_test.Spin.{spin_lock_init}
use qemu_usage_test.Links.{list_head_init}
use qemu_usage_test.Links.Shape.{IsList, Apart}
use qemu_usage_test.Links.Laws.{list_head_init-IsList}
use qemu_usage_test.Mm.{MemPool}
use qemu_usage_test.Sched.{Sched, task_blocked, prio_default, queued_tasks, ready_head}
use qemu_usage_test.Sched.Switch.{IsReady, queued_entry-queued_tasks}
use qemu_usage_test.Sched.Nodes.{list_head_init-frame}
use qemu_usage_test.Sched.Start.{init_tasks, sched_init}
use qemu_usage_test.Semaphore.{Semaphore, sema_init, sema_down}
use qemu_usage_test.Semaphore.Down.{Asleep, sema_down-Asleep}
use qemu_usage_test.Sched.Stage.{Grants}
use qemu_usage_test.Sched.Heads.{
  ready_links, init_ready_lists-links, ready_links-IsList, ready_links-frame,
}
use qemu_usage_test.Sched.Idle.{NodesApart, init_tasks-Stage, waiting_alone}

-- What sched_init leaves: the first idle task runs, both are ready, and the task that called waits.
pub record SchedStarted (sem a b : ℕ) (s : Sched) (r : Outcome (Semaphore × Sched)) : Type 0 where
  pub s' : Sched
  pub returns : r ≡ done (record { slock = 1; count = 0; wait = sem + 8 }, s')
  pub idle_runs : s'.current ≡ a
  pub ready : IsReady s' (queued_tasks a ∷ queued_tasks b ∷ [])
  pub waits : IsList s'.links (sem + 8) (queued_tasks s.current ∷ [])
  pub blocked : (s'.tasks s.current).status ≡ task_blocked

module _ (task_exit switch_initial idle_proc sem : ℕ) (proc_ne : idle_proc ≢ null) (s : Sched)
    (a b : ℕ) where
  -- The state before the tasks are made.
  abbrev prepared : Sched
  prepared = record s {
    links =
        list_head_init s.all_tasks_list
          (ready_links 64 s.ready_task_list (list_head_init (sem + 8) s.links));
    pid_slock = 1;
    list_slock = 1;
  }

  abbrev closed : Semaphore
  closed = record { slock = 1; count = 0; wait = sem + 8 }

  sched_init_eq :
      {s2 : Sched} {r : Semaphore × Sched}
      → init_tasks task_exit switch_initial idle_proc sem prepared ≡ done s2
      → sema_down closed s2 ≡ done r
      → sched_init task_exit switch_initial idle_proc sem s ≡ done r
  unfolding sched_init sema_init spin_lock_init
  sched_init_eq made down =
      rw
        (
          init_ready_lists-links 64 (record s {
            links = list_head_init (sem + 8) s.links;
            pid_slock = 1;
            list_slock = 1;
          }),
          made,
          down,
        )
        refl

  prepared-lists :
      NodesApart (sem + 8) s.all_tasks_list s.ready_task_list s.current a b
      → ((k : ℕ) → k < 64 → sem + 8 ≢ s.ready_task_list + 8 * k)
      → IsList prepared.links s.all_tasks_list []
        × IsList prepared.links (s.ready_task_list + 8 * prio_default) []
        × IsList prepared.links (sem + 8) []
  prepared-lists apart out =
      let l = list_head_init (sem + 8) s.links in
      let none =
        ready_links-frame 64 s.ready_task_list (sem + 8) l (list_head_init-IsList (sem + 8) s.links)
          out in
      let ready = ready_links-IsList 64 prio_default s.ready_task_list l (omega arith) in
      (
        list_head_init-IsList s.all_tasks_list (ready_links 64 s.ready_task_list l),
        list_head_init-frame s.all_tasks_list ready ((λ e. apart.1.0.0 (sym e)), tt),
        list_head_init-frame s.all_tasks_list none ((λ e. apart.0.1.0 (sym e)), tt),
      )

  -- For an idle routine and a current task that are not NULL, two pages that the allocator gives
  -- one after the other, and list heads and nodes at different addresses, with the waiting list
  -- of the semaphore outside of the heads of the ready lists, `sched_init` succeeds: the first
  -- idle task runs, the two idle tasks are the ready ones of the default priority in the order of
  -- their creation, and the task that called is blocked and alone in the waiting list of the
  -- semaphore, whose count is 0.
  pub sched_init-SchedStarted :
      {pool1 pool2 : MemPool}
      → s.current ≢ null
      → a ≢ null
      → b ≢ null
      → Grants s.pool a pool1
      → Grants pool1 b pool2
      → NodesApart (sem + 8) s.all_tasks_list s.ready_task_list s.current a b
      → ((k : ℕ) → k < 64 → sem + 8 ≢ s.ready_task_list + 8 * k)
      → SchedStarted sem a b s (sched_init task_exit switch_initial idle_proc sem s)
  sched_init-SchedStarted some_task some_a some_b grants_a grants_b apart out =
      let lists = prepared-lists apart out in
      let (s2, made, st) =
        init_tasks-Stage task_exit switch_initial idle_proc sem proc_ne prepared a b grants_a
          grants_b (sem + 8) refl refl some_task some_a some_b lists.0 lists.1 lists.2 apart in
      let head : ready_head s2 prio_default ≡ s.ready_task_list + 8 * prio_default =
        ap (λ l. l + 8 * prio_default) st.heads.1 in
      let ready : IsReady s2 (queued_tasks s2.current ∷ queued_tasks a ∷ queued_tasks b ∷ []) =
        subst₂ (λ h c. IsList s2.links h (queued_tasks c ∷ queued_tasks a ∷ queued_tasks b ∷ []))
          (sym head) (sym st.current) st.ready in
      let down : Asleep closed s2 (queued_tasks a) [] (queued_tasks a ∷ queued_tasks b ∷ [])
          (sema_down closed s2) =
        sema_down-Asleep closed s2 [] (queued_tasks a ∷ queued_tasks b ∷ []) refl st.unlocked refl
          (λ e. some_task (sym st.current ∙ e)) st.nobody ready
          (subst₂
            (λ h c.
              Apart ((sem + 8) ∷ []) (h ∷ queued_tasks c ∷ queued_tasks a ∷ queued_tasks b ∷ []))
            (sym head) (sym st.current)
            (waiting_alone (sem + 8) s.all_tasks_list s.ready_task_list s.current a b apart))
          refl in
      record {
        s' = down.s';
        returns = sched_init_eq made down.returns;
        idle_runs = down.current ∙ queued_entry-queued_tasks a;
        ready = down.ready;
        waits =
            subst (λ c. IsList down.s'.links (sem + 8) (queued_tasks c ∷ [])) st.current
              down.waiting;
        blocked = subst (λ c. (down.s'.tasks c).status ≡ task_blocked) st.current down.blocked;
      }
