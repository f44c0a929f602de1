-- ===== src/Sched.antt =====
-- kernel/sched.c and sched.h: tasks, the ready lists and the round robin. A task is known by the
-- address of its page. A 32-bit signed field is held as its word.

pub mod Switch
pub mod Create
pub mod Start
pub mod Nodes
pub mod Created
pub mod Saved
pub mod Stage
pub mod Heads
pub mod Idle
pub mod Started
pub mod Life
pub mod Sample
mod Tests
use qemu_usage_test.Base.{
  ℕ, ◌+◌, ◌-◌, ◌*◌, ◌^◌, Bool, true, false, not, ◌&&◌, ◌||◌, Outcome, done, fault, ◌>>=◌, List,
  Option, ltb, leb, ◌==◌, if◌then◌else◌, add32, sub32,
}
use qemu_usage_test.Round.{round_down}
use qemu_usage_test.Vaddr.{page_size}
use qemu_usage_test.Memory.{Memory, null}
use qemu_usage_test.Spin.{spin_lock, spin_unlock}
use qemu_usage_test.Links.{Links, list_del, list_add, list_add_tail}
use qemu_usage_test.Mm.{MemPool, mm_kfree_page}

-- TASK_MAGIC
abbrev pub task_magic : ℕ
task_magic = 0xae5f83d2

abbrev pub prio_default : ℕ
prio_default = 31

abbrev pub prio_low : ℕ
prio_low = 63

pub data TaskStatus : Type 0 where
  task_running task_ready task_blocked task_dying : TaskStatus

abbrev pub is_running : TaskStatus → Bool
is_running task_running = true
is_running _ = false

abbrev pub is_blocked : TaskStatus → Bool
is_blocked task_blocked = true
is_blocked _ = false

abbrev pub is_dying : TaskStatus → Bool
is_dying task_dying = true
is_dying _ = false

-- `struct task_struct` without its two list nodes, which are in the links of the state.
pub record TaskStruct : Type 0 where
  pub pid : ℕ
  pub status : TaskStatus
  pub name : List ℕ
  pub sp : ℕ
  pub priority : ℕ
  pub time_slice_init : ℕ
  pub time_slice_res : ℕ
  pub pg_dir : ℕ
  pub magic : ℕ

-- The kernel's state that scheduling reads and writes; the two list heads are where the linker
-- puts them. `next_pid` is the static variable of `allocate_pid`.
pub record Sched : Type 0 where
  pub links : Links
  pub tasks : ℕ → TaskStruct
  pub current : ℕ
  pub ready_task_list : ℕ
  pub all_tasks_list : ℕ
  pub list_slock : ℕ
  pub pid_slock : ℕ
  pub next_pid : ℕ
  pub init_task : ℕ
  pub sched_on_return : Bool
  pub pool : MemPool
  pub mem : Memory

-- `&tsk->all_tasks`, `&tsk->queued_tasks` and `list_entry` of the latter
abbrev pub all_tasks : ℕ → ℕ
all_tasks tsk = tsk + 40

abbrev pub queued_tasks : ℕ → ℕ
queued_tasks tsk = tsk + 48

abbrev pub queued_entry : ℕ → ℕ
queued_entry node = node - 48

-- `&ready_task_list[priority]`
abbrev pub ready_head : Sched → ℕ → ℕ
ready_head s priority = s.ready_task_list + 8 * priority

-- `*tsk = t`
abbrev pub write_task : ℕ → TaskStruct → (ℕ → TaskStruct) → ℕ → TaskStruct
write_task tsk t tasks x = if x == tsk then t else tasks x

abbrev pub set_status : ℕ → TaskStatus → Sched → Sched
set_status tsk status s = record s {
  tasks = write_task tsk (record (s.tasks tsk) { status = status }) s.tasks;
}

-- `x <= 0` of an int32_t
abbrev pub not_positive : ℕ → Bool
not_positive x = (x == 0) || leb (2 ^ 31) x

pub valid_priority : ℕ → Bool
valid_priority priority = ltb priority (2 ^ 31) && leb priority prio_low

unfoldable pub valid_task : TaskStruct → Bool
valid_task t = t.magic == task_magic

-- The macro `current` at a stack pointer: the page of the stack is that of the task.
unfoldable pub current_at : ℕ → ℕ
unfolding round_down
current_at esp = round_down esp page_size

-- A section under `list_slock`.
abbrev pub under_list_slock : (Sched → Sched) → Sched → Outcome Sched
under_list_slock f s = do
  slock ← spin_lock s.list_slock
  let s = f (record s { list_slock = slock })
  done (record s { list_slock = spin_unlock s.list_slock })

unfoldable pub task_suspend : ℕ → ℕ → Sched → Outcome Sched
task_suspend tsk wait s =
    under_list_slock
      (λ s.
        let s = set_status tsk task_blocked s in
        record s { links = list_add (queued_tasks tsk) wait (list_del (queued_tasks tsk) s.links) })
      s

unfoldable pub task_resume : ℕ → Sched → Outcome Sched
unfolding valid_task
task_resume tsk s =
    if not (valid_task (s.tasks tsk))
    then done s
    else under_list_slock
        (λ s.
          if is_blocked (s.tasks tsk).status
          then (let s = set_status tsk task_running s in
              record s {
                links =
                    list_add_tail (queued_tasks tsk) (ready_head s (s.tasks tsk).priority) s.links;
              })
          else s)
        s

-- `*tsk`; NULL points to no object.
abbrev pub task_at : ℕ → Sched → Outcome TaskStruct
task_at tsk s = if tsk == null then fault else done (s.tasks tsk)

pub free_task : ℕ → Sched → Outcome Sched
free_task prev s = do
  s ← under_list_slock (λ s. record s { links = list_del (all_tasks prev) s.links }) s
  pool ← mm_kfree_page prev s.pool
  done (record s { pool = pool })

unfoldable pub task_sched_post_proc : ℕ → Sched → Outcome Sched
task_sched_post_proc prev s = if not (prev == null) then done s else (do
  t ← task_at prev s
  if not (is_dying t.status && not (prev == s.init_task)) then done s else free_task prev s)

-- The next task and the state with the current one at the end of its list.
unfoldable pub next_task_to_run : Sched → Outcome (ℕ × Sched)
next_task_to_run s =
    let next = queued_entry (s.links.next (ready_head s prio_default)) in
    let curr = s.current in
    if is_running (s.tasks curr).status
    then (do
      s ←
          under_list_slock
            (λ s. record s {
              links =
                  list_add_tail (queued_tasks curr) (ready_head s prio_default)
                    (list_del (queued_tasks curr) s.links);
            })
            s
      done (next, s))
    else done (next, s)

-- kernel/switch.S goes on with the stack of `next`, whose page `current` then finds; the task there
-- returns from its own `switch_to`, or starts at `switch_initial`, with the old task in hand.
unfoldable pub switch_to : ℕ → ℕ → Sched → ℕ × Sched
switch_to cur next s = (cur, record s { current = next })

unfoldable pub schedule : Sched → Outcome Sched
unfolding switch_to
schedule s = do
  let curr = s.current
  r ← next_task_to_run s
  let (next, s) = r
  let s = set_status next task_running s
  if curr == next
      then done s
      else (let (prev, s) = switch_to curr next s in task_sched_post_proc prev s)

unfoldable pub task_exit : Sched → Outcome Sched
task_exit s = do
  let curr = s.current
  s ←
      under_list_slock
        (λ s.
          let s = set_status curr task_dying s in
          record s { links = list_del (queued_tasks curr) s.links })
        s
  schedule s

unfoldable pub task_tick : Sched → Sched
task_tick s =
    let curr = s.current in
    let t = s.tasks curr in
    let res = sub32 t.time_slice_res 1 in
    if not_positive res
    then record s {
      sched_on_return = true;
      tasks = write_task curr (record t { time_slice_res = t.time_slice_init }) s.tasks;
    }
    else record s { tasks = write_task curr (record t { time_slice_res = res }) s.tasks }

unfoldable pub allocate_pid : Sched → Outcome (ℕ × Sched)
allocate_pid s = do
  slock ← spin_lock s.pid_slock
  let next_pid = add32 s.next_pid 1
  done (next_pid, record s { next_pid = next_pid; pid_slock = spin_unlock slock })
