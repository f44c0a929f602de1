-- ===== src/Sched/Sample.antt =====
-- A small kernel for tests: tasks at 0x1000, 0x2000 and 0x3000, and a semaphore's list at 0x4008.
use qemu_usage_test.Base.{ℕ, [], ◌∷◌, false, ◌==◌, if◌then◌else◌}
use qemu_usage_test.Links.{Links}
use qemu_usage_test.Mm.{MemPool}
use qemu_usage_test.Sched.{Sched, TaskStruct, TaskStatus, task_ready, task_magic}

abbrev pub test_task : TaskStatus → TaskStruct
test_task status = record {
  pid = 1;
  status = status;
  name = [];
  sp = 0;
  priority = 31;
  time_slice_init = 1;
  time_slice_res = 1;
  pg_dir = 0;
  magic = task_magic;
}

-- The ready list runs through the tasks at 0x1000 and 0x2000; the one at 0x3000 waits at 0x4008.
abbrev pub test_links : Links
test_links = record {
  next = λ a.
      if a == 748
      then 0x1030
      else if a == 0x1030
      then 0x2030
      else if a == 0x2030
      then 748
      else if a == 0x4008
      then 0x3030
      else if a == 0x3030
      then 0x4008
      else a;
  prev = λ a.
      if a == 748
      then 0x2030
      else if a == 0x1030
      then 748
      else if a == 0x2030
      then 0x1030
      else if a == 0x4008
      then 0x3030
      else if a == 0x3030
      then 0x4008
      else a;
}

abbrev pub test_pool : ℕ → MemPool
test_pool bits = record {
  slock = 1;
  bm = record { bit_count = 4; bits = bits ∷ [] };
  base = 0xc0101000;
}

abbrev pub kernel : TaskStatus → TaskStatus → Sched
kernel first waiting = record {
  links = test_links;
  tasks = λ t.
      if t == 0x1000
      then test_task first
      else if t == 0x3000
      then test_task waiting
      else test_task task_ready;
  current = 0x1000;
  ready_task_list = 500;
  all_tasks_list = 900;
  list_slock = 1;
  pid_slock = 1;
  next_pid = 2;
  init_task = 0x1000;
  sched_on_return = false;
  pool = test_pool 1;
  mem = λ a. 7;
}
