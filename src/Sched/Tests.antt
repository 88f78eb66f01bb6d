-- ===== src/Sched/Tests.antt =====
-- The theorems on kernel/scheduler.c at small states.
use uint_os.Common.{
  get_or, ◌%◌, ◌++◌, Bool-cases, ℕ, zero, suc, ◌+◌, ◌≤◌, ◌<◌, ◌≡◌, ◌==◌, refl, true, false, none,
  some, List, [], ◌∷◌, arith, if◌then◌else◌, replicate, All, inl, inr, ◌≢◌,
}
use uint_os.Common.Int.{pos}
use uint_os.Sched.Queue.{TaskQueue, max_tasks}
use uint_os.Sched.Holds.{Holds}
use uint_os.Sched.State.{Task, Cpu, Scheduler, blocked, is_blocked}
use uint_os.Sched.Spec.{Lists, add, next, remove, code_run, list_run}
use uint_os.Sched.Refine.{Represents, ready_queues_refine}
use uint_os.Sched.Sleep.{scheduler_add_sleeping_task, scheduler_check_sleeping_tasks}
use uint_os.Sched.Sleeping.{IsSorted, later, check_sleeping_lem}
use uint_os.Sched.Dispatch.{scheduler_schedule}
use uint_os.Sched.Running.{Fit, Runs, schedule_lem}
use uint_os.Sched.Balance.{scheduler_load_balance}
use uint_os.Sched.Balanced.{Outcome, load_balance_lem}

abbrev empty_queue : TaskQueue
empty_queue = record { tasks = replicate 256 none; head = 0; tail = 0; count = 0 }

-- The tasks 3, 4, 5, 6 around the end of the array.
abbrev four_tasks : TaskQueue
four_tasks = record {
  tasks = some 5 ∷ some 6 ∷ (replicate 252 none ++ (some 3 ∷ some 4 ∷ []));
  head = 254;
  tail = 2;
  count = 4;
}

empty-Holds : Holds empty_queue []
empty-Holds = record {
  room = refl;
  head_in = omega arith;
  tail_at = refl;
  counted = refl;
  few = omega arith;
  slots = λ k lt. absurd (omega arith);
}

abbrev ids : List ℕ
ids = 3 ∷ 4 ∷ 5 ∷ 6 ∷ []

four-Holds : Holds four_tasks ids
four-Holds = record {
  room = refl;
  head_in = omega arith;
  tail_at = refl;
  counted = refl;
  few = omega arith;
  slots = four_slots;
}
  where
    four_slots :
        (k : ℕ)
        → k < 4
        → get_or four_tasks.tasks ((254 + k) % max_tasks) none ≡ some (get_or ids k 0)
    four_slots zero lt = refl
    four_slots (suc zero) lt = refl
    four_slots (suc (suc zero)) lt = refl
    four_slots (suc (suc (suc zero))) lt = refl
    four_slots (suc (suc (suc (suc k)))) lt = absurd (omega arith)

abbrev task : ℕ → Task
task k = record {
  id = k;
  state = blocked;
  priority = k;
  time_slice = 0;
  exit_code = pos 0;
  parent_id = 1;
  cpu_time_used = 0;
  last_run_time = 0;
}

abbrev cpu : ℕ → Cpu
cpu k = record {
  current_task = none;
  is_active = true;
  total_switches = 0;
  idle_ticks = 0;
  local_queue = if k == 1 then four_tasks else empty_queue;
}

-- Four tasks wait at priority 7; 8 and 9 sleep; processor 1 has four tasks, processor 0 none.
abbrev small : Scheduler
small = record {
  tasks = task;
  cells = λ c. pos 0;
  ready_queues = λ p. if p == 7 then four_tasks else empty_queue;
  sleeping_tasks = record { task = 8; wake_time = 20 } ∷ record { task = 9; wake_time = 30 } ∷ [];
  waiting_parents = [];
  idle_task = some 0;
  preemption_enabled = true;
  total_switches = 0;
  scheduler_ticks = 25;
  algorithm = 1;
  quantum_ms = 100;
  num_cpus = 2;
  cpu_states = cpu;
  load_balance_counter = 0;
}

abbrev waiting : Lists
waiting p = if p == 7 then ids else []

abbrev local : ℕ → List ℕ
local k = if k == 1 then ids else []

four_or_none :
    (i j : ℕ) → Holds (if i == j then four_tasks else empty_queue) (if i == j then ids else [])
four_or_none i j = elim (Bool-cases (i == j)) [
  | inl same ↦ rw same four-Holds
  | inr other ↦ rw other empty-Holds
]

small-Represents : Represents task (some 0) small waiting
small-Represents = record { queues = λ p lt. four_or_none p 7; same_tasks = refl; same_idle = refl }

ready_queues_refine_example :
    code_run small (next ∷ add 3 ∷ remove 5 ∷ next ∷ next ∷ [])
    ≡ list_run task (some 0) waiting (next ∷ add 3 ∷ remove 5 ∷ next ∷ next ∷ [])
ready_queues_refine_example =
    ready_queues_refine (next ∷ add 3 ∷ remove 5 ∷ next ∷ next ∷ []) small-Represents

check_sleeping_lem_example :
    let s' = scheduler_check_sleeping_tasks small in
    IsSorted (scheduler_add_sleeping_task small 5 100 true).sleeping_tasks
    × IsSorted s'.sleeping_tasks
    × (s'.sleeping_tasks ≡ later small.scheduler_ticks small.sleeping_tasks)
    × All
        (λ e. e.wake_time ≤ small.scheduler_ticks → is_blocked (s'.tasks e.task).state ≡ false)
        small.sleeping_tasks
    × ((u : ℕ)
        → All (λ e. e.wake_time ≤ small.scheduler_ticks → e.task ≢ u) small.sleeping_tasks
        → s'.tasks u ≡ small.tasks u)
check_sleeping_lem_example = check_sleeping_lem small 5 100 true ((omega arith, tt), (tt, tt))

load_balance_lem_example : Outcome small local (scheduler_load_balance small)
load_balance_lem_example = load_balance_lem small local (λ k lt. four_or_none k 1)

small-Fit : Fit (some 0) small
small-Fit = record { lists = waiting; queues = λ p lt. four_or_none p 7; same_idle = refl }

schedule_lem_example : (t : ℕ) × Runs 0 t (scheduler_schedule small)
schedule_lem_example = schedule_lem small 0 refl small-Fit
