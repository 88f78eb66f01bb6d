-- ===== src/Sched/State.antt =====
-- The state of kernel/scheduler.c, the search for a task, and the ready queues by priority.
-- Each function takes scheduler.lock first and gives it back last, so a call is one step. Task ids
-- are those that scheduler_create_task hands out, from 1 on.
use uint_os.Common.{
  ℕ, zero, suc, ◌+◌, ◌-◌, ◌%◌, ◌^◌, Bool, true, false, Option, none, some, List, [], ◌∷◌, ◌==◌, ltb,
  leb, if◌then◌else◌, get_or, update,
}
use uint_os.Common.Int.{ℤ}
use uint_os.Sched.Queue.{TaskQueue, max_tasks, pop, offer, search_queue, remove_at}

abbrev pub max_priority : ℕ
max_priority = 32

pub data TaskState : Type 0 where
  unused ready running blocked suspended zombie : TaskState

abbrev pub is_running : TaskState → Bool
is_running running = true
is_running _ = false

abbrev pub is_blocked : TaskState → Bool
is_blocked blocked = true
is_blocked _ = false

abbrev pub is_zombie : TaskState → Bool
is_zombie zombie = true
is_zombie _ = false

-- The fields of `task_t` that the scheduler reads or writes; `priority` and `time_slice` are bit
-- patterns of 32 bits.
pub record Task : Type 0 where
  pub id : ℕ
  pub state : TaskState
  pub priority : ℕ
  pub time_slice : ℕ
  pub exit_code : ℤ
  pub parent_id : ℕ
  pub cpu_time_used : ℕ
  pub last_run_time : ℕ

-- `sleeping_task_t`; the linked lists are lists.
pub record Sleeper : Type 0 where
  pub task : ℕ
  pub wake_time : ℕ

-- `waiting_parent_t`; a pointer to an exit code is the number of its cell, NULL `none`.
pub record Waiter : Type 0 where
  pub parent_id : ℕ
  pub child_id : ℕ
  pub exit_code_ptr : Option ℕ

-- `cpu_state_t`
pub record Cpu : Type 0 where
  pub current_task : Option ℕ
  pub is_active : Bool
  pub total_switches : ℕ
  pub idle_ticks : ℕ
  pub local_queue : TaskQueue

-- The global `scheduler`, with the tasks and the exit code cells that its pointers reach.
pub record Scheduler : Type 0 where
  pub tasks : ℕ → Task
  pub cells : ℕ → ℤ
  pub ready_queues : ℕ → TaskQueue
  pub sleeping_tasks : List Sleeper
  pub waiting_parents : List Waiter
  pub idle_task : Option ℕ
  pub preemption_enabled : Bool
  pub total_switches : ℕ
  pub scheduler_ticks : ℕ
  pub algorithm : ℕ
  pub quantum_ms : ℕ
  pub num_cpus : ℕ
  pub cpu_states : ℕ → Cpu
  pub load_balance_counter : ℕ

-- A uint64_t counter goes up by one.
abbrev pub bump64 : ℕ → ℕ
bump64 n = (n + 1) % 2 ^ 64

-- `int priority = task->priority`, kept within the queues; a pattern from 2^31 on is negative.
unfoldable pub queue_index : ℕ → ℕ
queue_index priority =
    if ltb priority (2 ^ 31)
    then (if leb max_priority priority then max_priority - 1 else priority)
    else 0

-- A task that finds its queue full is dropped.
unfoldable pub scheduler_add_task : Scheduler → ℕ → Scheduler
unfolding offer
scheduler_add_task s t =
    let p = queue_index (s.tasks t).priority in
    record s { ready_queues = update s.ready_queues p (offer (s.ready_queues p) t).0 }

-- The loop of scheduler_get_next_task: the rounds left, and the priority.
unfoldable pub next_from : ℕ → ℕ → Scheduler → Scheduler × Option ℕ
unfolding pop
next_from zero priority s = (s, s.idle_task)
next_from (suc n) priority s =
    let rest = next_from n (priority + 1) s in
    let (q, t) = pop (s.ready_queues priority) in
    if ltb 0 (s.ready_queues priority).count
    then (record s { ready_queues = update s.ready_queues priority q }, t)
    else rest

unfoldable pub scheduler_get_next_task : Scheduler → Scheduler × Option ℕ
unfolding next_from
scheduler_get_next_task s = next_from max_priority 0 s

-- The loop of scheduler_remove_task_from_ready_queue.
unfoldable pub remove_from : ℕ → ℕ → Scheduler → ℕ → Scheduler
unfolding search_queue remove_at
remove_from zero priority s task_id = s
remove_from (suc n) priority s task_id =
    let q = s.ready_queues priority in
    let rest = remove_from n (priority + 1) s task_id in
    elim (search_queue q.count 0 (λ t. (s.tasks t).id) q task_id) [
      | none ↦ rest
      | some i ↦ record s { ready_queues = update s.ready_queues priority (remove_at q i) }
    ]

unfoldable pub scheduler_remove_task_from_ready_queue : Scheduler → ℕ → Scheduler
unfolding remove_from
scheduler_remove_task_from_ready_queue s task_id = remove_from max_priority 0 s task_id

-- The three loops of scheduler_find_task_by_id.
unfoldable pub find_current : ℕ → ℕ → Scheduler → ℕ → Option ℕ
find_current zero i s task_id = none
find_current (suc n) i s task_id =
    let rest = find_current n (i + 1) s task_id in
    elim (s.cpu_states i).current_task [
      | none ↦ rest
      | some t ↦ if (s.tasks t).id == task_id then some t else rest
    ]

unfoldable pub find_ready : ℕ → ℕ → Scheduler → ℕ → Option ℕ
unfolding search_queue
find_ready zero priority s task_id = none
find_ready (suc n) priority s task_id =
    let q = s.ready_queues priority in
    let rest = find_ready n (priority + 1) s task_id in
    elim (search_queue q.count 0 (λ t. (s.tasks t).id) q task_id) [
      | none ↦ rest
      | some i ↦ get_or q.tasks ((q.head + i) % max_tasks) none
    ]

unfoldable pub find_sleeping : (ℕ → Task) → List Sleeper → ℕ → Option ℕ
find_sleeping tasks [] task_id = none
find_sleeping tasks (e ∷ es) task_id =
    let rest = find_sleeping tasks es task_id in
    if (tasks e.task).id == task_id then some e.task else rest

abbrev pub or_else : Option ℕ → Option ℕ → Option ℕ
or_else none other = other
or_else (some t) other = some t

unfoldable pub scheduler_find_task_by_id : Scheduler → ℕ → Option ℕ
unfolding find_current find_ready find_sleeping
scheduler_find_task_by_id s task_id =
    or_else (find_current s.num_cpus 0 s task_id) (
      or_else (find_ready max_priority 0 s task_id)
        (find_sleeping s.tasks s.sleeping_tasks task_id))

abbrev pub set_state : Scheduler → ℕ → TaskState → Scheduler
set_state s t st = record s { tasks = update s.tasks t (record (s.tasks t) { state = st }) }

-- task->state == TASK_STATE_BLOCKED: ready again, and in its queue.
unfoldable pub make_ready : Scheduler → ℕ → Scheduler
unfolding scheduler_add_task
make_ready s t =
    if is_blocked (s.tasks t).state then scheduler_add_task (set_state s t ready) t else s
