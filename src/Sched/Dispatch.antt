-- ===== src/Sched/Dispatch.antt =====
-- Dispatch, blocking and termination in kernel/scheduler.c. The switch to the chosen task,
-- task_switch_to, is assembly and ends the step; so does vmm_destroy_process_space, which keeps
-- another state. The current processor is 0, as scheduler_get_current_cpu says.
use uint_os.Common.{
  ℕ, ◌+◌, ◌-◌, ◌*◌, ◌/◌, ◌%◌, ◌^◌, Bool, true, false, ◌&&◌, not, Option, none, some, List, [], ◌∷◌,
  ◌==◌, ltb, leb, if◌then◌else◌, update, bit_and,
}
use uint_os.Common.Int.{ℤ, pos, negsuc}
use uint_os.Sched.State.{
  ready, running, blocked, zombie, is_running, is_zombie, Waiter, Scheduler, max_priority, bump64,
  scheduler_add_task, scheduler_get_next_task, scheduler_find_task_by_id,
  scheduler_remove_task_from_ready_queue, set_state, make_ready,
}
use uint_os.Sched.Sleep.{
  milliseconds_per_tick, scheduler_add_sleeping_task, scheduler_check_sleeping_tasks,
}
use uint_os.Sched.Balance.{scheduler_load_balance}

abbrev pub time_slice_priority_factor : ℕ
time_slice_priority_factor = 2

abbrev pub round_robin : ℕ
round_robin = 0

-- The switch on the algorithm; the sums are of unsigned ints.
unfoldable pub time_slice_of : Scheduler → ℕ → ℕ
time_slice_of s priority =
    if s.algorithm == round_robin
    then s.quantum_ms / milliseconds_per_tick
    else (s.quantum_ms / milliseconds_per_tick
        + (max_priority - 1 + 2 ^ 32 - priority) % 2 ^ 32 * time_slice_priority_factor)
      % 2 ^ 32

abbrev pub is_task : Option ℕ → ℕ → Bool
is_task none t = false
is_task (some u) t = u == t

-- A running task goes back to its queue.
unfoldable pub save_current : Scheduler → Scheduler
unfolding scheduler_add_task
save_current s = elim (s.cpu_states 0).current_task [
  | none ↦ s
  | some t ↦ if is_running (s.tasks t).state then scheduler_add_task (set_state s t ready) t else s
]

-- The chosen task starts to run.
unfoldable pub start : Scheduler → ℕ → Scheduler
unfolding time_slice_of
start s t =
    let idle = is_task s.idle_task t in
    let task = s.tasks t in
    let cpu = s.cpu_states 0 in
    record s {
      tasks = update s.tasks t (record task {
        state = running;
        time_slice = time_slice_of s task.priority;
        last_run_time = s.scheduler_ticks;
        cpu_time_used = if idle then task.cpu_time_used else bump64 task.cpu_time_used;
      });
      total_switches = bump64 s.total_switches;
      cpu_states = update s.cpu_states 0 (record cpu {
        current_task = some t;
        total_switches = bump64 cpu.total_switches;
        idle_ticks = if idle then bump64 cpu.idle_ticks else cpu.idle_ticks;
      });
    }

unfoldable pub count_balance : Scheduler → Scheduler
count_balance s =
    let counter = s.load_balance_counter + 1 in
    if ltb 1 s.num_cpus && leb 100 counter
    then scheduler_load_balance (record s { load_balance_counter = 0 })
    else record s { load_balance_counter = counter }

unfoldable pub scheduler_schedule : Scheduler → Scheduler
unfolding save_current start count_balance
scheduler_schedule s =
    if s.preemption_enabled
    then (let (chosen, next) =
          scheduler_get_next_task (scheduler_check_sleeping_tasks (save_current s)) in
        elim next [ none ↦ chosen | some t ↦ count_balance (start chosen t) ])
    else s

-- The time slice is an int: from 2^31 on it is negative.
unfoldable pub scheduler_tick : Scheduler → Scheduler
scheduler_tick s =
    let ticked = record s { scheduler_ticks = bump64 s.scheduler_ticks } in
    if s.preemption_enabled
    then elim (s.cpu_states 0).current_task [
      | none ↦ ticked
      | some t ↦
          let slice = (s.tasks t).time_slice in
          let left = if ltb 0 slice && ltb slice (2 ^ 31) then slice - 1 else slice in
          let charged = record ticked {
            tasks = update s.tasks t (record (s.tasks t) { time_slice = left });
          } in
          if left == 0 then scheduler_schedule charged else charged
    ]
    else ticked

unfoldable pub scheduler_yield : Scheduler → Scheduler
scheduler_yield s = if s.preemption_enabled then scheduler_schedule s else s

unfoldable pub scheduler_block_current_task : Scheduler → Scheduler
scheduler_block_current_task s = elim (s.cpu_states 0).current_task [
  | none ↦ s
  | some t ↦ scheduler_schedule (set_state s t blocked)
]

unfoldable pub scheduler_unblock_task : Scheduler → ℕ → Scheduler
unfolding make_ready
scheduler_unblock_task s task_id = elim (scheduler_find_task_by_id s task_id) [
  | none ↦ s
  | some t ↦ make_ready s t
]

unfoldable pub scheduler_sleep : Scheduler → ℕ → Bool → Scheduler × ℤ
unfolding scheduler_yield
scheduler_sleep s milliseconds memory =
    if milliseconds == 0 then (scheduler_yield s, pos 0) else elim (s.cpu_states 0).current_task [
      | none ↦ (s, negsuc 0)
      | some t ↦ (scheduler_schedule (scheduler_add_sleeping_task s t milliseconds memory), pos 0)
    ]

-- The exit code is stored where the waiter wants it.
abbrev pub store_code : Scheduler → Option ℕ → ℤ → Scheduler
store_code s none code = s
store_code s (some cell) code = record s { cells = update s.cells cell code }

-- The loop of scheduler_check_waiting_parents: the state, and the entries that stay.
unfoldable pub wake_parents : Scheduler → List Waiter → ℕ → ℤ → Scheduler × List Waiter
unfolding make_ready
wake_parents s [] task_id code = (s, [])
wake_parents s (w ∷ ws) task_id code = elim (w.child_id == task_id) [
  | true ↦
      let parent = scheduler_find_task_by_id s w.parent_id in
      let s' = store_code s w.exit_code_ptr code in
      wake_parents (elim parent [ none ↦ s' | some p ↦ make_ready s' p ]) ws task_id code
  | false ↦ let (s', kept) = wake_parents s ws task_id code in (s', w ∷ kept)
]

unfoldable pub scheduler_check_waiting_parents : Scheduler → ℕ → ℤ → Scheduler
unfolding wake_parents
scheduler_check_waiting_parents s task_id code =
    let (s', kept) = wake_parents s s.waiting_parents task_id code in
    record s' { waiting_parents = kept }

-- A zombie's memory goes back to the heap, which keeps no state here. `memory`: whether heap_alloc
-- finds memory for the entry.
unfoldable pub scheduler_waitpid : Scheduler → ℕ → Option ℕ → ℕ → Bool → Scheduler × ℤ
scheduler_waitpid s task_id exit_code options memory = elim (s.cpu_states 0).current_task [
  | none ↦ (s, negsuc 0)
  | some me ↦ elim (scheduler_find_task_by_id s task_id) [
    | none ↦ (s, negsuc 0)
    | some child ↦
        if not ((s.tasks child).parent_id == (s.tasks me).id)
        then (s, negsuc 1)
        else if is_zombie (s.tasks child).state
        then (store_code s exit_code (s.tasks child).exit_code, pos task_id)
        else if not (bit_and options 1 == 0)
        then (s, pos 0)
        else let entry : Waiter = record {
          parent_id = (s.tasks me).id;
          child_id = task_id;
          exit_code_ptr = exit_code;
        } in
          let waiting =
            if memory then record s { waiting_parents = entry ∷ s.waiting_parents } else s in
          (scheduler_schedule (set_state waiting me blocked), pos task_id)
  ]
]

unfoldable pub scheduler_terminate_task : Scheduler → ℕ → ℤ → Scheduler × ℤ
unfolding scheduler_check_waiting_parents
scheduler_terminate_task s task_id code = elim (scheduler_find_task_by_id s task_id) [
  | none ↦ (s, negsuc 0)
  | some t ↦
      let dead = record s {
        tasks = update s.tasks t (record (s.tasks t) { state = zombie; exit_code = code });
      } in
      let gone =
        scheduler_check_waiting_parents (scheduler_remove_task_from_ready_queue dead task_id)
          task_id code in
      (
        elim (gone.cpu_states 0).current_task [
          | none ↦ gone
          | some c ↦ if (gone.tasks c).id == task_id then scheduler_schedule gone else gone
        ],
        pos 0,
      )
]

unfoldable pub scheduler_set_task_priority : Scheduler → ℕ → ℕ → Scheduler × ℤ
scheduler_set_task_priority s task_id priority =
    let p = if leb max_priority priority then max_priority - 1 else priority in
    elim (scheduler_find_task_by_id s task_id) [
      | none ↦ (s, negsuc 0)
      | some t ↦
          (record s { tasks = update s.tasks t (record (s.tasks t) { priority = p }) }, pos 0)
    ]
