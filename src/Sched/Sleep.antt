-- ===== src/Sched/Sleep.antt =====
-- The sleeping tasks of kernel/scheduler.c. `memory`: whether heap_alloc finds memory.
use uint_os.Common.{
  ℕ, ◌+◌, ◌/◌, ◌%◌, ◌^◌, Bool, true, false, Option, none, some, List, [], ◌∷◌, ◌==◌, ltb, leb,
  if◌then◌else◌,
}
use uint_os.Common.Int.{ℤ, pos, negsuc}
use uint_os.Sched.State.{Scheduler, Sleeper, blocked, set_state, make_ready}

abbrev pub milliseconds_per_tick : ℕ
milliseconds_per_tick = 10

-- The walk behind the first entry.
unfoldable pub insert_after : Sleeper → List Sleeper → List Sleeper
insert_after e [] = e ∷ []
insert_after e (n ∷ rest) =
    if leb n.wake_time e.wake_time then n ∷ insert_after e rest else e ∷ n ∷ rest

unfoldable pub insert_sleeper : Sleeper → List Sleeper → List Sleeper
unfolding insert_after
insert_sleeper e [] = e ∷ []
insert_sleeper e (h ∷ rest) =
    if ltb e.wake_time h.wake_time then e ∷ h ∷ rest else h ∷ insert_after e rest

unfoldable pub scheduler_add_sleeping_task : Scheduler → ℕ → ℕ → Bool → Scheduler
unfolding insert_sleeper
scheduler_add_sleeping_task s t wake_time_ms memory =
    let wake_time = (s.scheduler_ticks + wake_time_ms / milliseconds_per_tick) % 2 ^ 64 in
    if memory
    then set_state
        (record s {
          sleeping_tasks =
              insert_sleeper (record { task = t; wake_time = wake_time }) s.sleeping_tasks;
        })
        t blocked
    else s

-- The loop of scheduler_check_sleeping_tasks: the state, and the entries that stay.
unfoldable pub wake_due : Scheduler → List Sleeper → Scheduler × List Sleeper
unfolding make_ready
wake_due s [] = (s, [])
wake_due s (e ∷ es) = elim (leb e.wake_time s.scheduler_ticks) [
  | true ↦ wake_due (make_ready s e.task) es
  | false ↦ let (s', kept) = wake_due s es in (s', e ∷ kept)
]

unfoldable pub scheduler_check_sleeping_tasks : Scheduler → Scheduler
unfolding wake_due
scheduler_check_sleeping_tasks s =
    let (s', kept) = wake_due s s.sleeping_tasks in record s' { sleeping_tasks = kept }

-- The list without the first entry of that task, and the task.
unfoldable pub take_sleeper : Scheduler → List Sleeper → ℕ → List Sleeper × Option ℕ
take_sleeper s [] task_id = ([], none)
take_sleeper s (e ∷ es) task_id =
    let (rest, found) = take_sleeper s es task_id in
    if (s.tasks e.task).id == task_id then (es, some e.task) else (e ∷ rest, found)

unfoldable pub scheduler_wake_task : Scheduler → ℕ → Scheduler × ℤ
unfolding take_sleeper make_ready
scheduler_wake_task s task_id =
    let (rest, found) = take_sleeper s s.sleeping_tasks task_id in
    elim found [
      | none ↦ (s, negsuc 0)
      | some t ↦ (record (make_ready s t) { sleeping_tasks = rest }, pos 0)
    ]
