-- ===== src/Sched/Balance.antt =====
-- The load balancing of kernel/scheduler.c between the local queues of the processors.
use uint_os.Common.{
  ℕ, zero, suc, ◌+◌, ◌-◌, ◌^◌, Bool, not, ◌&&◌, ◌||◌, none, some, ◌==◌, ltb, leb, if◌then◌else◌,
  update,
}
use uint_os.Common.Int.{ℤ, pos, negsuc, pos_part, ltb_ℤ}
use uint_os.Sched.Queue.{TaskQueue, push, pop, offer}
use uint_os.Sched.State.{
  Scheduler, Cpu, scheduler_find_task_by_id, scheduler_remove_task_from_ready_queue,
  scheduler_add_task,
}

abbrev pub int_max : ℕ
int_max = 2 ^ 31 - 1

-- The loop of scheduler_smp_get_target_cpu: the rounds left, i, min_tasks and target_cpu.
unfoldable pub least_loaded : ℕ → ℕ → (ℕ → Cpu) → ℕ → ℕ → ℕ
least_loaded zero i cpus min_tasks target = target
least_loaded (suc n) i cpus min_tasks target =
    let better = (cpus i).is_active && ltb (cpus i).local_queue.count min_tasks in
    least_loaded n (i + 1) cpus (if better then (cpus i).local_queue.count else min_tasks)
      (if better then i else target)

unfoldable pub scheduler_smp_get_target_cpu : Scheduler → ℕ
unfolding least_loaded
scheduler_smp_get_target_cpu s =
    if leb s.num_cpus 1 then 0 else least_loaded s.num_cpus 0 s.cpu_states int_max 0

-- max_cpu, max_tasks, min_cpu and min_tasks.
pub record Extremes : Type 0 where
  pub max_cpu : ℕ
  pub max_tasks : ℕ
  pub min_cpu : ℕ
  pub min_tasks : ℕ

-- One round of the loop of scheduler_load_balance.
unfoldable pub compare_cpu : (ℕ → Cpu) → ℕ → Extremes → Extremes
compare_cpu cpus i e =
    let count = (cpus i).local_queue.count in
    if (cpus i).is_active
    then record {
      max_cpu = if ltb e.max_tasks count then i else e.max_cpu;
      max_tasks = if ltb e.max_tasks count then count else e.max_tasks;
      min_cpu = if ltb count e.min_tasks then i else e.min_cpu;
      min_tasks = if ltb count e.min_tasks then count else e.min_tasks;
    }
    else e

unfoldable pub extremes : ℕ → ℕ → (ℕ → Cpu) → Extremes → Extremes
unfolding compare_cpu
extremes zero i cpus e = e
extremes (suc n) i cpus e = extremes n (i + 1) cpus (compare_cpu cpus i e)

abbrev pub set_local_queue : (ℕ → Cpu) → ℕ → TaskQueue → ℕ → Cpu
set_local_queue cpus i q = update cpus i (record (cpus i) { local_queue = q })

-- The task at the head of one queue goes to the other, or back if that is full. A head that is
-- NULL is not met: the slots of a queue hold tasks.
unfoldable pub migrate_head : (ℕ → Cpu) → ℕ → ℕ → ℕ → Cpu
unfolding pop offer push
migrate_head cpus from to =
    let (taken, t) = pop (cpus from).local_queue in
    elim t [
      | none ↦ set_local_queue cpus from taken
      | some task ↦
          let (received, accepted) = offer (cpus to).local_queue task in
          if accepted
          then set_local_queue (set_local_queue cpus from taken) to received
          else set_local_queue cpus from (push taken task)
    ]

unfoldable pub scheduler_load_balance : Scheduler → Scheduler
unfolding extremes migrate_head
scheduler_load_balance s =
    if leb s.num_cpus 1
    then s
    else let e =
        extremes s.num_cpus 0 s.cpu_states
          (record { max_cpu = 0; max_tasks = 0; min_cpu = 0; min_tasks = int_max }) in
      if ltb (e.min_tasks + 2) e.max_tasks && not (e.max_cpu == e.min_cpu)
      then (if ltb 0 (s.cpu_states e.max_cpu).local_queue.count
          then record s { cpu_states = migrate_head s.cpu_states e.max_cpu e.min_cpu }
          else s)
      else s

abbrev pub invalid_cpu : Scheduler → ℤ → Bool
invalid_cpu s cpu_id =
    ltb_ℤ cpu_id (pos 0)
    || not (ltb_ℤ cpu_id (pos s.num_cpus))
    || not (s.cpu_states (pos_part cpu_id)).is_active

unfoldable pub scheduler_migrate_task : Scheduler → ℕ → ℤ → Scheduler × ℤ
unfolding offer
scheduler_migrate_task s task_id cpu_id =
    if invalid_cpu s cpu_id then (s, negsuc 0) else elim (scheduler_find_task_by_id s task_id) [
      | none ↦ (s, negsuc 1)
      | some t ↦
          let s' = scheduler_remove_task_from_ready_queue s task_id in
          let (q, accepted) = offer (s'.cpu_states (pos_part cpu_id)).local_queue t in
          if accepted
          then (record s' { cpu_states = set_local_queue s'.cpu_states (pos_part cpu_id) q }, pos 0)
          else (scheduler_add_task s' t, negsuc 2)
    ]
