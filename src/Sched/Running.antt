-- ===== src/Sched/Running.antt =====
-- scheduler_schedule of kernel/scheduler.c as a whole: the queues stay well formed, and a task runs.
use uint_os.Common.{
  ℕ, ◌+◌, ◌<◌, ◌≡◌, refl, ap, ◌∙◌, Bool, true, false, Option, none, some, List, [], ◌∷◌, leb,
  if◌then◌else◌, arith, update_self, update_all, Bool-cases, Option-cases, inl, inr,
}
use uint_os.Sched.Queue.{TaskQueue, offer, pop}
use uint_os.Sched.Holds.{Holds}
use uint_os.Sched.State.{
  Task, TaskState, Cpu, Sleeper, Scheduler, max_priority, ready, running, is_running, is_blocked,
  scheduler_add_task, scheduler_get_next_task, set_state, make_ready,
}
use uint_os.Sched.Spec.{Lists}
use uint_os.Sched.Refine.{Represents, add_refines}
use uint_os.Sched.Laws.{get_next_lem}
use uint_os.Sched.Sleep.{wake_due, scheduler_check_sleeping_tasks}
use uint_os.Sched.Balance.{set_local_queue, migrate_head, scheduler_load_balance}
use uint_os.Sched.Dispatch.{save_current, start, count_balance, scheduler_schedule}

-- Every ready queue holds some list, and the idle task is that one.
pub record Fit (idle : Option ℕ) (s : Scheduler) : Type 0 where
  pub lists : Lists
  pub queues : (p : ℕ) → p < max_priority → Holds (s.ready_queues p) (lists p)
  pub same_idle : s.idle_task ≡ idle

represents : {idle : Option ℕ} {s : Scheduler} (h : Fit idle s) → Represents s.tasks idle s h.lists
represents h = record { queues = h.queues; same_tasks = refl; same_idle = h.same_idle }

fit :
    {idle : Option ℕ} {tasks : ℕ → Task} {s : Scheduler} {b : Lists}
    → Represents tasks idle s b
    → Fit idle s
fit {b} h = record { lists = b; queues = h.queues; same_idle = h.same_idle }

-- Only the tasks change.
add_state-Fit :
    {idle : Option ℕ} {s : Scheduler} (t : ℕ) (st : TaskState)
    → Fit idle s
    → Fit idle (scheduler_add_task (set_state s t st) t)
add_state-Fit t st h = fit (
    add_refines t
      (represents (record { lists = h.lists; queues = h.queues; same_idle = h.same_idle })))

save_current-Fit : {idle : Option ℕ} (s : Scheduler) → Fit idle s → Fit idle (save_current s)
unfolding save_current
save_current-Fit s h = elim (Option-cases (s.cpu_states 0).current_task) [
  | inl nobody ↦ rw (nobody, save_current) h
  | inr (t, current) ↦ elim (Bool-cases (is_running (s.tasks t).state)) [
    | inl runs ↦ rw (current, save_current, runs) (add_state-Fit t ready h)
    | inr rests ↦ rw (current, save_current, rests) h
  ]
]

make_ready-Fit : {idle : Option ℕ} (s : Scheduler) (t : ℕ) → Fit idle s → Fit idle (make_ready s t)
unfolding make_ready
make_ready-Fit s t h = elim (Bool-cases (is_blocked (s.tasks t).state)) [
  | inl waits ↦ rw (waits, make_ready) (add_state-Fit t ready h)
  | inr wakes ↦ rw (wakes, make_ready) h
]

wake_due-Fit :
    {idle : Option ℕ} (es : List Sleeper) (s : Scheduler) → Fit idle s → Fit idle (wake_due s es).0
unfolding wake_due
wake_due-Fit [] s h = h
wake_due-Fit (e ∷ es) s h = elim (Bool-cases (leb e.wake_time s.scheduler_ticks)) [
  | inl due ↦ rw (due, wake_due) (wake_due-Fit es (make_ready s e.task) (make_ready-Fit s e.task h))
  | inr rests ↦ rw (rests, wake_due) (wake_due-Fit es s h)
]

check_sleeping-Fit :
    {idle : Option ℕ} (s : Scheduler) → Fit idle s → Fit idle (scheduler_check_sleeping_tasks s)
unfolding scheduler_check_sleeping_tasks
check_sleeping-Fit s h =
    let woken = wake_due-Fit s.sleeping_tasks s h in
    record { lists = woken.lists; queues = woken.queues; same_idle = woken.same_idle }

-- A task is found, and the queues stay well formed.
next-Fit :
    {idle : ℕ} (s : Scheduler)
    → Fit (some idle) s
    → ((t : ℕ) × ((scheduler_get_next_task s).1 ≡ some t))
      × Fit (some idle) (scheduler_get_next_task s).0
next-Fit {idle} s h = elim (get_next_lem (represents h)) [
  | inl (empty, chosen, after) ↦ ((idle, chosen), fit after)
  | inr (p, t, ts, lt, before, at, chosen, after) ↦ ((t, chosen), fit after)
]

-- A local queue is replaced, and every processor keeps its task.
set_queue-current :
    (cpus : ℕ → Cpu) (i : ℕ) (q : TaskQueue) (k : ℕ)
    → (set_local_queue cpus i q k).current_task ≡ (cpus k).current_task
set_queue-current cpus i q k =
    update_all (λ j cpu. cpu.current_task ≡ (cpus j).current_task) cpus i
      (record (cpus i) { local_queue = q }) refl (λ j. refl) k

migrate_head-current :
    (cpus : ℕ → Cpu) (from to k : ℕ)
    → (migrate_head cpus from to k).current_task ≡ (cpus k).current_task
unfolding migrate_head
migrate_head-current cpus from to k = elim (Option-cases (pop (cpus from).local_queue).1) [
  | inl nothing ↦ rw (nothing, migrate_head) (set_queue-current cpus from (_) k)
  | inr (t, taken) ↦ elim (Bool-cases (offer (cpus to).local_queue t).1) [
    | inl accepted ↦
        rw (taken, migrate_head, accepted)
          (set_queue-current (set_local_queue cpus from (pop (cpus from).local_queue).0) to (_) k
            ∙ set_queue-current cpus from (_) k)
    | inr refused ↦ rw (taken, migrate_head, refused) (set_queue-current cpus from (_) k)
  ]
]

-- A task runs on processor 0, and the queues are well formed.
abbrev pub Runs : ℕ → ℕ → Scheduler → Type 0
Runs idle t s =
    ((s.cpu_states 0).current_task ≡ some t) × ((s.tasks t).state ≡ running) × Fit (some idle) s

either :
    (idle t : ℕ) (b : Bool) (u v : Scheduler)
    → Runs idle t u
    → Runs idle t v
    → Runs idle t (if b then u else v)
either idle t true u v hu hv = hu
either idle t false u v hu hv = hv

-- The same queues, idle task and tasks.
refit :
    {idle t : ℕ} {s : Scheduler} (n : ℕ)
    → Runs idle t s
    → Runs idle t (record s { load_balance_counter = n })
refit n (current, state, h) =
    (current, state, record { lists = h.lists; queues = h.queues; same_idle = h.same_idle })

migrated :
    {idle t : ℕ} {s : Scheduler} (from to : ℕ)
    → Runs idle t s
    → Runs idle t (record s { cpu_states = migrate_head s.cpu_states from to })
migrated {idle} {t} {s} from to (current, state, h) = (
  migrate_head-current s.cpu_states from to 0 ∙ current,
  state,
  record { lists = h.lists; queues = h.queues; same_idle = h.same_idle },
)

balance-Runs : (idle t : ℕ) (s : Scheduler) → Runs idle t s → Runs idle t (scheduler_load_balance s)
unfolding scheduler_load_balance
balance-Runs idle t s h =
    either idle t (leb s.num_cpus 1) s (_) h
      (either idle t (_) (_) s (either idle t (_) (_) s (migrated (_) (_) h) h) h)

start-Runs : (idle t : ℕ) (s : Scheduler) → Fit (some idle) s → Runs idle t (start s t)
unfolding start
start-Runs idle t s h = (
  refl,
  ap (λ k. k.state) (update_self s.tasks t (_)),
  record { lists = h.lists; queues = h.queues; same_idle = h.same_idle },
)

count_balance-Runs : (idle t : ℕ) (s : Scheduler) → Runs idle t s → Runs idle t (count_balance s)
unfolding count_balance
count_balance-Runs idle t s h =
    either idle t (_) (_) (_)
      (balance-Runs idle t (record s { load_balance_counter = 0 }) (refit 0 h))
      (refit (s.load_balance_counter + 1) h)

-- The last part of the code, on the task that was found.
dispatched :
    (idle : ℕ) (c : Scheduler) (next : Option ℕ)
    → (t : ℕ) × (next ≡ some t)
    → Fit (some idle) c
    → (t : ℕ) × Runs idle t (elim next [ none ↦ c | some t ↦ count_balance (start c t) ])
dispatched idle c (some u) found h =
    (u, count_balance-Runs idle u (start c u) (start-Runs idle u c h))
dispatched idle c none (t, e) h = absurd (ground (arith, e))

enabled :
    (idle : ℕ) (b : Bool) (u v : Scheduler)
    → b ≡ true
    → (t : ℕ) × Runs idle t u
    → (t : ℕ) × Runs idle t (if b then u else v)
enabled idle true u v on h = h
enabled idle false u v on h = absurd (ground (arith, on))

-- With preemption enabled, an idle task registered and well-formed ready queues, scheduler_schedule
-- leaves a running task on processor 0 and the queues well formed, whatever was running, asleep or
-- due for balancing before.
pub schedule_lem :
    (s : Scheduler) (idle : ℕ)
    → s.preemption_enabled ≡ true
    → Fit (some idle) s
    → (t : ℕ) × Runs idle t (scheduler_schedule s)
unfolding scheduler_schedule
schedule_lem s idle on h =
    let woken = scheduler_check_sleeping_tasks (save_current s) in
    let (found, after) =
      next-Fit woken (check_sleeping-Fit (save_current s) (save_current-Fit s h)) in
    enabled idle s.preemption_enabled (_) s on (
      dispatched idle (scheduler_get_next_task woken).0 (scheduler_get_next_task woken).1 found
        after)
