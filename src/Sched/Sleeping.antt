-- ===== src/Sched/Sleeping.antt =====
-- The order of the sleeping list of kernel/scheduler.c, and what a check of it wakes.
use uint_os.Common.{
  ℕ, ◌+◌, ◌/◌, ◌%◌, ◌^◌, ◌≤◌, ◌≡◌, ◌≢◌, refl, ap, ◌∙◌, Bool, true, false, List, [], ◌∷◌, leb, ltb,
  if◌then◌else◌, arith, All, Bool-cases, inl, inr,
}
use mathlib.Core.Path.{subst}
use uint_os.Sched.State.{Scheduler, Sleeper, is_blocked, make_ready, scheduler_add_task}
use uint_os.Sched.Sleep.{
  insert_after, insert_sleeper, scheduler_add_sleeping_task, wake_due,
  scheduler_check_sleeping_tasks, milliseconds_per_tick,
}

-- In the order of the wake times.
abbrev pub IsSorted : List Sleeper → Type 0
IsSorted [] = Unit
IsSorted (e ∷ es) = All (λ f. e.wake_time ≤ f.wake_time) es × IsSorted es

-- The entries that are not due at a tick.
unfoldable pub later : ℕ → List Sleeper → List Sleeper
later now [] = []
later now (e ∷ es) = if leb e.wake_time now then later now es else e ∷ later now es

All-map :
    {P Q : Sleeper → Type 0}
    → ((e : Sleeper) → P e → Q e)
    → (es : List Sleeper) → All P es
    → All Q es
All-map f [] ps = tt
All-map f (e ∷ es) (p, ps) = (f e p, All-map f es ps)

module _ (P : Sleeper → Type 0) where
  insert_after-All : (e : Sleeper) (es : List Sleeper) → P e → All P es → All P (insert_after e es)
  unfolding insert_after
  insert_after-All e [] p ps = (p, tt)
  insert_after-All e (n ∷ rest) p ps = elim (Bool-cases (leb n.wake_time e.wake_time)) [
    | inl h ↦ rw (h, insert_after) (ps.0, insert_after-All e rest p ps.1)
    | inr h ↦ rw (h, insert_after) (p, ps)
  ]

  later-All : (now : ℕ) (es : List Sleeper) → All P es → All P (later now es)
  unfolding later
  later-All now [] ps = tt
  later-All now (e ∷ es) ps = elim (Bool-cases (leb e.wake_time now)) [
    | inl h ↦ rw (h, later) (later-All now es ps.1)
    | inr h ↦ rw (h, later) (ps.0, later-All now es ps.1)
  ]

later-IsSorted : (now : ℕ) (es : List Sleeper) → IsSorted es → IsSorted (later now es)
unfolding later
later-IsSorted now [] h = tt
later-IsSorted now (e ∷ es) h = elim (Bool-cases (leb e.wake_time now)) [
  | inl due ↦ rw (due, later) (later-IsSorted now es h.1)
  | inr rests ↦
      rw (rests, later)
        (later-All (λ f. e.wake_time ≤ f.wake_time) now es h.0, later-IsSorted now es h.1)
]

insert_after-IsSorted :
    (e : Sleeper) (es : List Sleeper) → IsSorted es → IsSorted (insert_after e es)
unfolding insert_after
insert_after-IsSorted e [] h = (tt, tt)
insert_after-IsSorted e (n ∷ rest) h = elim (Bool-cases (leb n.wake_time e.wake_time)) [
  | inl le ↦
      rw (le, insert_after)
        (
          insert_after-All (λ f. n.wake_time ≤ f.wake_time) e rest (ground (arith, le)) h.0,
          insert_after-IsSorted e rest h.1,
        )
  | inr gt ↦
      rw (gt, insert_after)
        ((ground (arith, gt), All-map (λ f le. ground (arith, gt, le)) rest h.0), h)
]

insert_sleeper-IsSorted :
    (e : Sleeper) (es : List Sleeper) → IsSorted es → IsSorted (insert_sleeper e es)
unfolding insert_sleeper
insert_sleeper-IsSorted e [] h = (tt, tt)
insert_sleeper-IsSorted e (n ∷ rest) h = elim (Bool-cases (ltb e.wake_time n.wake_time)) [
  | inl lt ↦
      rw (lt, insert_sleeper)
        ((ground (arith, lt), All-map (λ f le. ground (arith, lt, le)) rest h.0), h)
  | inr ge ↦
      rw (ge, insert_sleeper)
        (
          insert_after-All (λ f. n.wake_time ≤ f.wake_time) e rest (ground (arith, ge)) h.0,
          insert_after-IsSorted e rest h.1,
        )
]

-- The task that a pointer reaches is not blocked.
abbrev pub Awake : Scheduler → ℕ → Type 0
Awake s t = is_blocked (s.tasks t).state ≡ false

make_ready-ticks : (s : Scheduler) (t : ℕ) → (make_ready s t).scheduler_ticks ≡ s.scheduler_ticks
unfolding make_ready scheduler_add_task
make_ready-ticks s t = ground arith

make_ready-Awake : (s : Scheduler) (t : ℕ) → Awake (make_ready s t) t
unfolding make_ready scheduler_add_task
make_ready-Awake s t = ground arith

make_ready-keeps : (s : Scheduler) (t u : ℕ) → Awake s u → Awake (make_ready s t) u
unfolding make_ready scheduler_add_task
make_ready-keeps s t u h = ground arith

make_ready_ne : (s : Scheduler) (t u : ℕ) → t ≢ u → (make_ready s t).tasks u ≡ s.tasks u
unfolding make_ready scheduler_add_task
make_ready_ne s t u h = ground arith

add_sleeping-IsSorted :
    (s : Scheduler) (t milliseconds : ℕ) (memory : Bool)
    → IsSorted s.sleeping_tasks
    → IsSorted (scheduler_add_sleeping_task s t milliseconds memory).sleeping_tasks
unfolding scheduler_add_sleeping_task
add_sleeping-IsSorted s t milliseconds true h =
    insert_sleeper-IsSorted
      (record {
        task = t;
        wake_time = (s.scheduler_ticks + milliseconds / milliseconds_per_tick) % 2 ^ 64;
      })
      s.sleeping_tasks h
add_sleeping-IsSorted s t milliseconds false h = h

-- The walk over the list keeps the entries that are not due, and the tick.
wake_due-later :
    (es : List Sleeper) (s : Scheduler)
    → ((wake_due s es).1 ≡ later s.scheduler_ticks es)
      × ((wake_due s es).0.scheduler_ticks ≡ s.scheduler_ticks)
unfolding wake_due later
wake_due-later [] s = (refl, refl)
wake_due-later (e ∷ es) s = elim (Bool-cases (leb e.wake_time s.scheduler_ticks)) [
  | inl due ↦
      let (kept, same) = wake_due-later es (make_ready s e.task) in
      rw (due, wake_due, later)
        (kept ∙ ap (λ n. later n es) (make_ready-ticks s e.task), same ∙ make_ready-ticks s e.task)
  | inr rests ↦
      let (kept, same) = wake_due-later es s in
      rw (rests, wake_due, later) (ap (λ l. e ∷ l) kept, same)
]

wake_due-keeps : (es : List Sleeper) (s : Scheduler) (u : ℕ) → Awake s u → Awake (wake_due s es).0 u
unfolding wake_due
wake_due-keeps [] s u h = h
wake_due-keeps (e ∷ es) s u h = elim (Bool-cases (leb e.wake_time s.scheduler_ticks)) [
  | inl due ↦
      rw (due, wake_due) (wake_due-keeps es (make_ready s e.task) u (make_ready-keeps s e.task u h))
  | inr rests ↦ rw (rests, wake_due) (wake_due-keeps es s u h)
]

-- The walk has left no task of a due entry blocked.
abbrev pub Wakes : ℕ → List Sleeper → Scheduler × List Sleeper → Type 0
Wakes now es out = All (λ e. e.wake_time ≤ now → Awake out.0 e.task) es

wake_due-Awake : (es : List Sleeper) (s : Scheduler) → Wakes s.scheduler_ticks es (wake_due s es)
unfolding wake_due
wake_due-Awake [] s = tt
wake_due-Awake (e ∷ es) s = elim (Bool-cases (leb e.wake_time s.scheduler_ticks)) [
  | inl due ↦
      subst (Wakes s.scheduler_ticks (e ∷ es)) {x = wake_due (make_ready s e.task) es}
        {y = wake_due s (e ∷ es)} (rw (due, wake_due) refl)
        (
          (λ le. wake_due-keeps es (make_ready s e.task) e.task (make_ready-Awake s e.task)),
          All-map (λ f awake le. awake (omega (arith, make_ready-ticks s e.task))) es
              (wake_due-Awake es (make_ready s e.task)),
        )
  | inr rests ↦
      subst (Wakes s.scheduler_ticks (e ∷ es)) {x = ((wake_due s es).0, e ∷ (wake_due s es).1)}
        {y = wake_due s (e ∷ es)} (rw (rests, wake_due) refl)
        ((λ le. absurd (ground (arith, rests))), wake_due-Awake es s)
]

-- A task that is not among those due is not touched.
wake_due_ne :
    (es : List Sleeper) (s : Scheduler) (u : ℕ)
    → All (λ e. e.wake_time ≤ s.scheduler_ticks → e.task ≢ u) es
    → (wake_due s es).0.tasks u ≡ s.tasks u
unfolding wake_due
wake_due_ne [] s u h = refl
wake_due_ne (e ∷ es) s u h = elim (Bool-cases (leb e.wake_time s.scheduler_ticks)) [
  | inl due ↦
      rw (due, wake_due)
        (wake_due_ne es (make_ready s e.task) u
            (All-map (λ f ne le. ne (omega (arith, make_ready-ticks s e.task))) es h.1)
          ∙ make_ready_ne s e.task u (h.0 (ground (arith, due))))
  | inr rests ↦ rw (rests, wake_due) (wake_due_ne es s u h.1)
]

-- On a sorted sleeping list scheduler_add_sleeping_task and scheduler_check_sleeping_tasks keep it
-- sorted; the check keeps exactly the entries that are not due, leaves no task of a due entry
-- blocked, and changes no task without a due entry.
pub check_sleeping_lem :
    (s : Scheduler) (t milliseconds : ℕ) (memory : Bool)
    → IsSorted s.sleeping_tasks
    → let s' = scheduler_check_sleeping_tasks s in
      IsSorted (scheduler_add_sleeping_task s t milliseconds memory).sleeping_tasks
      × IsSorted s'.sleeping_tasks
      × (s'.sleeping_tasks ≡ later s.scheduler_ticks s.sleeping_tasks)
      × All
          (λ e. e.wake_time ≤ s.scheduler_ticks → is_blocked (s'.tasks e.task).state ≡ false)
          s.sleeping_tasks
      × ((u : ℕ)
          → All (λ e. e.wake_time ≤ s.scheduler_ticks → e.task ≢ u) s.sleeping_tasks
          → s'.tasks u ≡ s.tasks u)
unfolding scheduler_check_sleeping_tasks
check_sleeping_lem s t milliseconds memory h =
    let kept = (wake_due-later s.sleeping_tasks s).0 in
    (
      add_sleeping-IsSorted s t milliseconds memory h,
      rw kept (later-IsSorted s.scheduler_ticks s.sleeping_tasks h),
      kept,
      wake_due-Awake s.sleeping_tasks s,
      wake_due_ne s.sleeping_tasks s,
    )
