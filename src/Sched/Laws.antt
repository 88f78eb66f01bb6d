-- ===== src/Sched/Laws.antt =====
-- What the dispatch and the sleeping list of kernel/scheduler.c guarantee.
use uint_os.Common.{
  ℕ, zero, suc, ◌+◌, ◌/◌, ◌^◌, ◌≤◌, ◌<◌, ◌≡◌, ◌⊎◌, refl, ap, ◌∙◌, Option, some, List, [], ◌∷◌,
  arith, update, All, inl, inr,
}
use mathlib.Core.Path.{subst}
use uint_os.Sched.State.{Task, Scheduler, Sleeper, max_priority, next_from, scheduler_get_next_task}
use uint_os.Sched.Holds.{extend_below}
use uint_os.Sched.Spec.{Lists, first_of}
use uint_os.Sched.Refine.{Represents, next_refines}
use uint_os.Sched.Dispatch.{time_slice_of}
use uint_os.Sched.Sleep.{milliseconds_per_tick}

-- The choice among the lists from p on, n of them.
abbrev pub Chosen : Lists → Option ℕ → ℕ → ℕ → Lists × Option ℕ → Type 0
Chosen b idle n p out =
    (((k : ℕ) → p ≤ k → k < p + n → b k ≡ []) × (out ≡ (b, idle)))
    ⊎ ((k t : ℕ) × (ts : List ℕ) × (p ≤ k)
        × (k < p + n)
        × ((j : ℕ) → p ≤ j → j < k → b j ≡ [])
        × (b k ≡ t ∷ ts)
        × (out ≡ (update b k ts, some t)))

first_of_round :
    (n p : ℕ) (b : Lists) (idle : Option ℕ) (box : List ℕ)
    → b p ≡ box
    → Chosen b idle n (p + 1) (first_of n (p + 1) b idle)
    → Chosen b idle (suc n) p (first_of (suc n) p b idle)
unfolding first_of
first_of_round n p b idle (t ∷ ts) e rest = inr (
  p,
  t,
  ts,
  omega arith,
  omega arith,
  (λ j le lt. absurd (omega arith)),
  e,
  rw (e, first_of) refl,
)
first_of_round n p b idle [] e (inl (empty, out)) = inl (
  extend_below (λ k. b k ≡ []) p (p + suc n) e (λ k le lt. empty k le (omega arith)),
  rw (e, first_of) out,
)
first_of_round n p b idle [] e (inr (k, t, ts, le, lt, before, at, out)) = inr (
  k,
  t,
  ts,
  omega arith,
  omega arith,
  extend_below (λ j. b j ≡ []) p k e before,
  at,
  rw (e, first_of) out,
)

first_of_lem : (n p : ℕ) (b : Lists) (idle : Option ℕ) → Chosen b idle n p (first_of n p b idle)
unfolding first_of
first_of_lem zero p b idle = inl (λ k le lt. absurd (omega arith), refl)
first_of_lem (suc n) p b idle = first_of_round n p b idle (b p) refl (first_of_lem n (p + 1) b idle)

-- scheduler_get_next_task takes the oldest task of the first priority whose queue is not empty, and
-- gives the idle task, changing no queue, exactly when all 32 are empty.
pub get_next_lem :
    {tasks : ℕ → Task} {idle : Option ℕ} {s : Scheduler} {b : Lists}
    → Represents tasks idle s b
    → (((p : ℕ) → p < max_priority → b p ≡ [])
        × ((scheduler_get_next_task s).1 ≡ idle)
        × Represents tasks idle (scheduler_get_next_task s).0 b)
      ⊎ ((p t : ℕ) × (ts : List ℕ) × (p < max_priority)
          × ((j : ℕ) → j < p → b j ≡ [])
          × (b p ≡ t ∷ ts)
          × ((scheduler_get_next_task s).1 ≡ some t)
          × Represents tasks idle (scheduler_get_next_task s).0 (update b p ts))
unfolding scheduler_get_next_task
get_next_lem {tasks} {idle} {s} {b} h =
    let step = next_refines max_priority 0 h (omega arith) in
    elim (first_of_lem max_priority 0 b idle) [
      | inl (empty, out) ↦ inl (
        (λ p lt. empty p (omega arith) (omega arith)),
        step.1 ∙ ap (λ o. o.1) out,
        subst (Represents tasks idle (next_from max_priority 0 s).0) (ap (λ o. o.0) out) step.0,
      )
      | inr (k, t, ts, le, lt, before, at, out) ↦ inr (
        k,
        t,
        ts,
        omega arith,
        (λ j jl. before j (omega arith) jl),
        at,
        step.1 ∙ ap (λ o. o.1) out,
        subst (Represents tasks idle (next_from max_priority 0 s).0) (ap (λ o. o.0) out) step.0,
      )
    ]

-- In the order of the wake times.
abbrev pub Sorted : List Sleeper → Type 0
Sorted [] = Unit
Sorted (e ∷ es) = All (λ f. e.wake_time ≤ f.wake_time) es × Sorted es

-- With a priority below 32 a time slice is at least the quantum's, and at most 62 ticks more; a
-- higher task never gets less than a lower one.
time_slice_bounds :
    (s : Scheduler) (p q : ℕ)
    → s.quantum_ms < 2 ^ 32
    → p ≤ q
    → q < max_priority
    → (s.quantum_ms / milliseconds_per_tick ≤ time_slice_of s q)
      × (time_slice_of s q ≤ time_slice_of s p)
      × (time_slice_of s p ≤ s.quantum_ms / milliseconds_per_tick + 62)
unfolding time_slice_of
time_slice_bounds s p q hq le lt = ground arith
