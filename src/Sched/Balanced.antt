-- ===== src/Sched/Balanced.antt =====
-- What the load balancing of kernel/scheduler.c moves.
use uint_os.Common.{
  ℕ, ◌+◌, ◌≤◌, ◌<◌, ◌≡◌, ◌≢◌, ◌⊎◌, refl, ap, true, false, not, ◌&&◌, some, List, [], ◌∷◌, ◌++◌,
  ◌==◌, ltb, leb, if◌then◌else◌, arith, length, update, update_both, Bool-cases, inl, inr,
}
use mathlib.Core.Path.{subst}
use uint_os.Sched.Queue.{max_tasks, push, pop, offer}
use uint_os.Sched.Holds.{Holds, push-Holds, pop-Holds}
use uint_os.Sched.State.{Scheduler, Cpu}
use uint_os.Sched.Balance.{
  Extremes, extremes, set_local_queue, migrate_head, scheduler_load_balance,
}
use uint_os.Sched.Target.{Active, count_of}
use uint_os.Sched.Extremes.{Found, extremes-Found, first_extremes, first-Found}

-- Each local queue holds its list.
abbrev pub Locals : ℕ → (ℕ → Cpu) → (ℕ → List ℕ) → Type 0
Locals n cpus lists = (k : ℕ) → k < n → Holds (cpus k).local_queue (lists k)

abbrev pub move : (ℕ → List ℕ) → ℕ → ℕ → ℕ → List ℕ → ℕ → List ℕ
move lists from to t ts = update (update lists from ts) to (lists to ++ (t ∷ []))

migrate_head-Locals :
    {n : ℕ} (cpus : ℕ → Cpu) (lists : ℕ → List ℕ) (from to t : ℕ) (ts : List ℕ)
    → Locals n cpus lists
    → from < n
    → to < n
    → from ≢ to
    → lists from ≡ t ∷ ts
    → length (lists to) < max_tasks
    → Locals n (migrate_head cpus from to) (move lists from to t ts)
unfolding migrate_head offer
migrate_head-Locals {n} cpus lists from to t ts h fl tl ne e room k kl =
    rw (popped.1, migrate_head, fits)
      (update_both (λ j cpu l. j < n → Holds cpu.local_queue l)
        (set_local_queue cpus from (pop (cpus from).local_queue).0) (update lists from ts) to
        (record (set_local_queue cpus from (pop (cpus from).local_queue).0 to) {
          local_queue = push (cpus to).local_queue t;
        })
        (lists to ++ (t ∷ [])) (λ _. push-Holds t (h to tl) (omega (arith, (h to tl).counted)))
        (update_both (λ j cpu l. j < n → Holds cpu.local_queue l) cpus lists from
          (record (cpus from) { local_queue = (pop (cpus from).local_queue).0 }) ts (λ _. popped.0)
          h)
        k kl)
  where
    popped : Holds (pop (cpus from).local_queue).0 ts × ((pop (cpus from).local_queue).1 ≡ some t)
    popped = pop-Holds t (subst (Holds (cpus from).local_queue) e (h from fl))

    fits : ltb (cpus to).local_queue.count max_tasks ≡ true
    fits = ground (arith, (h to tl).counted)

-- The two outcomes of a balancing: nothing, with no two active processors more than two tasks
-- apart; or the oldest task of a longest list goes to the end of a shortest one.
abbrev pub Outcome : Scheduler → (ℕ → List ℕ) → Scheduler → Type 0
Outcome s lists s' =
    ((s' ≡ s)
      × ((j k : ℕ)
          → j < s.num_cpus
          → k < s.num_cpus
          → Active s.cpu_states j
          → Active s.cpu_states k
          → length (lists k) ≤ length (lists j) + 2))
    ⊎ ((from to t : ℕ) × (ts : List ℕ) × (from < s.num_cpus)
        × (to < s.num_cpus)
        × Active s.cpu_states from
        × Active s.cpu_states to
        × (lists from ≡ t ∷ ts)
        × (length (lists to) + 2 < length (lists from))
        × ((k : ℕ)
            → k < s.num_cpus
            → Active s.cpu_states k
            → (length (lists to) ≤ length (lists k)) × (length (lists k) ≤ length (lists from)))
        × (s' ≡ record s { cpu_states = s'.cpu_states })
        × Locals s.num_cpus s'.cpu_states (move lists from to t ts))

some_task : (l : List ℕ) → 0 < length l → (t : ℕ) × (ts : List ℕ) × (l ≡ t ∷ ts)
some_task [] lt = absurd (omega arith)
some_task (t ∷ ts) lt = (t, ts, refl)

differ : (i j : ℕ) → i ≢ j → (i == j) ≡ false
differ i j ne = ground arith

below : (i j : ℕ) → i < j → ltb i j ≡ true
below i j lt = ground arith

module _ (s : Scheduler) (lists : ℕ → List ℕ) (h : Locals s.num_cpus s.cpu_states lists) where
  -- The extremes are too far apart, and are queues of two processors.
  moved :
      (e : Extremes)
      → Found s.cpu_states s.num_cpus e
      → e.min_tasks + 2 < e.max_tasks
      → Outcome s lists (record s { cpu_states = migrate_head s.cpu_states e.max_cpu e.min_cpu })
  moved e f apart =
      let (from_in, from_active, from_count) = f.at_most (omega arith) in
      let most = h e.max_cpu from_in in
      let (to_in, to_active, to_count) = f.at_least (omega (arith, from_count, most.few)) in
      let least = h e.min_cpu to_in in
      let (t, ts, at) = some_task (lists e.max_cpu) (omega (arith, most.counted, from_count)) in
      inr (
        e.max_cpu,
        e.min_cpu,
        t,
        ts,
        from_in,
        to_in,
        from_active,
        to_active,
        at,
        omega (arith, most.counted, least.counted, from_count, to_count),
        (λ k lt a. (
          omega (arith, (h k lt).counted, least.counted, to_count, f.least k lt a),
          omega (arith, (h k lt).counted, most.counted, from_count, f.most k lt a),
        )),
        refl,
        migrate_head-Locals s.cpu_states lists e.max_cpu e.min_cpu t ts h from_in to_in
            (λ same. omega (arith, ap (count_of s.cpu_states) same, from_count, to_count, apart)) at
            (omega (arith, most.counted, least.counted, from_count, to_count, most.few)),
      )

  settled :
      (e : Extremes)
      → Found s.cpu_states s.num_cpus e
      → e.max_tasks ≤ e.min_tasks + 2
      → Outcome s lists s
  settled e f near = inl (
    refl,
    λ j k jl kl ja ka.
        omega (arith, (h j jl).counted, (h k kl).counted, f.most k kl ka, f.least j jl ja),
  )

  -- The tests behind the search for the extremes.
  balance_by :
      (e : Extremes)
      → Found s.cpu_states s.num_cpus e
      → Outcome s lists (
          if ltb (e.min_tasks + 2) e.max_tasks && not (e.max_cpu == e.min_cpu)
          then (if ltb 0 (s.cpu_states e.max_cpu).local_queue.count
              then record s { cpu_states = migrate_head s.cpu_states e.max_cpu e.min_cpu }
              else s)
          else s)
  balance_by e f = elim (Bool-cases (ltb (e.min_tasks + 2) e.max_tasks)) [
    | inr near ↦ rw near (settled e f (ground (arith, near)))
    | inl apart ↦
        let (from_in, from_active, from_count) = f.at_most (ground (arith, apart)) in
        let (to_in, to_active, to_count) =
          f.at_least (ground (arith, apart, from_count, (h e.max_cpu from_in).few)) in
        rw
          (
            apart,
            differ e.max_cpu e.min_cpu (λ same.
                ground (arith, ap (count_of s.cpu_states) same, from_count, to_count, apart)),
            below 0 (count_of s.cpu_states e.max_cpu) (ground (arith, from_count, apart)),
          )
          (moved e f (ground (arith, apart)))
  ]

-- scheduler_load_balance, where each local queue holds a list, loses no task and invents none: it
-- does nothing when no two active processors are more than two tasks apart, and otherwise moves the
-- oldest task of a longest active queue to the end of a shortest active one.
pub load_balance_lem :
    (s : Scheduler) (lists : ℕ → List ℕ)
    → Locals s.num_cpus s.cpu_states lists
    → Outcome s lists (scheduler_load_balance s)
unfolding scheduler_load_balance
load_balance_lem s lists h = elim (Bool-cases (leb s.num_cpus 1)) [
  | inl one ↦
      subst (Outcome s lists) {x = s} {y = scheduler_load_balance s}
        (rw (one, scheduler_load_balance) refl)
        (inl (
          refl,
          λ j k jl kl ja ka.
              omega (arith, ap (λ i. length (lists i)) {x = j} {y = k} (ground (arith, one))),
        ))
  | inr many ↦
      subst (Outcome s lists) {y = scheduler_load_balance s}
        (rw (many, scheduler_load_balance) refl)
        (balance_by s lists h (extremes s.num_cpus 0 s.cpu_states first_extremes) (
          subst (λ n. Found s.cpu_states n (extremes s.num_cpus 0 s.cpu_states first_extremes))
            (omega arith) (extremes-Found s.num_cpus 0 (first-Found s.cpu_states))))
]
