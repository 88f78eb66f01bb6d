-- ===== src/Sched/Target.antt =====
-- Which processor kernel/scheduler.c chooses for a new task.
use uint_os.Common.{
  ℕ, zero, suc, ◌+◌, ◌≤◌, ◌<◌, ◌≡◌, ◌⊎◌, refl, ap, ◌∙◌, true, false, ◌&&◌, ltb, leb, arith,
  Bool-cases, inl, inr,
}
use uint_os.Sched.Holds.{extend_below}
use uint_os.Sched.State.{Scheduler, Cpu}
use uint_os.Sched.Balance.{int_max, least_loaded, scheduler_smp_get_target_cpu}

module _ (cpus : ℕ → Cpu) where
  abbrev pub Active : ℕ → Type 0
  Active k = (cpus k).is_active ≡ true

  abbrev pub count_of : ℕ → ℕ
  count_of k = (cpus k).local_queue.count

  -- The choice r among the n processors from i on, against a smallest count so far and its holder.
  Least : ℕ → ℕ → ℕ → ℕ → ℕ → Type 0
  Least n i min target r =
      ((r ≡ target) × ((k : ℕ) → i ≤ k → k < i + n → Active k → min ≤ count_of k))
      ⊎ ((i ≤ r)
          × (r < i + n)
          × Active r
          × (count_of r < min)
          × ((k : ℕ) → i ≤ k → k < i + n → Active k → count_of r ≤ count_of k))

  better_step :
      {i min : ℕ} (n target r : ℕ)
      → Active i
      → count_of i < min
      → Least n (i + 1) (count_of i) i r
      → Least (suc n) i min target r
  unfolding Least
  better_step {i} n target r active lt (inl (e, later)) = inr (
    omega arith,
    omega arith,
    ap (λ k. (cpus k).is_active) e ∙ active,
    omega (arith, ap count_of e),
    extend_below (λ k. Active k → count_of r ≤ count_of k) i (i + suc n)
        (λ _. omega (arith, ap count_of e))
        (λ k le kl ak. omega (arith, ap count_of e, later k le (omega arith) ak)),
  )
  better_step {i} n target r active lt (inr (le, rl, ar, less, later)) = inr (
    omega arith,
    omega arith,
    ar,
    omega arith,
    extend_below (λ k. Active k → count_of r ≤ count_of k) i (i + suc n) (λ _. omega arith)
        (λ k kle kl ak. later k kle (omega arith) ak),
  )

  worse_step :
      {i min : ℕ} (n target r : ℕ)
      → (Active i → min ≤ count_of i)
      → Least n (i + 1) min target r
      → Least (suc n) i min target r
  unfolding Least
  worse_step {i} {min} n target r h (inl (e, later)) = inl (
    e,
    extend_below (λ k. Active k → min ≤ count_of k) i (i + suc n) h
        (λ k le kl ak. later k le (omega arith) ak),
  )
  worse_step {i} n target r h (inr (le, rl, ar, less, later)) = inr (
    omega arith,
    omega arith,
    ar,
    less,
    extend_below (λ k. Active k → count_of r ≤ count_of k) i (i + suc n) (λ a. omega (arith, h a))
        (λ k kle kl ak. later k kle (omega arith) ak),
  )

  least_loaded_lem : (n i min target : ℕ) → Least n i min target (least_loaded n i cpus min target)
  unfolding least_loaded Least
  least_loaded_lem zero i min target = inl (refl, λ k le lt. absurd (omega arith))
  least_loaded_lem (suc n) i min target =
      elim (Bool-cases ((cpus i).is_active && ltb (count_of i) min)) [
        | inl better ↦
            rw (better, least_loaded)
              (better_step n target (least_loaded n (i + 1) cpus (count_of i) i)
                (ground (arith, better)) (ground (arith, better))
                (least_loaded_lem n (i + 1) (count_of i) i))
        | inr worse ↦
            rw (worse, least_loaded)
              (worse_step n target (least_loaded n (i + 1) cpus min target)
                (λ a. ground (arith, a, worse)) (least_loaded_lem n (i + 1) min target))
      ]

-- With more than one processor and an active one with fewer than 2^31 - 1 tasks,
-- scheduler_smp_get_target_cpu chooses an active processor with the least tasks.
target_cpu_lem :
    (s : Scheduler) (i : ℕ)
    → 1 < s.num_cpus
    → i < s.num_cpus
    → Active s.cpu_states i
    → count_of s.cpu_states i < int_max
    → let c = scheduler_smp_get_target_cpu s in
      (c < s.num_cpus)
      × Active s.cpu_states c
      × ((k : ℕ)
          → k < s.num_cpus
          → Active s.cpu_states k
          → count_of s.cpu_states c ≤ count_of s.cpu_states k)
unfolding scheduler_smp_get_target_cpu Least
target_cpu_lem s i many lt active few =
    rw many_cpus (go (least_loaded_lem s.cpu_states s.num_cpus 0 int_max 0))
  where
    many_cpus : leb s.num_cpus 1 ≡ false
    many_cpus = ground (arith, many)

    c : ℕ
    c = least_loaded s.num_cpus 0 s.cpu_states int_max 0

    go :
        Least s.cpu_states s.num_cpus 0 int_max 0 c
        → (c < s.num_cpus)
          × Active s.cpu_states c
          × ((k : ℕ)
              → k < s.num_cpus
              → Active s.cpu_states k
              → count_of s.cpu_states c ≤ count_of s.cpu_states k)
    go (inl (e, all)) = absurd (omega (arith, all i (omega arith) (omega arith) active))
    go (inr (le, cl, ac, less, all)) =
        (omega arith, ac, λ k kl ak. all k (omega arith) (omega arith) ak)
