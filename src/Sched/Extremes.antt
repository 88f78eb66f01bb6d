-- ===== src/Sched/Extremes.antt =====
-- The fullest and the emptiest processor that the load balancing of kernel/scheduler.c finds.
use uint_os.Common.{
  ℕ, zero, suc, ◌+◌, ◌≤◌, ◌<◌, ◌≡◌, refl, ap, ltb, arith, Bool-cases, inl, inr, ℕ_discrete,
}
use mathlib.Core.Path.{subst}
use uint_os.Sched.State.{Cpu}
use uint_os.Sched.Balance.{int_max, Extremes, compare_cpu, extremes}
use uint_os.Sched.Target.{Active, count_of}

-- The extremes found among the first i processors.
pub record Found (cpus : ℕ → Cpu) (i : ℕ) (e : Extremes) : Type 0 where
  pub most : (k : ℕ) → k < i → Active cpus k → count_of cpus k ≤ e.max_tasks
  pub least : (k : ℕ) → k < i → Active cpus k → e.min_tasks ≤ count_of cpus k
  pub at_most :
      0 < e.max_tasks
      → (e.max_cpu < i) × Active cpus e.max_cpu × (count_of cpus e.max_cpu ≡ e.max_tasks)
  pub at_least :
      e.min_tasks < int_max
      → (e.min_cpu < i) × Active cpus e.min_cpu × (count_of cpus e.min_cpu ≡ e.min_tasks)

compare_cpu-Found :
    {cpus : ℕ → Cpu} {i : ℕ} {e : Extremes}
    → Found cpus i e
    → Found cpus (i + 1) (compare_cpu cpus i e)
unfolding compare_cpu
compare_cpu-Found {cpus} {i} {e} h = elim (Bool-cases (cpus i).is_active) [
  | inl on ↦
      rw (on, compare_cpu)
        (record {
          most = λ k lt a. elim (ℕ_discrete k i) [
            | yes same ↦ ground (arith, ap (count_of cpus) same)
            | no other ↦ ground (arith, h.most k (omega arith) a)
          ];
          least = λ k lt a. elim (ℕ_discrete k i) [
            | yes same ↦ ground (arith, ap (count_of cpus) same)
            | no other ↦ ground (arith, h.least k (omega arith) a)
          ];
          at_most = elim (Bool-cases (ltb e.max_tasks (count_of cpus i))) [
            | inl more ↦ rw more (λ lt. (omega arith, on, refl))
            | inr no_more ↦
                rw no_more
                  (λ lt. let (below, active, count) = h.at_most lt in (omega arith, active, count))
          ];
          at_least = elim (Bool-cases (ltb (count_of cpus i) e.min_tasks)) [
            | inl less ↦ rw less (λ lt. (omega arith, on, refl))
            | inr no_less ↦
                rw no_less
                  (λ lt. let (below, active, count) = h.at_least lt in (omega arith, active, count))
          ];
        })
  | inr off ↦
      rw (off, compare_cpu)
        (record {
          most = λ k lt a. elim (ℕ_discrete k i) [
            | yes same ↦ absurd (ground (arith, ap (λ j. (cpus j).is_active) same, a, off))
            | no other ↦ h.most k (omega arith) a
          ];
          least = λ k lt a. elim (ℕ_discrete k i) [
            | yes same ↦ absurd (ground (arith, ap (λ j. (cpus j).is_active) same, a, off))
            | no other ↦ h.least k (omega arith) a
          ];
          at_most = λ lt. let (below, active, count) = h.at_most lt in (omega arith, active, count);
          at_least =
              λ lt. let (below, active, count) = h.at_least lt in (omega arith, active, count);
        })
]

pub extremes-Found :
    {cpus : ℕ → Cpu} (n i : ℕ) {e : Extremes}
    → Found cpus i e
    → Found cpus (i + n) (extremes n i cpus e)
unfolding extremes
extremes-Found {cpus} zero i {e} h = subst (λ j. Found cpus j e) (omega arith) h
extremes-Found {cpus} (suc n) i {e} h =
    subst (λ j. Found cpus j (extremes n (i + 1) cpus (compare_cpu cpus i e))) (omega arith)
      (extremes-Found n (i + 1) (compare_cpu-Found h))

abbrev pub first_extremes : Extremes
first_extremes = record { max_cpu = 0; max_tasks = 0; min_cpu = 0; min_tasks = int_max }

pub first-Found : (cpus : ℕ → Cpu) → Found cpus 0 first_extremes
first-Found cpus = record {
  most = λ k lt a. absurd (omega arith);
  least = λ k lt a. absurd (omega arith);
  at_most = λ lt. absurd (omega arith);
  at_least = λ lt. absurd (omega arith);
}
