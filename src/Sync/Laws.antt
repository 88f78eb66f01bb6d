-- ===== src/Sync/Laws.antt =====
-- The guarantees of the spinlock, the semaphore and the condition variable of kernel/sync.c.
use uint_os.Common.{
  ℕ, zero, suc, dec_lt, map, sym, ◌+◌, ◌-◌, ◌≤◌, ◌≡◌, ◌≢◌, refl, true, false, some, List, [], ◌∷◌,
  ◌++◌, arith, ◌==◌, All,
}
use mathlib.Core.Path.{subst}
use uint_os.Common.Int.{pos}
use uint_os.Sync.Spinlock.{Spinlock, locked, unlocked, acquire, release}
use uint_os.Sync.Semaphore
use uint_os.Sync.Semaphore.{
  Semaphore, semaphore_init, semaphore_try_wait, semaphore_signal, take_permit, give_permit,
  wait_rounds, semaphore_wait, Call, try_wait, signal, Trace, step,
}
use uint_os.Sync.Condition.{Condition, enter, poll, condition_signal, condition_broadcast}

-- spinlock_acquire returns at the first time that the lock reads 0, with the lock taken: the
-- entries of `held` are the times at which another task holds it.
acquire_lem :
    (held : List Spinlock) (free : Spinlock) (later : List Spinlock) (first : Spinlock)
    → All (λ (l : Spinlock). l.lock ≢ 0) (first ∷ held)
    → free.lock ≡ 0
    → acquire (held ++ (free ∷ later)) first ≡ some locked
unfolding acquire
acquire_lem [] free [] first h e = ground arith
acquire_lem [] free (l ∷ later) first h e = ground arith
acquire_lem (w ∷ ws) free later first h e = ground (arith, acquire_lem ws free later w h.1 e)

-- A semaphore with n permits of m, its spinlock free.
abbrev pub permits : ℕ → ℕ → Semaphore
permits n m = record { spinlock = unlocked; count = pos n; max_count = pos m }

-- The semaphore keeps within its bounds, and what is left and what was granted is at most what
-- there was at first and what was signalled.
abbrev pub Balanced : ℕ → ℕ → Trace → Type 0
Balanced first m t =
    (n : ℕ) × (t.semaphore ≡ some (permits n m)) × (n ≤ m) × (n + t.granted ≤ first + t.signalled)

step-Balanced :
    (first m n g k : ℕ) (c : Call)
    → n ≤ m
    → n + g ≤ first + k
    → (t : Trace) × (step (record { semaphore = some (permits n m); granted = g; signalled = k }) c
        ≡ some t)
      × Balanced first m t
unfolding step release acquire
step-Balanced first m zero g k try_wait le bal = (
  record { semaphore = some (permits 0 m); granted = g; signalled = k },
  ground arith,
  (0, refl, omega arith, omega arith),
)
step-Balanced first m (suc n) g k try_wait le bal = (
  record { semaphore = some (permits n m); granted = g + 1; signalled = k },
  ground arith,
  (n, refl, omega arith, omega arith),
)
step-Balanced first m n g k signal le bal = elim (dec_lt n m) [
  | yes room ↦ (
    record { semaphore = some (permits (n + 1) m); granted = g; signalled = k + 1 },
    ground arith,
    (n + 1, refl, omega arith, omega arith),
  )
  | no full ↦ (
    record { semaphore = some (permits n m); granted = g; signalled = k + 1 },
    ground arith,
    (n, refl, le, omega arith),
  )
]

step_kept :
    (first m : ℕ) (t : Trace) (c : Call)
    → Balanced first m t
    → (t' : Trace) × (step t c ≡ some t') × Balanced first m t'
step_kept first m t c (n, e, le, bal) =
    subst
      (λ sem.
        (t' : Trace) × (step (record t { semaphore = sem }) c ≡ some t') × Balanced first m t')
      (sym e) (step-Balanced first m n t.granted t.signalled c le bal)

-- Any sequence of semaphore_try_wait and semaphore_signal, from a semaphore with `first` permits of
-- at most m, runs through: the count stays within 0 and m, and the permits granted and left are
-- together at most the first ones and the signals.
pub run-Balanced :
    (cs : List Call) (first m : ℕ) (t : Trace)
    → Balanced first m t
    → (t' : Trace) × (Semaphore.run t cs ≡ some t') × Balanced first m t'
unfolding Semaphore.run
run-Balanced [] first m t bal = (t, refl, bal)
run-Balanced (c ∷ cs) first m t bal =
    let (next, e, kept) = step_kept first m t c bal in
    rw (e, Semaphore.run) (run-Balanced cs first m next kept)

-- semaphore_wait passes over the states without a permit, and takes one from the first that has one.
wait_rounds_lem :
    (caps : List ℕ) (first n m : ℕ) (others : List Semaphore)
    → wait_rounds (map (permits 0) caps ++ (permits (n + 1) m ∷ others)) (permits 0 first)
      ≡ some (permits n m)
unfolding wait_rounds acquire release
wait_rounds_lem [] first n m [] = ground arith
wait_rounds_lem [] first n m (o ∷ others) = ground arith
wait_rounds_lem (c ∷ caps) first n m others = wait_rounds_lem caps c n m others

-- A condition variable with n waiters counted, its spinlock free.
abbrev pub waiters : ℕ → Condition
waiters n = record { spinlock = unlocked; waiters_count = pos n }

-- A waiter's poll tells it to go on exactly when no waiter is counted, and changes nothing.
poll_lem : (n : ℕ) → poll (waiters n) ≡ some (waiters n, n == 0)
unfolding poll acquire release
poll_lem n = ground arith

-- With two or more waiters counted, condition_signal takes one off the count, and the poll of
-- every waiter still tells it to wait: nobody is woken.
signal_wakes_nobody :
    (n : ℕ)
    → 2 ≤ n
    → (condition_signal (some (waiters n)) ≡ some (some (waiters (n - 1))))
      × (poll (waiters (n - 1)) ≡ some (waiters (n - 1), false))
unfolding condition_signal poll acquire release
signal_wakes_nobody n h = (ground arith, ground arith)

-- With one waiter counted, condition_signal lets it go on; with any number, condition_broadcast
-- lets all go on.
woken :
    (n : ℕ)
    → (condition_signal (some (waiters 1)) ≡ some (some (waiters 0)))
      × (condition_broadcast (some (waiters n)) ≡ some (some (waiters 0)))
      × (poll (waiters 0) ≡ some (waiters 0, true))
unfolding condition_signal condition_broadcast poll acquire release
woken n = (refl, refl, refl)

-- A task that starts to wait after a broadcast, before the others have polled, makes them wait on.
late_waiter :
    (n : ℕ)
    → (condition_broadcast (some (waiters n)) ≡ some (some (waiters 0)))
      × (enter (waiters 0) ≡ some (waiters 1))
      × (poll (waiters 1) ≡ some (waiters 1, false))
unfolding condition_broadcast enter poll acquire release
late_waiter n = (refl, refl, refl)
