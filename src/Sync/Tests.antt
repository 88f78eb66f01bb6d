-- ===== src/Sync/Tests.antt =====
-- The theorems on kernel/sync.c at concrete inputs.
use uint_os.Common.{ℕ, ◌<◌, ◌≡◌, ◌⊎◌, refl, none, some, List, [], ◌∷◌, arith}
use uint_os.Sync.Mutex.{Request, lock, System, run, initial}
use uint_os.Sync.Mutex.Safety.{mutual_exclusion}
use uint_os.Sync.Mutex.Progress.{outside, owned_by, View, mine, atomic, Ends, undisturbed}
use uint_os.Sync.Semaphore
use uint_os.Sync.Semaphore.{wait_rounds, Call, try_wait, signal, Trace}
use uint_os.Sync.Laws.{permits, Balanced, run-Balanced}

-- Tasks 3 and 5 both call mutex_lock, turn about; 3 gets the mutex and 5 spins.
abbrev contended : List (ℕ × Request)
contended =
    (3, lock)
    ∷ (5, lock)
    ∷ (3, lock)
    ∷ (5, lock)
    ∷ (3, lock)
    ∷ (5, lock)
    ∷ (3, lock)
    ∷ (3, lock)
    ∷ (5, lock)
    ∷ (3, lock)
    ∷ (3, lock)
    ∷ (5, lock)
    ∷ []

holds_3 : 0 < ((run initial contended).tasks 3).depth
unfolding run
holds_3 = omega arith

mutual_exclusion_example : ◌≡◌ {A = ℕ} 3 3
mutual_exclusion_example = mutual_exclusion contended 3 3 holds_3 holds_3

-- Task 4 has two grants.
abbrev nested : System
nested = record { tasks = λ _. outside 2; mutex = owned_by 4 2 }

undisturbed_example :
    ((lock ≡ lock) × (atomic lock (mine 1) ≡ none))
    ⊎ ((v : View) × (atomic lock (mine 1) ≡ some v) × Ends nested 4 lock v)
undisturbed_example = undisturbed nested 4 lock (mine 1) tt refl refl

-- One permit of two at first.
abbrev one_permit : Trace
one_permit = record { semaphore = some (permits 1 2); granted = 0; signalled = 0 }

run-Balanced_example :
    (t : Trace) × (Semaphore.run one_permit (try_wait ∷ try_wait ∷ signal ∷ signal ∷ signal ∷ [])
      ≡ some t)
    × Balanced 1 2 t
run-Balanced_example =
    run-Balanced (try_wait ∷ try_wait ∷ signal ∷ signal ∷ signal ∷ []) 1 2 one_permit
      (1, refl, omega arith, omega arith)
