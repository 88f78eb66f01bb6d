-- ===== src/Sync/Condition.antt =====
-- The condition variable of kernel/sync.c. `none`: the caller spins on the spinlock. In
-- condition_wait the caller gives the mutex back between `enter` and the polling, and takes it
-- again after; those calls are the ones of Sync/Mutex.
use uint_os.Common.{Bool, Option, none, some, List, [], ◌∷◌, if◌then◌else◌}
use uint_os.Common.Int.{ℤ, pos, ◌+ℤ◌, ◌-ℤ◌, ltb_ℤ}
use uint_os.Sync.Spinlock.{Spinlock, acquire, release, unlocked}

-- `condition_t`
pub record Condition : Type 0 where
  pub spinlock : Spinlock
  pub waiters_count : ℤ

unfoldable pub condition_init : Option Condition → Option Condition
condition_init none = none
condition_init (some c) = some (record c { spinlock = unlocked; waiters_count = pos 0 })

-- spinlock_acquire, a change of the count, spinlock_release.
abbrev pub under_lock : (ℤ → ℤ) → Condition → Option Condition
under_lock body c = elim (acquire [] c.spinlock) [
  | none ↦ none
  | some l ↦ some (record c { spinlock = release l; waiters_count = body c.waiters_count })
]

-- The first part of condition_wait.
unfoldable pub enter : Condition → Option Condition
unfolding release
enter = under_lock (λ n. n +ℤ pos 1)

-- One round of the polling in condition_wait: has the condition been signalled?
unfoldable pub poll : Condition → Option (Condition × Bool)
unfolding release
poll c = elim (under_lock (λ n. n) c) [
  | none ↦ none
  | some c' ↦ some (c', ltb_ℤ c.waiters_count (pos 1))
]

-- The polling of condition_wait: what each call of switch_task leaves of the condition is a list.
unfoldable pub poll_rounds : List Condition → Condition → Option Condition
unfolding poll
poll_rounds [] c = elim (poll c) [
  | none ↦ none
  | some (c', signaled) ↦ if signaled then some c' else none
]
poll_rounds (next ∷ others) c =
    let again = poll_rounds others next in
    elim (poll c) [ none ↦ none | some (c', signaled) ↦ if signaled then some c' else again ]

unfoldable pub condition_signal : Option Condition → Option (Option Condition)
unfolding release
condition_signal none = some none
condition_signal (some c) = elim (under_lock (λ n. if ltb_ℤ (pos 0) n then n -ℤ pos 1 else n) c) [
  | none ↦ none
  | some c' ↦ some (some c')
]

unfoldable pub condition_broadcast : Option Condition → Option (Option Condition)
unfolding release
condition_broadcast none = some none
condition_broadcast (some c) = elim (under_lock (λ _. pos 0) c) [
  | none ↦ none
  | some c' ↦ some (some c')
]
