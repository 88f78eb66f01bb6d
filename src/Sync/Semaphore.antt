-- ===== src/Sync/Semaphore.antt =====
-- The counting semaphore of kernel/sync.c. `none`: the caller spins on the semaphore's spinlock, or
-- waits for ever. What other tasks make of the semaphore while a caller of semaphore_wait yields
-- is a list, one entry for each call of switch_task.
use uint_os.Common.{ℕ, ◌+◌, Bool, true, false, Option, none, some, List, [], ◌∷◌, if◌then◌else◌}
use uint_os.Common.Int.{ℤ, pos, ◌+ℤ◌, ◌-ℤ◌, ltb_ℤ}
use uint_os.Sync.Spinlock.{Spinlock, acquire, release, unlocked}

-- `semaphore_t`
pub record Semaphore : Type 0 where
  pub spinlock : Spinlock
  pub count : ℤ
  pub max_count : ℤ

unfoldable pub semaphore_init : Option Semaphore → ℤ → ℤ → Option Semaphore
semaphore_init none initial_count max_count = none
semaphore_init (some s) initial_count max_count =
    some (record s { spinlock = unlocked; count = initial_count; max_count = max_count })

-- spinlock_acquire, the body, spinlock_release.
abbrev pub under_lock {ℓ} :
    {R : Type ℓ} → (Semaphore → Semaphore × R) → Semaphore → Option (Semaphore × R)
under_lock body s = elim (acquire [] s.spinlock) [
  | none ↦ none
  | some l ↦
      let (s', r) = body (record s { spinlock = l }) in
      some (record s' { spinlock = release s'.spinlock }, r)
]

-- Between the lock and the release in semaphore_try_wait, and in one round of semaphore_wait.
unfoldable pub take_permit : Semaphore → Semaphore × Bool
take_permit s =
    if ltb_ℤ (pos 0) s.count then (record s { count = s.count -ℤ pos 1 }, true) else (s, false)

unfoldable pub semaphore_try_wait : Option Semaphore → Option (Option Semaphore × Bool)
unfolding take_permit release
semaphore_try_wait none = some (none, false)
semaphore_try_wait (some s) = elim (under_lock take_permit s) [
  | none ↦ none
  | some (s', r) ↦ some (some s', r)
]

-- The loop of semaphore_wait.
unfoldable pub wait_rounds : List Semaphore → Semaphore → Option Semaphore
unfolding take_permit release
wait_rounds [] s = elim (under_lock take_permit s) [
  | none ↦ none
  | some (s', done) ↦ if done then some s' else none
]
wait_rounds (next ∷ others) s =
    let again = wait_rounds others next in
    elim (under_lock take_permit s) [
      | none ↦ none
      | some (s', done) ↦ if done then some s' else again
    ]

unfoldable pub semaphore_wait : List Semaphore → Option Semaphore → Option (Option Semaphore)
unfolding wait_rounds
semaphore_wait others none = some none
semaphore_wait others (some s) = elim (wait_rounds others s) [
  | none ↦ none
  | some s' ↦ some (some s')
]

-- Between the lock and the release in semaphore_signal.
unfoldable pub give_permit : Semaphore → Semaphore × Unit {0}
give_permit s = (if ltb_ℤ s.count s.max_count then record s { count = s.count +ℤ pos 1 } else s, tt)

unfoldable pub semaphore_signal : Option Semaphore → Option (Option Semaphore)
unfolding give_permit release
semaphore_signal none = some none
semaphore_signal (some s) = elim (under_lock give_permit s) [
  | none ↦ none
  | some (s', _) ↦ some (some s')
]

-- The calls that never yield, and a run of them in the order in which they get the spinlock.
pub data Call : Type 0 where
  try_wait signal : Call

-- The semaphore after the calls, with the permits handed out and the signals sent.
pub record Trace : Type 0 where
  pub semaphore : Option Semaphore
  pub granted : ℕ
  pub signalled : ℕ

unfoldable pub step : Trace → Call → Option Trace
unfolding semaphore_try_wait semaphore_signal
step t try_wait = elim (semaphore_try_wait t.semaphore) [
  | none ↦ none
  | some (s, done) ↦
      some (record t { semaphore = s; granted = if done then t.granted + 1 else t.granted })
]
step t signal = elim (semaphore_signal t.semaphore) [
  | none ↦ none
  | some s ↦ some (record t { semaphore = s; signalled = t.signalled + 1 })
]

unfoldable pub run : Trace → List Call → Option Trace
unfolding step
run t [] = some t
run t (c ∷ cs) = elim (step t c) [ none ↦ none | some t' ↦ run t' cs ]
