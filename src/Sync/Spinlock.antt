-- ===== src/Sync/Spinlock.antt =====
-- The spinlock of kernel/sync.c. `switch_task` hands the processor to other tasks: what the lock
-- reads after each of its calls is a list, the environment's part. `none` says that the caller
-- still spins when that list is used up.
use mathlib.Core.Option
use uint_os.Common.{ℕ, Bool, false, Option, none, some, List, [], ◌∷◌, ◌==◌, if◌then◌else◌}

-- `spinlock_t`
pub record Spinlock : Type 0 where
  pub lock : ℕ

abbrev pub unlocked : Spinlock
unlocked = record { lock = 0 }

abbrev pub locked : Spinlock
locked = record { lock = 1 }

-- __sync_lock_test_and_set(&lock->lock, 1): the old value, and the lock taken.
abbrev pub test_and_set : Spinlock → ℕ × Spinlock
test_and_set l = (l.lock, record l { lock = 1 })

-- A function of a pointer: NULL gives the early return.
abbrev pub null_guard {ℓ κ} : {S : Type ℓ} {R : Type κ} → R → (S → S × R) → Option S → Option S × R
null_guard early body none = (none, early)
null_guard early body (some s) = let (s', r) = body s in (some s', r)

unfoldable pub spinlock_init : Option Spinlock → Option Spinlock
spinlock_init none = none
spinlock_init (some l) = some (record l { lock = 0 })

-- The loop of `spinlock_acquire` on a lock that is not NULL.
unfoldable pub acquire : List Spinlock → Spinlock → Option Spinlock
acquire [] l = let (old, l') = test_and_set l in if old == 0 then some l' else none
acquire (w ∷ ws) l =
    let (old, l') = test_and_set l in let rest = acquire ws w in if old == 0 then some l' else rest

unfoldable pub spinlock_acquire : List Spinlock → Option Spinlock → Option (Option Spinlock)
spinlock_acquire ws none = some none
spinlock_acquire ws (some l) = Option.map some (acquire ws l)

unfoldable pub try_acquire : Spinlock → Spinlock × Bool
try_acquire l = let (old, l') = test_and_set l in (l', old == 0)

unfoldable pub spinlock_try_acquire : Option Spinlock → Option Spinlock × Bool
unfolding try_acquire
spinlock_try_acquire = null_guard false try_acquire

unfoldable pub release : Spinlock → Spinlock
release l = record l { lock = 0 }

unfoldable pub spinlock_release : Option Spinlock → Option Spinlock
unfolding release
spinlock_release none = none
spinlock_release (some l) = some (release l)

unfoldable pub spinlock_is_held : Option Spinlock → Bool
spinlock_is_held none = false
spinlock_is_held (some l) = l.lock == 1
