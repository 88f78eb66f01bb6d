-- ===== src/Sync/Mutex.antt =====
-- The mutex of kernel/sync.c under any interleaving of tasks: mutex_lock, mutex_try_lock and
-- mutex_unlock, one access to shared memory at a time. A call with a NULL mutex returns before its
-- first access and takes no part. Task ids are those of get_current_task_id, from 0 on. lock_count,
-- an int, has no bound here.
mod Invariant
pub mod Solo
pub mod Safety
pub mod Progress
use uint_os.Common.{
  ℕ, ◌+◌, ◌-◌, Bool, true, false, Option, none, some, List, [], ◌∷◌, ◌==◌, if◌then◌else◌, update,
}
use uint_os.Common.Int.{ℤ, pos, negsuc, ◌+ℤ◌, ◌-ℤ◌, ◌==ℤ◌}
use uint_os.Sync.Spinlock.{Spinlock, test_and_set, release, unlocked}

-- `mutex_t`
pub record Mutex : Type 0 where
  pub spinlock : Spinlock
  pub owner_task : ℤ
  pub lock_count : ℤ

-- The owner of a mutex that nobody owns.
abbrev pub nobody : ℤ
nobody = negsuc 0

unfoldable pub mutex_init : Option Mutex → Option Mutex
mutex_init none = none
mutex_init (some m) =
    some (record m { spinlock = unlocked; owner_task = nobody; lock_count = pos 0 })

-- Where a task stands: outside, or before the access named.
pub data Pc : Type 0 where
  idle : Pc
  -- mutex_lock
  lock_start lock_again lock_spin lock_test lock_back_off lock_own lock_count_one lock_leave : Pc
  -- mutex_try_lock; the result goes with the last release
  try_start try_again try_spin try_test try_own try_count_one : Pc
  try_leave : Bool → Pc
  -- mutex_unlock
  unlock_start unlock_spin unlock_drop unlock_test unlock_clear unlock_leave : Pc

-- `depth` is the number of locks that the task has been granted and has not given back.
pub record Task : Type 0 where
  pub pc : Pc
  pub depth : ℕ

abbrev pub at : Pc → ℕ → Mutex → Task × Mutex
at p d m = (record { pc = p; depth = d }, m)

abbrev take_spinlock : Mutex → Mutex
take_spinlock m = record m { spinlock = (test_and_set m.spinlock).1 }

abbrev drop_spinlock : Mutex → Mutex
drop_spinlock m = record m { spinlock = release m.spinlock }

-- One access of task `t`, at the place where it stands.
unfoldable pub advance : ℕ → Pc → ℕ → Mutex → Task × Mutex
unfolding release
advance t idle d m = at idle d m
advance t lock_start d m = at (if m.owner_task ==ℤ pos t then lock_again else lock_spin) d m
advance t lock_again d m = at idle (d + 1) (record m { lock_count = m.lock_count +ℤ pos 1 })
advance t lock_spin d m =
    at (if (test_and_set m.spinlock).0 == 0 then lock_test else lock_spin) d (take_spinlock m)
advance t lock_test d m = at (if m.owner_task ==ℤ nobody then lock_own else lock_back_off) d m
advance t lock_back_off d m = at lock_spin d (drop_spinlock m)
advance t lock_own d m = at lock_count_one d (record m { owner_task = pos t })
advance t lock_count_one d m = at lock_leave d (record m { lock_count = pos 1 })
advance t lock_leave d m = at idle (d + 1) (drop_spinlock m)
advance t try_start d m = at (if m.owner_task ==ℤ pos t then try_again else try_spin) d m
advance t try_again d m = at idle (d + 1) (record m { lock_count = m.lock_count +ℤ pos 1 })
advance t try_spin d m =
    at (if (test_and_set m.spinlock).0 == 0 then try_test else idle) d (take_spinlock m)
advance t try_test d m = at (if m.owner_task ==ℤ nobody then try_own else try_leave false) d m
advance t try_own d m = at try_count_one d (record m { owner_task = pos t })
advance t try_count_one d m = at (try_leave true) d (record m { lock_count = pos 1 })
advance t (try_leave won) d m = at idle (if won then d + 1 else d) (drop_spinlock m)
advance t unlock_start d m = at (if m.owner_task ==ℤ pos t then unlock_spin else idle) d m
advance t unlock_spin d m =
    at (if (test_and_set m.spinlock).0 == 0 then unlock_drop else unlock_spin) d (take_spinlock m)
advance t unlock_drop d m = at unlock_test (d - 1) (record m { lock_count = m.lock_count -ℤ pos 1 })
advance t unlock_test d m = at (if m.lock_count ==ℤ pos 0 then unlock_clear else unlock_leave) d m
advance t unlock_clear d m = at unlock_leave d (record m { owner_task = nobody })
advance t unlock_leave d m = at idle d (drop_spinlock m)

-- What a task outside may call.
pub data Request : Type 0 where
  lock try_lock unlock : Request

abbrev pub entry : Request → Pc
entry lock = lock_start
entry try_lock = try_start
entry unlock = unlock_start

-- A task that is outside makes its call; one that is inside goes on.
unfoldable pub act : ℕ → Request → Pc → ℕ → Mutex → Task × Mutex
unfolding advance
act t r idle d m = at (entry r) d m
act t r p d m = advance t p d m

-- All tasks and the mutex that they share.
pub record System : Type 0 where
  pub tasks : ℕ → Task
  pub mutex : Mutex

unfoldable pub turn : System → ℕ → Request → System
unfolding act
turn s t r =
    let (k, m) = act t r (s.tasks t).pc (s.tasks t).depth s.mutex in
    record { tasks = update s.tasks t k; mutex = m }

-- A schedule: which task runs next, and what it calls if it is outside.
unfoldable pub run : System → List (ℕ × Request) → System
unfolding turn
run s [] = s
run s ((t, r) ∷ rest) = run (turn s t r) rest

abbrev pub initial : System
initial = record {
  tasks = λ _. record { pc = idle; depth = 0 };
  mutex = record { spinlock = unlocked; owner_task = nobody; lock_count = pos 0 };
}
