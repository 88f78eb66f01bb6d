-- ===== src/Sync/Mutex/Invariant.antt =====
-- What each task knows about the mutex where it stands, and that every turn keeps it.
use uint_os.Common.{ℕ, ◌<◌, ◌≡◌, ◌≢◌, ◌⊎◌, Bool, true, false, arith}
use uint_os.Common.Int.{pos}
use uint_os.Sync.Spinlock.{release}
use uint_os.Sync.Mutex.{
  Mutex, nobody, Pc, idle, lock_start, lock_again, lock_spin, lock_test, lock_back_off, lock_own,
  lock_count_one, lock_leave, try_start, try_again, try_spin, try_test, try_own, try_count_one,
  try_leave, unlock_start, unlock_spin, unlock_drop, unlock_test, unlock_clear, unlock_leave,
  advance,
}

-- Task t owns the mutex, with d grants counted.
abbrev pub Held : ℕ → ℕ → Mutex → Type 0
Held t d m = (m.owner_task ≡ pos t) × (m.lock_count ≡ pos d) × (0 < d)

abbrev pub Free : ℕ → ℕ → Mutex → Type 0
Free t d m = (m.owner_task ≢ pos t) × (d ≡ 0)

abbrev pub Settled : ℕ → ℕ → Mutex → Type 0
Settled t d m = Held t d m ⊎ Free t d m

-- What task t knows before each access.
abbrev pub Fact : ℕ → Pc → ℕ → Mutex → Type 0
Fact t idle d m = Settled t d m
Fact t lock_start d m = Settled t d m
Fact t lock_again d m = Held t d m
Fact t lock_spin d m = Free t d m
Fact t lock_test d m = Free t d m
Fact t lock_back_off d m = Free t d m
Fact t lock_own d m = (m.owner_task ≡ nobody) × (d ≡ 0)
Fact t lock_count_one d m = (m.owner_task ≡ pos t) × (d ≡ 0)
Fact t lock_leave d m = (m.owner_task ≡ pos t) × (m.lock_count ≡ pos 1) × (d ≡ 0)
Fact t try_start d m = Settled t d m
Fact t try_again d m = Held t d m
Fact t try_spin d m = Free t d m
Fact t try_test d m = Free t d m
Fact t try_own d m = (m.owner_task ≡ nobody) × (d ≡ 0)
Fact t try_count_one d m = (m.owner_task ≡ pos t) × (d ≡ 0)
Fact t (try_leave true) d m = (m.owner_task ≡ pos t) × (m.lock_count ≡ pos 1) × (d ≡ 0)
Fact t (try_leave false) d m = Free t d m
Fact t unlock_start d m = Settled t d m
Fact t unlock_spin d m = Held t d m
Fact t unlock_drop d m = Held t d m
Fact t unlock_test d m = (m.owner_task ≡ pos t) × (m.lock_count ≡ pos d)
Fact t unlock_clear d m = (m.owner_task ≡ pos t) × (d ≡ 0)
Fact t unlock_leave d m = Settled t d m

-- The task holds the spinlock.
abbrev pub in_spin : Pc → Bool
in_spin lock_test = true
in_spin lock_back_off = true
in_spin lock_own = true
in_spin lock_count_one = true
in_spin lock_leave = true
in_spin try_test = true
in_spin try_own = true
in_spin try_count_one = true
in_spin (try_leave won) = true
in_spin unlock_drop = true
in_spin unlock_test = true
in_spin unlock_clear = true
in_spin unlock_leave = true
in_spin _ = false

-- An access leaves the mover with its facts.
pub advance-Fact :
    (t : ℕ) (p : Pc) (d : ℕ) (m : Mutex)
    → Fact t p d m
    → let (k, m') = advance t p d m in Fact t k.pc k.depth m'
unfolding advance release
advance-Fact t idle d m f = f
advance-Fact t (try_leave true) d m f = ground arith
advance-Fact t (try_leave false) d m f = ground arith
advance-Fact t _ d m f = ground arith

-- What an access of task t leaves to a task u: the owner and the count are as they were, or the
-- mutex was and is not u's; outside the spinlock the owner is as it was.
pub record Frame (t : ℕ) (p : Pc) (u : ℕ) (m m' : Mutex) : Type 0 where
  pub others :
      ((m'.owner_task ≡ m.owner_task) × (m'.lock_count ≡ m.lock_count))
      ⊎ ((m.owner_task ≢ pos u) × (m'.owner_task ≢ pos u))
  pub outside : in_spin p ≡ false → m'.owner_task ≡ m.owner_task

pub advance-Frame :
    (t : ℕ) (p : Pc) (d : ℕ) (m : Mutex) (u : ℕ)
    → t ≢ u
    → Fact t p d m
    → Frame t p u m (advance t p d m).1
unfolding advance release
advance-Frame t idle d m u ne f = ground arith
advance-Frame t (try_leave won) d m u ne f = ground arith
advance-Frame t _ d m u ne f = ground arith

pub Frame-Fact :
    (t : ℕ) (p : Pc) (u : ℕ) (q : Pc) (d : ℕ) (m m' : Mutex)
    → Frame t p u m m'
    → (in_spin q ≡ true → in_spin p ≡ false)
    → Fact u q d m
    → Fact u q d m'
Frame-Fact t p u idle d m m' fr apart f = ground arith
Frame-Fact t p u (try_leave true) d m m' fr apart f = ground arith
Frame-Fact t p u (try_leave false) d m m' fr apart f = ground arith
Frame-Fact t p u _ d m m' fr apart f = ground arith

-- A task is inside the spinlock after an access only if it was, or found the lock free; then the
-- lock is taken. The lock goes free only by a task inside.
pub advance_spin :
    (t : ℕ) (p : Pc) (d : ℕ) (m : Mutex)
    → (in_spin p ≡ true → m.spinlock.lock ≡ 1)
    → let (k, m') = advance t p d m in
      (in_spin k.pc ≡ true → (m'.spinlock.lock ≡ 1) × ((in_spin p ≡ true) ⊎ (m.spinlock.lock ≡ 0)))
      × (in_spin p ≡ false → m.spinlock.lock ≡ 1 → m'.spinlock.lock ≡ 1)
unfolding advance release
advance_spin t idle d m h = ground arith
advance_spin t (try_leave won) d m h = ground arith
advance_spin t _ d m h = ground arith
