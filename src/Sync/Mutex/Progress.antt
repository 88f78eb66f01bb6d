-- ===== src/Sync/Mutex/Progress.antt =====
-- What a call on a mutex of kernel/sync.c comes to when its task runs undisturbed.
use uint_os.Common.{
  ℕ, zero, suc, ◌≤◌, ◌+◌, ◌≡◌, ◌≢◌, ◌⊎◌, inl, inr, refl, Option, none, some, arith,
}
use uint_os.Common.Int.{ℤ, pos}
use uint_os.Sync.Spinlock.{release, unlocked}
use uint_os.Sync.Mutex.{Mutex, nobody, idle, Task, Request, lock, try_lock, unlock, System, run}
use uint_os.Sync.Mutex.Solo.{solo, turns, run-turns}

abbrev pub outside : ℕ → Task
outside d = record { pc = idle; depth = d }

abbrev pub owned_by : ℕ → ℕ → Mutex
owned_by t d = record { spinlock = unlocked; owner_task = pos t; lock_count = pos d }

abbrev pub nobodys : ℤ → Mutex
nobodys c = record { spinlock = unlocked; owner_task = nobody; lock_count = c }

lock_free : (t : ℕ) (c : ℤ) → solo 7 t lock (outside 0) (nobodys c) ≡ (outside 1, owned_by t 1)
unfolding solo release
lock_free t c = ground arith

lock_owned :
    (t d : ℕ) → solo 3 t lock (outside d) (owned_by t d) ≡ (outside (d + 1), owned_by t (d + 1))
unfolding solo release
lock_owned t d = ground arith

unlock_last : (t : ℕ) → solo 7 t unlock (outside 1) (owned_by t 1) ≡ (outside 0, nobodys (pos 0))
unfolding solo release
unlock_last t = ground arith

unlock_nested :
    (t d : ℕ)
    → solo 6 t unlock (outside (suc d + 1)) (owned_by t (suc d + 1))
      ≡ (outside (d + 1), owned_by t (d + 1))
unfolding solo release
unlock_nested t d = ground arith

try_busy :
    (t u d : ℕ) → t ≢ u → solo 5 t try_lock (outside 0) (owned_by u d) ≡ (outside 0, owned_by u d)
unfolding solo release
try_busy t u d ne = ground arith

try_free : (t : ℕ) (c : ℤ) → solo 7 t try_lock (outside 0) (nobodys c) ≡ (outside 1, owned_by t 1)
unfolding solo release
try_free t c = ground arith

unlock_foreign :
    (t u d : ℕ) → t ≢ u → solo 2 t unlock (outside 0) (owned_by u d) ≡ (outside 0, owned_by u d)
unfolding solo release
unlock_foreign t u d ne = ground arith

try_owned :
    (t d : ℕ) → solo 3 t try_lock (outside d) (owned_by t d) ≡ (outside (d + 1), owned_by t (d + 1))
unfolding solo release
try_owned t d = ground arith

unlock_unowned : (t : ℕ) (c : ℤ) → solo 2 t unlock (outside 0) (nobodys c) ≡ (outside 0, nobodys c)
unfolding solo release
unlock_unowned t c = ground arith

-- How a mutex stands to a task that is outside: free with an old lock_count, the task's own with
-- one grant and d more, or another task's.
pub data View : Type 0 where
  free : ℤ → View
  mine : ℕ → View
  others : ℕ → ℕ → View

abbrev pub depth_of : View → ℕ
depth_of (free c) = 0
depth_of (mine d) = d + 1
depth_of (others u d) = 0

abbrev pub mutex_of : ℕ → View → Mutex
mutex_of t (free c) = nobodys c
mutex_of t (mine d) = owned_by t (d + 1)
mutex_of t (others u d) = owned_by u d

-- What a call does in one step; `none`: it waits.
unfoldable pub atomic : Request → View → Option View
atomic lock (free c) = some (mine 0)
atomic lock (mine d) = some (mine (d + 1))
atomic lock (others u d) = none
atomic try_lock (free c) = some (mine 0)
atomic try_lock (mine d) = some (mine (d + 1))
atomic try_lock (others u d) = some (others u d)
atomic unlock (free c) = some (free c)
atomic unlock (mine zero) = some (free (pos 0))
atomic unlock (mine (suc d)) = some (mine d)
atomic unlock (others u d) = some (others u d)

abbrev pub Others : ℕ → View → Type 0
Others t (free c) = Unit
Others t (mine d) = Unit
Others t (others u d) = t ≢ u

-- After at most seven turns of the task alone it is outside again, and the view is that one.
abbrev pub Ends : System → ℕ → Request → View → Type 0
Ends s t r v =
    (n : ℕ) × (n ≤ 7)
    × ((run s (turns n t r)).tasks t ≡ outside (depth_of v))
    × ((run s (turns n t r)).mutex ≡ mutex_of t v)

ends :
    (n : ℕ) {t : ℕ} (r : Request) (s : System) {k : Task} {m : Mutex} (v : View)
    → n ≤ 7
    → s.tasks t ≡ k
    → s.mutex ≡ m
    → solo n t r k m ≡ (outside (depth_of v), mutex_of t v)
    → Ends s t r v
ends n {t} r s v le ek em e = let after = run-turns n t r s ek em e in (n, le, after.0, after.1)

-- A call on a mutex whose spinlock is free, made by a task that then runs undisturbed, ends within
-- seven turns with the effect of one atomic step; only mutex_lock on another task's mutex waits.
pub undisturbed :
    (s : System) (t : ℕ) (r : Request) (v : View)
    → Others t v
    → s.tasks t ≡ outside (depth_of v)
    → s.mutex ≡ mutex_of t v
    → ((r ≡ lock) × (atomic r v ≡ none)) ⊎ ((v' : View) × (atomic r v ≡ some v') × Ends s t r v')
unfolding atomic
undisturbed s t lock (free c) h ek em =
    inr (mine 0, refl, ends 7 lock s (mine 0) (omega arith) ek em (lock_free t c))
undisturbed s t lock (mine d) h ek em =
    inr
      (mine (d + 1), refl, ends 3 lock s (mine (d + 1)) (omega arith) ek em (lock_owned t (d + 1)))
undisturbed s t lock (others u d) h ek em = inl (refl, refl)
undisturbed s t try_lock (free c) h ek em =
    inr (mine 0, refl, ends 7 try_lock s (mine 0) (omega arith) ek em (try_free t c))
undisturbed s t try_lock (mine d) h ek em =
    inr (
      mine (d + 1),
      refl,
      ends 3 try_lock s (mine (d + 1)) (omega arith) ek em (try_owned t (d + 1)),
    )
undisturbed s t try_lock (others u d) h ek em =
    inr (others u d, refl, ends 5 try_lock s (others u d) (omega arith) ek em (try_busy t u d h))
undisturbed s t unlock (free c) h ek em =
    inr (free c, refl, ends 2 unlock s (free c) (omega arith) ek em (unlock_unowned t c))
undisturbed s t unlock (mine zero) h ek em =
    inr (free (pos 0), refl, ends 7 unlock s (free (pos 0)) (omega arith) ek em (unlock_last t))
undisturbed s t unlock (mine (suc d)) h ek em =
    inr (mine d, refl, ends 6 unlock s (mine d) (omega arith) ek em (unlock_nested t d))
undisturbed s t unlock (others u d) h ek em =
    inr
      (others u d, refl, ends 2 unlock s (others u d) (omega arith) ek em (unlock_foreign t u d h))
