-- ===== src/Sync/Mutex/Safety.antt =====
-- What holds of a mutex of kernel/sync.c after every schedule.
use uint_os.Common.{
  ℕ, ◌<◌, ◌≡◌, ◌↔◌, ◌≢◌, ◌⊎◌, inl, inr, refl, true, false, arith, update, update_rest, List, [],
  ◌∷◌, Bool-cases,
}
use mathlib.Core.Path.{subst}
use uint_os.Common.Int.{pos}
use uint_os.Sync.Mutex.{
  Mutex, Pc, idle, try_leave, Task, Request, lock, try_lock, unlock, act, System, turn, run,
  initial,
}
use uint_os.Sync.Mutex.Invariant.{
  Settled, Fact, in_spin, Frame, advance-Fact, advance-Frame, Frame-Fact, advance_spin,
}

act-Fact :
    (t : ℕ) (r : Request) (p : Pc) (d : ℕ) (m : Mutex)
    → Fact t p d m
    → let (k, m') = act t r p d m in Fact t k.pc k.depth m'
unfolding act
act-Fact t lock idle d m f = f
act-Fact t try_lock idle d m f = f
act-Fact t unlock idle d m f = f
act-Fact t r p d m f = advance-Fact t p d m f

act-Frame :
    (t : ℕ) (r : Request) (p : Pc) (d : ℕ) (m : Mutex) (u : ℕ)
    → t ≢ u
    → Fact t p d m
    → Frame t p u m (act t r p d m).1
unfolding act
act-Frame t r idle d m u ne f = ground arith
act-Frame t r p d m u ne f = advance-Frame t p d m u ne f

act_spin :
    (t : ℕ) (r : Request) (p : Pc) (d : ℕ) (m : Mutex)
    → (in_spin p ≡ true → m.spinlock.lock ≡ 1)
    → let (k, m') = act t r p d m in
      (in_spin k.pc ≡ true → (m'.spinlock.lock ≡ 1) × ((in_spin p ≡ true) ⊎ (m.spinlock.lock ≡ 0)))
      × (in_spin p ≡ false → m.spinlock.lock ≡ 1 → m'.spinlock.lock ≡ 1)
unfolding act
act_spin t r idle d m h = ground arith
act_spin t r p d m h = advance_spin t p d m h

-- Every task knows what it should, and at most one is inside the spinlock, which is then taken.
pub record Inv (s : System) : Type 0 where
  pub facts : (t : ℕ) → Fact t (s.tasks t).pc (s.tasks t).depth s.mutex
  pub locked : (t : ℕ) → in_spin (s.tasks t).pc ≡ true → s.mutex.spinlock.lock ≡ 1
  pub unique : (t u : ℕ) → in_spin (s.tasks t).pc ≡ true → in_spin (s.tasks u).pc ≡ true → t ≡ u

module _ {s : System} (inv : Inv s) (t : ℕ) (r : Request) where
  open inv use {facts, locked, unique}

  abbrev before : Task
  before = s.tasks t

  abbrev after : Task
  after = (act t r before.pc before.depth s.mutex).0

  abbrev mutex' : Mutex
  mutex' = (act t r before.pc before.depth s.mutex).1

  -- No other task is inside while t is.
  alone : (u : ℕ) → t ≢ u → in_spin (s.tasks u).pc ≡ true → in_spin before.pc ≡ false
  alone u ne h = elim (Bool-cases (in_spin before.pc)) [
    | inl inside ↦ absurd (ne (unique t u inside h))
    | inr outside ↦ outside
  ]

  moved : (u : ℕ) → t ≢ u → Fact u (s.tasks u).pc (s.tasks u).depth mutex'
  moved u ne =
      Frame-Fact t before.pc u (s.tasks u).pc (s.tasks u).depth s.mutex mutex'
        (act-Frame t r before.pc before.depth s.mutex u ne (facts t)) (alone u ne) (facts u)

  still_locked : (u : ℕ) → t ≢ u → in_spin (s.tasks u).pc ≡ true → mutex'.spinlock.lock ≡ 1
  still_locked u ne h =
      (act_spin t r before.pc before.depth s.mutex (locked t)).1 (alone u ne h) (locked u h)

  -- If t is inside afterwards, nobody else is.
  no_other : in_spin after.pc ≡ true → (u : ℕ) → t ≢ u → in_spin (s.tasks u).pc ≡ true → ⊥
  no_other h u ne hu = ground (
    arith,
    (act_spin t r before.pc before.depth s.mutex (locked t)).0 h,
    alone u ne hu,
    locked u hu,
  )

  turn-Inv : Inv (turn s t r)
  unfolding turn
  turn-Inv = record {
    facts =
        update_rest (λ u k. Fact u k.pc k.depth mutex') s.tasks t after
          (act-Fact t r before.pc before.depth s.mutex (facts t)) moved;
    locked =
        update_rest (λ u k. in_spin k.pc ≡ true → mutex'.spinlock.lock ≡ 1) s.tasks t after
          (λ h. ((act_spin t r before.pc before.depth s.mutex (locked t)).0 h).0) still_locked;
    unique =
        update_rest
          (λ u k.
            (w : ℕ) → in_spin k.pc ≡ true → in_spin (update s.tasks t after w).pc ≡ true → u ≡ w)
          s.tasks t after
          (λ w h.
            update_rest (λ w k. in_spin k.pc ≡ true → t ≡ w) s.tasks t after (λ _. refl)
              (λ w' ne hw. absurd (no_other h w' ne hw)) w)
          (λ u ne w hu.
            update_rest (λ w k. in_spin k.pc ≡ true → u ≡ w) s.tasks t after
              (λ h. absurd (no_other h u ne hu)) (λ w' ne' hw. unique u w' hu hw) w);
  }

initial-Inv : Inv initial
initial-Inv = record { facts = λ t. inr (cc, refl); locked = λ t h. cc; unique = λ t u h k. cc }

-- Every schedule keeps the invariant.
pub run-Inv : (sched : List (ℕ × Request)) {s : System} → Inv s → Inv (run s sched)
unfolding run
run-Inv [] inv = inv
run-Inv ((t, r) ∷ rest) inv = run-Inv rest (turn-Inv inv t r)

owner_of_depth : (t : ℕ) (p : Pc) (d : ℕ) (m : Mutex) → Fact t p d m → 0 < d → m.owner_task ≡ pos t
owner_of_depth t idle d m f h = ground arith
owner_of_depth t (try_leave true) d m f h = ground arith
owner_of_depth t (try_leave false) d m f h = ground arith
owner_of_depth t _ d m f h = ground arith

-- Mutual exclusion: after any schedule from the initial state, two tasks that both hold grants of
-- the mutex are one task.
pub mutual_exclusion :
    (sched : List (ℕ × Request)) (t u : ℕ)
    → 0 < ((run initial sched).tasks t).depth
    → 0 < ((run initial sched).tasks u).depth
    → t ≡ u
mutual_exclusion sched t u ht hu = ground (arith, owner t ht, owner u hu)
  where
    s : System
    s = run initial sched

    owner : (v : ℕ) → 0 < (s.tasks v).depth → s.mutex.owner_task ≡ pos v
    owner v =
        owner_of_depth v (s.tasks v).pc (s.tasks v).depth s.mutex
          ((run-Inv sched initial-Inv).facts v)

counted : (t d : ℕ) (m : Mutex) → Settled t d m → (d ≡ 0) ⊎ (m.lock_count ≡ pos d)
counted t d m (inl held) = inr held.1
counted t d m (inr free) = inl free.1

settled_lem :
    (t d : ℕ) (m : Mutex)
    → Fact t idle d m
    → ((m.owner_task ≡ pos t) ↔ (0 < d)) × ((d ≡ 0) ⊎ (m.lock_count ≡ pos d))
settled_lem t d m f = (((λ e. ground arith), (λ h. ground arith)), counted t d m f)

-- The fields tell the truth about a task outside every call: after any schedule, owner_task names
-- it exactly when it holds grants, and lock_count is their number unless it holds none.
owner_lem :
    (sched : List (ℕ × Request)) (t : ℕ)
    → ((run initial sched).tasks t).pc ≡ idle
    → let s = run initial sched in
      ((s.mutex.owner_task ≡ pos t) ↔ (0 < (s.tasks t).depth))
      × (((s.tasks t).depth ≡ 0) ⊎ (s.mutex.lock_count ≡ pos (s.tasks t).depth))
owner_lem sched t e =
    settled_lem t (s.tasks t).depth s.mutex
      (subst (λ p. Fact t p (s.tasks t).depth s.mutex) e ((run-Inv sched initial-Inv).facts t))
  where
    s : System
    s = run initial sched
