-- ===== src/Sync/Mutex/Solo.antt =====
-- A task that runs alone for a while: its own steps, as a part of a schedule.
use uint_os.Common.{ℕ, zero, suc, ◌≡◌, List, replicate, update_self, ◌∙◌, ap}
use mathlib.Core.Path.{ap₂}
use uint_os.Sync.Mutex.{Mutex, Task, Request, act, System, turn, run}

-- Task t takes the next n turns.
unfoldable pub solo : ℕ → ℕ → Request → Task → Mutex → Task × Mutex
unfolding act
solo zero t r k m = (k, m)
solo (suc n) t r k m = let (k', m') = act t r k.pc k.depth m in solo n t r k' m'

abbrev pub turns : ℕ → ℕ → Request → List (ℕ × Request)
turns n t r = replicate n (t, r)

run-turns_from :
    (n t : ℕ) (r : Request) (s : System) (k : Task) (m : Mutex)
    → s.tasks t ≡ k
    → s.mutex ≡ m
    → let out = solo n t r k m in
      ((run s (turns n t r)).tasks t ≡ out.0) × ((run s (turns n t r)).mutex ≡ out.1)
unfolding run solo turn
run-turns_from zero t r s k m ek em = (ek, em)
run-turns_from (suc n) t r s k m ek em =
    run-turns_from n t r (turn s t r) (act t r k.pc k.depth m).0 (act t r k.pc k.depth m).1
      (update_self s.tasks t (act t r (s.tasks t).pc (s.tasks t).depth s.mutex).0
        ∙ ap₂ (λ k' m'. (act t r k'.pc k'.depth m').0) ek em)
      (ap₂ (λ k' m'. (act t r k'.pc k'.depth m').1) ek em)

-- In a schedule that gives t the next n turns, t and the mutex go through the steps of `solo`.
pub run-turns :
    (n t : ℕ) (r : Request) (s : System) {k k' : Task} {m m' : Mutex}
    → s.tasks t ≡ k
    → s.mutex ≡ m
    → solo n t r k m ≡ (k', m')
    → ((run s (turns n t r)).tasks t ≡ k') × ((run s (turns n t r)).mutex ≡ m')
run-turns n t r s {k} {k'} {m} {m'} ek em e = (both.0 ∙ ap (λ o. o.0) e, both.1 ∙ ap (λ o. o.1) e)
  where
    both :
        let out = solo n t r k m in
        ((run s (turns n t r)).tasks t ≡ out.0) × ((run s (turns n t r)).mutex ≡ out.1)
    both = run-turns_from n t r s k m ek em
