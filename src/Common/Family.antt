-- ===== src/Common/Family.antt =====
-- Families `ℕ → A` for fixed arrays of objects: a write at one index, and sums over the first n.
use Prim.Native.Nat.{ℕ, zero, suc, ◌+◌, ◌<◌}
use mathlib.Core.Path.{◌≡◌, refl, sym, ap, ◌∙◌}
use mathlib.Core.Bool.{false≢true}
use mathlib.Core.Logic.{◌≢◌, inl, inr}
use native.Mathlib.Omega.{arith}
use uint_os.Common.Tests.{◌==◌, if◌then◌else◌, Bool-cases, ==_iff}

module _ {ℓ} {A : Type ℓ} where
  abbrev pub update : (ℕ → A) → ℕ → A → ℕ → A
  update f i a j = if i == j then a else f j

  pub update_self : (f : ℕ → A) (i : ℕ) (a : A) → update f i a i ≡ a
  update_self f i a = ground arith

  pub update_ne : (f : ℕ → A) (i j : ℕ) (a : A) → i ≢ j → update f i a j ≡ f j
  update_ne f i j a h = ground arith

-- A property of each member, after a write at i.
pub update_all {ℓ κ} :
    {A : Type ℓ} (P : ℕ → A → Type κ) (f : ℕ → A) (i : ℕ) (a : A)
    → P i a
    → ((j : ℕ) → P j (f j))
    → (j : ℕ) → P j (update f i a j)
update_all P f i a new old j = elim (Bool-cases (i == j)) [
  | inl same ↦ rw (same, ← (==_iff i j).0 same) new
  | inr other ↦ rw other (old j)
]

-- The same, where the others are known only at other indices.
pub update_rest {ℓ κ} :
    {A : Type ℓ} (P : ℕ → A → Type κ) (f : ℕ → A) (i : ℕ) (a : A)
    → P i a
    → ((j : ℕ) → i ≢ j → P j (f j))
    → (j : ℕ) → P j (update f i a j)
update_rest P f i a new old j = elim (Bool-cases (i == j)) [
  | inl same ↦ rw (same, ← (==_iff i j).0 same) new
  | inr other ↦ rw other (old j (λ e. false≢true (sym other ∙ (==_iff i j).1 e)))
]

-- The same for two families written at one index.
pub update_both {ℓ κ ι} :
    {A : Type ℓ} {B : Type κ} (P : ℕ → A → B → Type ι) (f : ℕ → A) (g : ℕ → B) (i : ℕ) (a : A)
    (b : B)
    → P i a b
    → ((j : ℕ) → P j (f j) (g j))
    → (j : ℕ) → P j (update f i a j) (update g i b j)
update_both P f g i a b new old j = elim (Bool-cases (i == j)) [
  | inl same ↦ rw (same, ← (==_iff i j).0 same) new
  | inr other ↦ rw other (old j)
]

-- The weights of the first n members, summed.
module _ {ℓ} {A : Type ℓ} (weight : A → ℕ) where
  pub total : ℕ → (ℕ → A) → ℕ
  total zero members = 0
  total (suc n) members = weight (members 0) + total n (λ k. members (k + 1))

  total-suc : (n : ℕ) (f : ℕ → A) → total (suc n) f ≡ weight (f 0) + total n (λ k. f (k + 1))
  unfolding total
  total-suc n f = refl

  same_total :
      (n : ℕ) (f g : ℕ → A) → ((k : ℕ) → weight (f k) ≡ weight (g k)) → total n f ≡ total n g
  unfolding total
  same_total zero f g same = refl
  same_total (suc n) f g same =
      omega (arith, same 0, same_total n (λ k. f (k + 1)) (λ k. g (k + 1)) (λ k. same (k + 1)))

  -- A write changes the sum by the difference of the weights.
  pub total-update :
      (n : ℕ) (members : ℕ → A) (i : ℕ) (a : A)
      → i < n
      → total n (update members i a) + weight (members i) ≡ total n members + weight a
  total-update zero members i a lt = absurd (omega arith)
  total-update (suc n) members zero a lt = omega (
    arith,
    total-suc n members,
    total-suc n (update members 0 a),
    same_total n (λ k. update members 0 a (k + 1)) (λ k. members (k + 1)) (λ k. ground arith),
    ap weight (update_self members 0 a),
  )
  total-update (suc n) members (suc i) a lt = omega (
    arith,
    total-suc n members,
    total-suc n (update members (suc i) a),
    total-update n (λ k. members (k + 1)) i a (omega arith),
    same_total n (λ k. update members (suc i) a (k + 1)) (update (λ k. members (k + 1)) i a)
        (λ k. ground arith),
    ap weight (update_ne members (suc i) 0 a (λ e. omega arith)),
    ap (λ j. weight (members j)) {x = i + 1} {y = suc i} (omega arith),
  )

  pub total-zero :
      (n : ℕ) (members : ℕ → A) → ((i : ℕ) → weight (members i) ≡ 0) → total n members ≡ 0
  unfolding total
  total-zero zero members none_weighs = refl
  total-zero (suc n) members none_weighs =
      omega (arith, none_weighs 0, total-zero n (λ k. members (k + 1)) (λ k. none_weighs (k + 1)))
