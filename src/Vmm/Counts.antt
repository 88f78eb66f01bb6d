-- ===== src/Vmm/Counts.antt =====
-- How many frames of a list are free, and that a search round the list finds one if there is one.
use uint_os.Common.{
  ℕ, zero, suc, ◌+◌, ◌-◌, ◌%◌, ◌≤◌, ◌<◌, ◌≡◌, refl, ap, ◌∙◌, true, false, none, some, List, [], ◌∷◌,
  arith, length, get_or, set, length-set, get_or-set_ne, replicate, if◌then◌else◌, Bool-cases, inl,
  inr, dec_lt,
}
use mathlib.Core.Path.{subst}
use native.Mathlib.Nat.{mod-eq_of_lt, mod-eq-sub-mod, mod-add-mod, add-zero}
use uint_os.Vmm.Frames.{PageFrame, free_frame, kernel_frame, is_free, find_frame, reserve}

abbrev pub weight : PageFrame → ℕ
weight f = if is_free f then 1 else 0

abbrev pub count_free : List PageFrame → ℕ
count_free [] = 0
count_free (f ∷ fs) = weight f + count_free fs

pub count_free-set :
    (fs : List PageFrame) (i : ℕ) (g : PageFrame)
    → i < length fs
    → count_free (set fs i g) + weight (get_or fs i free_frame) ≡ count_free fs + weight g
count_free-set [] i g h = absurd (omega arith)
count_free-set (f ∷ fs) zero g h = omega arith
count_free-set (f ∷ fs) (suc i) g h = omega (arith, count_free-set fs i g (omega arith))

pub count_free-le : (fs : List PageFrame) → count_free fs ≤ length fs
count_free-le [] = omega arith
count_free-le (f ∷ fs) = ground (arith, count_free-le fs)

pub count_free-zero :
    (fs : List PageFrame)
    → ((j : ℕ) → j < length fs → weight (get_or fs j free_frame) ≡ 0)
    → count_free fs ≡ 0
count_free-zero [] h = refl
count_free-zero (f ∷ fs) h =
    omega (arith, h 0 (omega arith), count_free-zero fs (λ j lt. h (suc j) (omega arith)))

pub count_free-replicate : (n : ℕ) → count_free (replicate n free_frame) ≡ n
count_free-replicate zero = refl
count_free-replicate (suc n) = omega (arith, count_free-replicate n)

module _ (num : ℕ) (frames : List PageFrame) where
  -- What the search finds is a free frame of the list.
  pub find_frame-free :
      (n i j : ℕ)
      → i < num
      → find_frame n num frames i ≡ some j
      → (j < num) × (is_free (get_or frames j free_frame) ≡ true)
  unfolding find_frame
  find_frame-free zero i j h e = absurd (none≢some e)
    where
      none≢some : none ≡ some j → ⊥
      none≢some e = cc
  find_frame-free (suc n) i j h e = elim (Bool-cases (is_free (get_or frames i free_frame))) [
    | inl here ↦ ground (arith, here, e)
    | inr not_here ↦ find_frame-free n ((i + 1) % num) j (omega arith) (ground arith)
  ]

  -- Where it finds none, the next n frames from i on are taken.
  find_frame-none :
      (n i : ℕ)
      → i < num
      → find_frame n num frames i ≡ none
      → (k : ℕ) → k < n
      → is_free (get_or frames ((i + k) % num) free_frame) ≡ false
  unfolding find_frame
  find_frame-none zero i h e k lt = absurd (omega arith)
  find_frame-none (suc n) i h e zero lt = rw (add-zero, mod-eq_of_lt h) (ground arith)
  find_frame-none (suc n) i h e (suc k) lt =
      subst (λ t. is_free (get_or frames t free_frame) ≡ false) shift
        (find_frame-none n ((i + 1) % num) (omega arith) (ground arith) k (omega arith))
    where
      shift : ((i + 1) % num + k) % num ≡ (i + suc k) % num
      shift = rw mod-add-mod (ap (λ t. t % num) (omega arith))

  -- A full round that finds none: no frame is free.
  pub find_frame-all :
      (i : ℕ)
      → i < num
      → length frames ≡ num
      → find_frame num num frames i ≡ none
      → count_free frames ≡ 0
  find_frame-all i h room e = count_free-zero frames (λ j lt. taken j (omega arith))
    where
      taken : (j : ℕ) → j < num → weight (get_or frames j free_frame) ≡ 0
      taken j lt = elim (dec_lt j i) [
        | yes before ↦ ground (
          arith,
          subst (λ t. is_free (get_or frames t free_frame) ≡ false) (wraps before)
              (find_frame-none num i h e (j + num - i) (omega arith)),
        )
        | no after ↦ ground (
          arith,
          subst (λ t. is_free (get_or frames t free_frame) ≡ false) (plain after)
              (find_frame-none num i h e (j - i) (omega arith)),
        )
      ]
        where
          wraps : j < i → (i + (j + num - i)) % num ≡ j
          wraps before =
              ap (λ t. t % num) {x = i + (j + num - i)} {y = j + num} (omega arith)
              ∙ (mod-eq-sub-mod {n = j + num} {m = num} (omega arith)
                  ∙ (ap (λ t. t % num) (omega arith) ∙ mod-eq_of_lt lt))

          plain : ¬ (j < i) → (i + (j - i)) % num ≡ j
          plain after = ap (λ t. t % num) (omega arith) ∙ mod-eq_of_lt lt

-- The loop that reserves frames takes them from the free ones, and leaves the length.
pub reserve_lem :
    (n i : ℕ) (fs : List PageFrame)
    → i + n ≤ length fs
    → ((j : ℕ) → i ≤ j → j < length fs → weight (get_or fs j free_frame) ≡ 1)
    → (length (reserve n i fs) ≡ length fs) × (count_free (reserve n i fs) + n ≡ count_free fs)
unfolding reserve
reserve_lem zero i fs h all = (refl, omega arith)
reserve_lem (suc n) i fs h all =
    let rest = reserve_lem n (i + 1) (set fs i kernel_frame) (omega (arith, long)) (λ j le lt.
      ap (λ f. weight f) (get_or-set_ne fs i j kernel_frame free_frame (omega arith))
      ∙ all j (omega arith) (omega (arith, long))) in
    (rest.0 ∙ long, omega (arith, rest.1, all i (omega arith) (omega arith), gone))
  where
    long : length (set fs i kernel_frame) ≡ length fs
    long = length-set fs i kernel_frame

    gone : count_free (set fs i kernel_frame) + weight (get_or fs i free_frame) ≡ count_free fs + 0
    gone = count_free-set fs i kernel_frame (omega arith)
