-- ===== src/Common/Ring.antt =====
-- Circular buffers: the n cells that start at index h and go round at `cap`.
use Prim.Native.Nat.{ℕ, zero, suc, ◌+◌, ◌-◌, ◌%◌, ◌≤◌, ◌<◌}
use mathlib.Core.Path.{◌≡◌, refl, ap, ap₂, sym, ◌∙◌}
use mathlib.Core.Logic.{◌≢◌}
use mathlib.Core.List.{List, [], ◌∷◌, ◌++◌}
use native.Mathlib.Omega.{arith}
use native.Mathlib.Nat.{mod-eq_of_lt, mod-eq-sub-mod, mod-add-mod, add-zero}
use native.Mathlib.Decide.{dec_lt}
use uint_os.Common.Lists.{length, get_or, set, get_or-set_self, get_or-set_ne, length-append}

-- Two offsets less than `cap` apart never fall on one cell.
pub slot_ne : (cap h i j : ℕ) → h < cap → i < j → j < cap → (h + i) % cap ≢ (h + j) % cap
slot_ne cap h i j hh ij jc = elim (dec_lt (h + i) cap) [
  | yes p ↦ elim (dec_lt (h + j) cap) [
    | yes q ↦ omega (arith, mod-eq_of_lt p, mod-eq_of_lt q)
    | no q ↦ omega (
      arith,
      mod-eq_of_lt p,
      mod-eq-sub-mod {n = h + j} {m = cap} (omega arith),
      mod-eq_of_lt {n = h + j - cap} {m = cap} (omega arith),
    )
  ]
  | no p ↦ omega (
    arith,
    mod-eq-sub-mod {n = h + i} {m = cap} (omega arith),
    mod-eq_of_lt {n = h + i - cap} {m = cap} (omega arith),
    mod-eq-sub-mod {n = h + j} {m = cap} (omega arith),
    mod-eq_of_lt {n = h + j - cap} {m = cap} (omega arith),
  )
]

module _ {ℓ} {A : Type ℓ} (d : A) (cap : ℕ) where
  unfoldable pub items : List A → ℕ → ℕ → List A
  items buf h zero = []
  items buf h (suc n) = items buf h n ++ (get_or buf ((h + n) % cap) d ∷ [])

  pub length-items : (buf : List A) (h n : ℕ) → length (items buf h n) ≡ n
  unfolding items
  length-items buf h zero = refl
  length-items buf h (suc n) = omega (
    arith,
    length-append (items buf h n) (get_or buf ((h + n) % cap) d ∷ []),
    length-items buf h n,
  )

  -- Two buffers that agree on the cells of a window have the same items.
  pub items_agree :
      (b c : List A) (h n : ℕ)
      → ((i : ℕ) → i < n → get_or b ((h + i) % cap) d ≡ get_or c ((h + i) % cap) d)
      → items b h n ≡ items c h n
  unfolding items
  items_agree b c h zero same = refl
  items_agree b c h (suc n) same =
      ap₂ (λ xs x. xs ++ (x ∷ [])) (items_agree b c h n (λ i lt. same i (omega arith)))
        (same n (omega arith))

  -- A write just past the window extends it.
  pub items-set_tail :
      (buf : List A) (h n : ℕ) (x : A)
      → h < cap
      → n < cap
      → cap ≤ length buf
      → items (set buf ((h + n) % cap) x) h (suc n) ≡ items buf h n ++ (x ∷ [])
  unfolding items
  items-set_tail buf h n x hh hn hb =
      ap₂ (λ xs y. xs ++ (y ∷ []))
        (items_agree _ buf h n
          (λ i lt. get_or-set_ne buf _ _ x d (λ e. slot_ne cap h i n hh lt hn (sym e))))
        (get_or-set_self buf ((h + n) % cap) x d (omega arith))

  -- The window, its first cell apart.
  pub items_head :
      (buf : List A) (h n : ℕ)
      → h < cap
      → items buf h (suc n) ≡ get_or buf h d ∷ items buf ((h + 1) % cap) n
  unfolding items
  items_head buf h zero hh = rw (add-zero, mod-eq_of_lt hh)
  items_head buf h (suc n) hh =
      ap₂ (λ xs k. xs ++ (get_or buf k d ∷ [])) (items_head buf h n hh) shift
    where
      shift : (h + suc n) % cap ≡ ((h + 1) % cap + n) % cap
      shift = rw mod-add-mod (ap (λ k. k % cap) (omega arith))

  -- A write to the cell before the window leaves it alone.
  pub items-set_before :
      (buf : List A) (h n : ℕ) (x : A)
      → h < cap
      → n < cap
      → items (set buf h x) ((h + 1) % cap) n ≡ items buf ((h + 1) % cap) n
  items-set_before buf h n x hh hn =
      items_agree _ buf ((h + 1) % cap) n λ i lt. get_or-set_ne buf h _ x d (λ e. apart i lt e)
    where
      apart : (i : ℕ) → i < n → h ≢ ((h + 1) % cap + i) % cap
      apart i lt e =
          slot_ne cap h 0 (suc i) hh (omega arith) (omega arith)
            (rw (add-zero, mod-eq_of_lt hh) (e ∙ shift i))
        where
          shift : (k : ℕ) → ((h + 1) % cap + k) % cap ≡ (h + suc k) % cap
          shift k = rw mod-add-mod (ap (λ t. t % cap) (omega arith))
