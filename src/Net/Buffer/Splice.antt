-- ===== src/Net/Buffer/Splice.antt =====
-- Lists cut and put together, for the buffers of network/src/network.c.
use uint_os.Common.{
  take-nil, drop-nil, ℕ, zero, suc, ◌+◌, ◌-◌, ◌≤◌, ◌≡◌, ap, sym, ◌∙◌, List, [], ◌∷◌, ◌++◌, length,
  take, drop, length-append, length-take, length-drop, drop-append, arith,
}

module _ {ℓ} {A : Type ℓ} where
  pub drop-drop : (i n : ℕ) (xs : List A) → drop n (drop i xs) ≡ drop (i + n) xs
  drop-drop zero n xs = ap (λ t. drop t xs) {x = n} {y = 0 + n} (omega arith)
  drop-drop (suc i) n [] = drop-nil n ∙ sym (drop-nil (suc i + n))
  drop-drop (suc i) n (x ∷ xs) =
      drop-drop i n xs ∙ ap (λ t. drop t (x ∷ xs)) {x = suc (i + n)} {y = suc i + n} (omega arith)

  -- take and drop of a sum, at or behind the end of its first part.
  pub take-append_more :
      (n k : ℕ) (xs ys : List A) → n ≡ length xs → take (n + k) (xs ++ ys) ≡ xs ++ take k ys
  take-append_more zero k [] ys e = ap (λ t. take t ys) {x = 0 + k} {y = k} (omega arith)
  take-append_more zero k (x ∷ xs) ys e = absurd (omega arith)
  take-append_more (suc n) k [] ys e = absurd (omega arith)
  take-append_more (suc n) k (x ∷ xs) ys e =
      ap (λ t. take t (x ∷ (xs ++ ys))) {x = suc n + k} {y = suc (n + k)} (omega arith)
      ∙ ap (λ t. x ∷ t) (take-append_more n k xs ys (omega arith))

  pub drop-take :
      (d n : ℕ) (xs ys : List A)
      → d + n ≤ length xs
      → drop d (take (d + n) xs ++ ys) ≡ take n (drop d xs) ++ ys
  drop-take zero n xs ys le = ap (λ t. take t xs ++ ys) {x = 0 + n} {y = n} (omega arith)
  drop-take (suc d) n [] ys le = absurd (omega arith)
  drop-take (suc d) n (x ∷ xs) ys le =
      ap (λ t. drop (suc d) (take t (x ∷ xs) ++ ys)) {x = suc d + n} {y = suc (d + n)} (omega arith)
      ∙ drop-take d n xs ys (omega arith)

  pub take-drop : (n m : ℕ) (xs : List A) → n ≤ m → take (m - n) (drop n xs) ≡ drop n (take m xs)
  take-drop zero m xs le = ap (λ t. take t xs) {x = m - 0} {y = m} (omega arith)
  take-drop (suc n) zero xs le = absurd (omega arith)
  take-drop (suc n) (suc m) [] le = take-nil (suc m - suc n)
  take-drop (suc n) (suc m) (x ∷ xs) le =
      ap (λ t. take t (drop n xs)) {x = suc m - suc n} {y = m - n} (omega arith)
      ∙ take-drop n m xs (omega arith)

  -- What stands from i on after a write there.
  pub drop-splice :
      (i : ℕ) (memory bytes rest : List A)
      → i ≤ length memory
      → drop i (take i memory ++ (bytes ++ rest)) ≡ bytes ++ rest
  drop-splice i memory bytes rest le =
      drop-append i (take i memory) (bytes ++ rest) (sym (length-take i memory le))

  pub length-splice :
      (memory : List A) (i : ℕ) (bytes : List A)
      → i + length bytes ≤ length memory
      → length (take i memory ++ (bytes ++ drop (i + length bytes) memory)) ≡ length memory
  length-splice memory i bytes le = omega (
    arith,
    length-append (take i memory) (bytes ++ drop (i + length bytes) memory),
    length-append bytes (drop (i + length bytes) memory),
    length-take i memory (omega arith),
    length-drop (i + length bytes) memory,
  )
