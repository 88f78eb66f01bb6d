-- ===== src/Security/Sid.antt =====
-- security_sid_equal of kernel/security.c, and the equality that it decides.
use uint_os.Common.{
  ℕ, zero, suc, ◌+◌, ◌<◌, ◌≤◌, ℕ_discrete, ◌≡◌, ◌↔◌, refl, Bool, true, false, not, Option, some,
  List, arith, get_or, ◌==◌, if◌then◌else◌, ==_iff,
}
use mathlib.Core.Path.{subst}

-- `security_id_t`
pub record Sid : Type 0 where
  pub authority : ℕ
  pub sub_authority_count : ℕ
  pub primary_id : ℕ
  pub sub_authorities : List ℕ

-- The loop over the sub-authorities: the rounds left, and i.
unfoldable pub same_sub_authorities : ℕ → ℕ → List ℕ → List ℕ → Bool
same_sub_authorities zero i xs ys = true
same_sub_authorities (suc n) i xs ys =
    let rest = same_sub_authorities n (i + 1) xs ys in
    if get_or xs i 0 == get_or ys i 0 then rest else false

unfoldable pub equal : Sid → Sid → Bool
unfolding same_sub_authorities
equal a b =
    if not (a.authority == b.authority)
    then false
    else if not (a.sub_authority_count == b.sub_authority_count)
    then false
    else if not (a.primary_id == b.primary_id)
    then false
    else same_sub_authorities a.sub_authority_count 0 a.sub_authorities b.sub_authorities

-- A NULL identifier equals nothing.
unfoldable pub security_sid_equal : Option Sid → Option Sid → Bool
unfolding equal
security_sid_equal (some a) (some b) = equal a b
security_sid_equal _ _ = false

-- Two identifiers name the same principal.
pub record SameSid (a b : Sid) : Type 0 where
  pub authority : a.authority ≡ b.authority
  pub counts : a.sub_authority_count ≡ b.sub_authority_count
  pub primary : a.primary_id ≡ b.primary_id
  pub subs :
      (i : ℕ)
      → i < a.sub_authority_count
      → get_or a.sub_authorities i 0 ≡ get_or b.sub_authorities i 0

same_sub_true :
    (n i : ℕ) (xs ys : List ℕ)
    → same_sub_authorities n i xs ys ≡ true
    → (j : ℕ) → i ≤ j
    → j < i + n
    → get_or xs j 0 ≡ get_or ys j 0
unfolding same_sub_authorities
same_sub_true zero i xs ys h j lo hi = absurd (omega arith)
same_sub_true (suc n) i xs ys h j lo hi = elim (ℕ_discrete i j) [
  | yes e ↦ subst (λ k. get_or xs k 0 ≡ get_or ys k 0) e (ground arith)
  | no ne ↦ same_sub_true n (i + 1) xs ys (ground arith) j (omega arith) (omega arith)
]

true_same_sub :
    (n i : ℕ) (xs ys : List ℕ)
    → ((j : ℕ) → i ≤ j → j < i + n → get_or xs j 0 ≡ get_or ys j 0)
    → same_sub_authorities n i xs ys ≡ true
unfolding same_sub_authorities
true_same_sub zero i xs ys h = refl
true_same_sub (suc n) i xs ys h =
    rw ((==_iff _ _).1 (h i (omega arith) (omega arith)))
      (true_same_sub n (i + 1) xs ys (λ j lo hi. h j (omega arith) (omega arith)))

-- security_sid_equal holds exactly of identifiers that name the same principal: the same
-- authority, primary id and number of sub-authorities, and the same sub-authorities so far.
pub equal_iff : (a b : Sid) → (equal a b ≡ true) ↔ SameSid a b
unfolding equal
equal_iff a b = (λ h. same h, λ s. held s)
  where
    same : equal a b ≡ true → SameSid a b
    same h = record {
      authority = ground arith;
      counts = ground arith;
      primary = ground arith;
      subs = λ i lt.
          same_sub_true a.sub_authority_count 0 a.sub_authorities b.sub_authorities (ground arith) i
            (omega arith) (omega arith);
    }

    held : SameSid a b → equal a b ≡ true
    held s = ground (
      arith,
      s.authority,
      s.counts,
      s.primary,
      true_same_sub a.sub_authority_count 0 a.sub_authorities b.sub_authorities
          (λ j lo hi. s.subs j (omega arith)),
    )
