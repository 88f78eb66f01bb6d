-- ===== src/Security/Access.antt =====
-- What security_check_access of kernel/security.c decides, bit by bit.
use uint_os.Common.{
  ℕ, ◌≡◌, ◌≢◌, ◌↔◌, ◌⊎◌, inl, inr, ap, true, false, ◌&&◌, some, [], ◌∷◌, arith, Some, bit_and, bit,
  bit-le, bit-bit_and, bit-bit_or, bit-zero, bit_ext, first_bit, ℕ_discrete,
}
use uint_os.Security.Sid.{Sid, equal}
use uint_os.Security.Token.{Token, security_sid_in_token}
use uint_os.Security.Descriptor.{
  AceType, allow, deny, Ace, Dacl, Descriptor, check_ace, check_aces, decide_access, check_dacl,
  security_check_access,
}

-- The entry is for this token, of that type, and has bit k.
abbrev pub Entry : AceType → Token → ℕ → Ace → Type 0
Entry type token k ace =
    (security_sid_in_token (some token) (some ace.sid) ≡ true)
    × (ace.type ≡ type)
    × (bit ace.access_mask k ≡ 1)

-- The bits after one entry.
check_ace-bit :
    (token : Token) (ace : Ace) (g d k : ℕ)
    → let (g', d') = check_ace token ace (g, d) in
      ((bit g' k ≡ 1) ↔ ((bit g k ≡ 1) ⊎ Entry allow token k ace))
      × ((bit d' k ≡ 1) ↔ ((bit d k ≡ 1) ⊎ Entry deny token k ace))
unfolding check_ace
check_ace-bit token ace g d k = (
  (
    λ h. ground (
      arith,
      bit-bit_or g ace.access_mask k,
      bit-bit_or d ace.access_mask k,
      bit-le g k,
      bit-le d k,
      bit-le ace.access_mask k,
    ),
    λ h. ground (
      arith,
      bit-bit_or g ace.access_mask k,
      bit-bit_or d ace.access_mask k,
      bit-le g k,
      bit-le d k,
      bit-le ace.access_mask k,
    ),
  ),
  (
    λ h. ground (
      arith,
      bit-bit_or g ace.access_mask k,
      bit-bit_or d ace.access_mask k,
      bit-le g k,
      bit-le d k,
      bit-le ace.access_mask k,
    ),
    λ h. ground (
      arith,
      bit-bit_or g ace.access_mask k,
      bit-bit_or d ace.access_mask k,
      bit-le g k,
      bit-le d k,
      bit-le ace.access_mask k,
    ),
  ),
)

or_chain : {X Y A B C : Type 0} → X ↔ (Y ⊎ C) → Y ↔ (B ⊎ A) → X ↔ (B ⊎ (A ⊎ C))
or_chain {X} {Y} {A} {B} {C} f g = (to, from)
  where
    to : X → B ⊎ (A ⊎ C)
    to x = elim (f.0 x) [
      | inl y ↦ elim (g.0 y) [ inl b ↦ inl b | inr a ↦ inr (inl a) ]
      | inr c ↦ inr (inr c)
    ]

    from : B ⊎ (A ⊎ C) → X
    from (inl b) = f.1 (inl (g.1 (inl b)))
    from (inr (inl a)) = f.1 (inl (g.1 (inr a)))
    from (inr (inr c)) = f.1 (inr c)

masks-bit :
    (token : Token) (aces : Dacl) (g d k : ℕ)
    → let (g', d') = check_aces token aces (g, d) in
      ((bit g' k ≡ 1) ↔ ((bit g k ≡ 1) ⊎ Some (Entry allow token k) aces))
      × ((bit d' k ≡ 1) ↔ ((bit d k ≡ 1) ⊎ Some (Entry deny token k) aces))
unfolding check_aces
masks-bit token [] g d k = (none_more, none_more)
  where
    none_more : {P : Type 0} → P ↔ (P ⊎ ⊥)
    none_more = (inl, λ h. elim h [ inl p ↦ p | inr e ↦ absurd e ])
masks-bit token (ace ∷ aces) g d k =
    let masks : ℕ × ℕ = check_ace token ace (g, d) in
    let first = check_ace-bit token ace g d k in
    let rest = masks-bit token aces masks.0 masks.1 k in
    (or_chain rest.0 first.0, or_chain rest.1 first.1)

-- The verdict: every desired bit is granted and not denied.
decide_iff :
    (g d desired : ℕ)
    → (decide_access (g, d) desired ≡ true)
      ↔ ((k : ℕ) → bit desired k ≡ 1 → (bit g k ≡ 1) × (bit d k ≢ 1))
unfolding decide_access
decide_iff g d desired = (to, from)
  where
    to :
        decide_access (g, d) desired ≡ true
        → (k : ℕ) → bit desired k ≡ 1
        → (bit g k ≡ 1) × (bit d k ≢ 1)
    to h k e = ground (
      arith,
      ap (λ x. bit x k) facts.0,
      ap (λ x. bit x k) facts.1,
      bit-zero k,
      bit-bit_and d desired k,
      bit-bit_and g desired k,
      bit-le g k,
    )
      where
        facts : (bit_and d desired ≡ 0) × (bit_and g desired ≡ desired)
        facts = ground (arith, h)

    from :
        ((k : ℕ) → bit desired k ≡ 1 → (bit g k ≡ 1) × (bit d k ≢ 1))
        → decide_access (g, d) desired ≡ true
    from h = ground (arith, no_denied, all_granted)
      where
        no_denied : bit_and d desired ≡ 0
        no_denied = elim (ℕ_discrete (bit_and d desired) 0) [
          | yes z ↦ z
          | no nz ↦
              let (k, e) = first_bit (bit_and d desired) nz in
              absurd (
                (h k (omega (arith, bit-bit_and d desired k, bit-le d k, bit-le desired k))).1
                  (omega (arith, bit-bit_and d desired k, bit-le d k, bit-le desired k)))
        ]

        granted_bit : (k : ℕ) → bit (bit_and g desired) k ≡ bit desired k
        granted_bit k = elim (ℕ_discrete (bit desired k) 1) [
          | yes e ↦ omega (arith, bit-bit_and g desired k, (h k e).0)
          | no ne ↦ omega (arith, bit-bit_and g desired k, bit-le desired k)
        ]

        all_granted : bit_and g desired ≡ desired
        all_granted = bit_ext (bit_and g desired) desired granted_bit

-- A token that is not the system's and not the object's owner, against a descriptor with a DACL:
-- access is granted exactly when for each desired bit some entry for the token allows it, and no
-- entry for the token denies it. The order of the entries does not matter.
pub check_access_iff :
    (system_sid : Sid) (token : Token) (d : Descriptor) (aces : Dacl) (desired : ℕ)
    → equal token.user system_sid ≡ false
    → d.owner_valid && equal token.user d.owner ≡ false
    → d.dacl_present ≡ true
    → d.dacl ≡ some aces
    → (security_check_access system_sid (some token) (some d) desired ≡ true) ↔ (
        (k : ℕ)
        → bit desired k ≡ 1
        → Some (Entry allow token k) aces × (¬ Some (Entry deny token k) aces))
unfolding security_check_access check_dacl
check_access_iff system_sid token d aces desired not_system not_owner present e =
    rw (not_system, not_owner, present, e) (to, from)
  where
    masks : ℕ × ℕ
    masks = check_aces token aces (0, 0)

    Verdict : Type 0
    Verdict =
        (k : ℕ)
        → bit desired k ≡ 1
        → Some (Entry allow token k) aces × (¬ Some (Entry deny token k) aces)

    never : (k : ℕ) {P : Type 0} → (bit 0 k ≡ 1) ⊎ P → P
    never k (inl e) = absurd (omega (arith, bit-zero k))
    never k (inr p) = p

    to : decide_access masks desired ≡ true → Verdict
    to h k b =
        let (granted, not_denied) = (decide_iff masks.0 masks.1 desired).0 h k b in
        (
          never k ((masks-bit token aces 0 0 k).0.0 granted),
          λ s. not_denied ((masks-bit token aces 0 0 k).1.1 (inr s)),
        )

    from : Verdict → decide_access masks desired ≡ true
    from v = (decide_iff masks.0 masks.1 desired).1 λ k b. (
      (masks-bit token aces 0 0 k).0.1 (inr (v k b).0),
      λ s. (v k b).1 (never k ((masks-bit token aces 0 0 k).1.0 s)),
    )
