-- ===== src/Security/Laws.antt =====
-- What the tokens, descriptors and policies of kernel/security.c guarantee.
use uint_os.Common.{
  ℕ, zero, suc, ◌+◌, ◌<◌, ◌≤◌, ◌≡◌, ◌≢◌, ◌↔◌, ◌⊎◌, inl, inr, refl, sym, ap, ◌∙◌, true, false,
  Option, some, List, Bool-cases, arith, bit_and, bit, bit-le, bit-bit_and, bit-zero, first_bit,
  ℕ_discrete,
}
use mathlib.Core.Path.{subst}
use mathlib.Core.Bool.{false≢true}
use uint_os.Common.Int.{pos}
use uint_os.Security.Sid.{Sid, SameSid, equal, equal_iff, security_sid_equal}
use uint_os.Security.Token.{
  Token, security_sid_in_token, in_groups, group_at, security_create_token,
  security_check_capability,
}
use uint_os.Security.Descriptor.{Descriptor, security_get_object_descriptor, security_check_access}
use uint_os.Security.Policy.{
  security_check_syscall_permission, security_check_privilege, sys_module_load, sys_module_unload,
}

-- One of the groups from i on, n of them, is `sid`.
abbrev pub InGroups : ℕ → ℕ → Option (List Sid) → Sid → Type 0
InGroups n i groups sid =
    (j : ℕ) × (i ≤ j) × (j < i + n) × (security_sid_equal (group_at groups j) (some sid) ≡ true)

in_groups-true :
    (n i : ℕ) (groups : Option (List Sid)) (sid : Sid)
    → in_groups n i groups (some sid) ≡ true
    → InGroups n i groups sid
unfolding in_groups
in_groups-true zero i groups sid h = absurd (false≢true h)
in_groups-true (suc n) i groups sid h =
    elim (Bool-cases (security_sid_equal (group_at groups i) (some sid))) [
      | inl e ↦ (i, omega arith, omega arith, e)
      | inr ne ↦
          let (j, lo, hi, e) = in_groups-true n (i + 1) groups sid (ground arith) in
          (j, omega arith, omega arith, e)
    ]

true-in_groups :
    (n i : ℕ) (groups : Option (List Sid)) (sid : Sid)
    → InGroups n i groups sid
    → in_groups n i groups (some sid) ≡ true
unfolding in_groups
true-in_groups zero i groups sid (j, lo, hi, e) = absurd (omega arith)
true-in_groups (suc n) i groups sid (j, lo, hi, e) =
    elim (Bool-cases (security_sid_equal (group_at groups i) (some sid))) [
      | inl here ↦ rw here refl
      | inr ne ↦ rw ne (true-in_groups n (i + 1) groups sid (j, later ne, omega arith, e))
    ]
  where
    later : security_sid_equal (group_at groups i) (some sid) ≡ false → i + 1 ≤ j
    later ne = elim (ℕ_discrete i j) [
      | yes same ↦ absurd (
          false≢true (
            sym ne
            ∙ subst (λ k. security_sid_equal (group_at groups k) (some sid) ≡ true) (sym same) e))
      | no other ↦ omega arith
    ]

-- security_sid_in_token holds exactly when the identifier names the token's user or one of its
-- first group_count groups.
in_token_iff :
    (t : Token) (sid : Sid)
    → (security_sid_in_token (some t) (some sid) ≡ true)
      ↔ (SameSid t.user sid ⊎ InGroups t.group_count 0 t.groups sid)
unfolding security_sid_in_token security_sid_equal
in_token_iff t sid = (to, from)
  where
    to :
        security_sid_in_token (some t) (some sid) ≡ true
        → SameSid t.user sid ⊎ InGroups t.group_count 0 t.groups sid
    to h = elim (Bool-cases (equal t.user sid)) [
      | inl user ↦ inl ((equal_iff t.user sid).0 user)
      | inr other ↦ inr (in_groups-true t.group_count 0 t.groups sid (ground arith))
    ]

    from :
        SameSid t.user sid ⊎ InGroups t.group_count 0 t.groups sid
        → security_sid_in_token (some t) (some sid) ≡ true
    from (inl s) = rw ((equal_iff t.user sid).1 s) refl
    from (inr g) = ground (arith, true-in_groups t.group_count 0 t.groups sid g)

-- A token that security_create_token makes, when memory is found, has the capabilities asked for,
-- and as members exactly its user and the groups given.
create_token_lem :
    (old : Token) (user : Sid) (groups : List Sid) (n capabilities : ℕ) (sid : Sid)
    → 0 < n
    → (t : Token) × (security_create_token (some old) (some user) (some groups) n capabilities true
        ≡ (some t, pos 0))
      × (t.capabilities ≡ capabilities)
      × ((security_sid_in_token (some t) (some sid) ≡ true)
          ↔ (SameSid user sid ⊎ InGroups n 0 (some groups) sid))
unfolding security_create_token
create_token_lem old user groups n capabilities sid h = (t, ground arith, refl, in_token_iff t sid)
  where
    t : Token
    t = record { user = user; groups = some groups; group_count = n; capabilities = capabilities }

-- security_check_capability holds exactly when the token has one of the bits asked for.
check_capability_iff :
    (t : Token) (capability : ℕ)
    → (security_check_capability (some t) capability ≡ true)
      ↔ ((k : ℕ) × (bit t.capabilities k ≡ 1) × (bit capability k ≡ 1))
unfolding security_check_capability
check_capability_iff t capability = (to, from)
  where
    to :
        security_check_capability (some t) capability ≡ true
        → (k : ℕ) × (bit t.capabilities k ≡ 1) × (bit capability k ≡ 1)
    to h =
        let (k, e) = first_bit (bit_and t.capabilities capability) (λ z. ground arith) in
        (
          k,
          omega (
            arith,
            bit-bit_and t.capabilities capability k,
            bit-le t.capabilities k,
            bit-le capability k,
          ),
          omega (
            arith,
            bit-bit_and t.capabilities capability k,
            bit-le t.capabilities k,
            bit-le capability k,
          ),
        )

    from :
        (k : ℕ) × (bit t.capabilities k ≡ 1) × (bit capability k ≡ 1)
        → security_check_capability (some t) capability ≡ true
    from (k, e, e') = ground (arith, some_bit)
      where
        some_bit : bit_and t.capabilities capability ≢ 0
        some_bit z =
            omega (arith, ap (λ x. bit x k) z, bit-zero k, bit-bit_and t.capabilities capability k)

-- The system's token and, where the owner is valid, the owner's have every access; where no DACL
-- is present everybody has.
check_access_open :
    (system_sid : Sid) (token : Token) (d : Descriptor) (desired : ℕ)
    → SameSid token.user system_sid
      ⊎ ((d.owner_valid ≡ true) × SameSid token.user d.owner)
      ⊎ (d.dacl_present ≡ false)
    → security_check_access system_sid (some token) (some d) desired ≡ true
unfolding security_check_access
check_access_open system_sid token d desired (inl s) =
    rw ((equal_iff token.user system_sid).1 s) refl
check_access_open system_sid token d desired (inr (inl o)) =
    ground (arith, o.0, (equal_iff token.user d.owner).1 o.1)
check_access_open system_sid token d desired (inr (inr e)) = ground arith

-- security_get_object_descriptor reports success also when the memory for its DACL is not found;
-- its descriptor then lets every token have every access.
get_object_descriptor_fails_open :
    (system_sid admin_sid : Sid) (old : Descriptor) (token : Token) (desired : ℕ)
    → (d : Descriptor) × (security_get_object_descriptor system_sid admin_sid true (some old) false
        ≡ (some d, pos 0))
      × (security_check_access system_sid (some token) (some d) desired ≡ true)
unfolding security_get_object_descriptor security_check_access
get_object_descriptor_fails_open system_sid admin_sid old token desired = (_, refl, ground arith)

-- A system call of a task that is not root is permitted exactly when it is not one of the two for
-- modules and its number is at most 50, listed in the policy or not.
syscall_permission_iff :
    (euid n : ℕ)
    → euid ≢ 0
    → (security_check_syscall_permission (some euid) n ≡ true)
      ↔ ((n ≢ sys_module_load) × (n ≢ sys_module_unload) × (n ≤ 50))
unfolding security_check_syscall_permission
syscall_permission_iff euid n h = (λ p. ground arith, λ p. ground arith)

-- A task at a lower ring has every privilege of a task at a higher one.
privilege_mono :
    (a b level : ℕ)
    → a ≤ b
    → security_check_privilege (some b) level ≡ true
    → security_check_privilege (some a) level ≡ true
unfolding security_check_privilege
privilege_mono a b level le h = ground arith
