-- ===== src/Security/Token.antt =====
-- The access tokens of kernel/security.c. heap_alloc is the argument `memory`: whether it finds
-- the memory asked for.
use uint_os.Common.{
  ℕ, zero, suc, ◌+◌, Bool, true, false, not, Option, none, some, List, [], ltb, get_elem?, ◌==◌,
  if◌then◌else◌, bit_and,
}
use uint_os.Common.Int.{ℤ, pos, negsuc}
use uint_os.Security.Sid.{Sid, security_sid_equal}

-- `access_token_t`; NULL groups are `none`.
pub record Token : Type 0 where
  pub user : Sid
  pub groups : Option (List Sid)
  pub group_count : ℕ
  pub capabilities : ℕ

abbrev pub zero_sid : Sid
zero_sid = record { authority = 0; sub_authority_count = 0; primary_id = 0; sub_authorities = [] }

-- groups[i]; there is none behind NULL or past the end.
abbrev pub group_at : Option (List Sid) → ℕ → Option Sid
group_at none i = none
group_at (some gs) i = get_elem? gs i

-- The loop over the groups: the rounds left, and i.
unfoldable pub in_groups : ℕ → ℕ → Option (List Sid) → Option Sid → Bool
unfolding security_sid_equal
in_groups zero i groups sid = false
in_groups (suc n) i groups sid =
    let rest = in_groups n (i + 1) groups sid in
    if security_sid_equal (group_at groups i) sid then true else rest

unfoldable pub security_sid_in_token : Option Token → Option Sid → Bool
unfolding in_groups security_sid_equal
security_sid_in_token (some t) (some sid) =
    if security_sid_equal (some t.user) (some sid)
    then true
    else in_groups t.group_count 0 t.groups (some sid)
security_sid_in_token _ _ = false

-- The groups are copied into memory of their own; without it the token has the user alone.
unfoldable pub new_token : Sid → Option (List Sid) → ℕ → ℕ → Bool → Token × ℤ
new_token user none group_count capabilities memory =
    (record { user = user; groups = none; group_count = 0; capabilities = capabilities }, pos 0)
new_token user (some groups) group_count capabilities memory =
    if ltb 0 group_count
    then (if memory
        then (
          record {
            user = user;
            groups = some groups;
            group_count = group_count;
            capabilities = capabilities;
          },
          pos 0,
        )
        else (record { user = user; groups = none; group_count = 0; capabilities = 0 }, negsuc 0))
    else (
      record { user = user; groups = none; group_count = 0; capabilities = capabilities },
      pos 0,
    )

unfoldable pub security_create_token :
    Option Token → Option Sid → Option (List Sid) → ℕ → ℕ → Bool → Option Token × ℤ
unfolding new_token
security_create_token (some t) (some user) groups group_count capabilities memory =
    let (t', code) = new_token user groups group_count capabilities memory in (some t', code)
security_create_token token _ groups group_count capabilities memory = (token, negsuc 0)

unfoldable pub security_free_token : Option Token → Option Token
security_free_token none = none
security_free_token (some t) = elim t.groups [
  | none ↦ some t
  | some gs ↦ some (record t { groups = none; group_count = 0 })
]

unfoldable pub security_check_capability : Option Token → ℕ → Bool
security_check_capability none capability = false
security_check_capability (some t) capability = not (bit_and t.capabilities capability == 0)

-- The system's token of security_init: every capability (~0UL) and no groups.
abbrev pub system_token : Sid → Token
system_token system_sid = record {
  user = system_sid;
  groups = none;
  group_count = 0;
  capabilities = 0xffff_ffff;
}

-- security_get_current_token always gives the system's token.
unfoldable pub security_get_current_token : Sid → Option Token → Option Token × ℤ
security_get_current_token system_sid none = (none, negsuc 0)
security_get_current_token system_sid (some _) = (some (system_token system_sid), pos 0)

unfoldable pub security_current_has_capability : Sid → ℕ → Bool
unfolding security_get_current_token security_check_capability
security_current_has_capability system_sid capability =
    security_check_capability
      (security_get_current_token system_sid (some (system_token system_sid))).0 capability
