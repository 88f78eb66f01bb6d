-- ===== src/Security/Descriptor.antt =====
-- Security descriptors and security_check_access of kernel/security.c. The bits SD_FLAG_... and
-- the numbers ACE_TYPE_... that security.c uses are defined nowhere in the repository: they are
-- Boolean fields and a data type.
use uint_os.Common.{
  ℕ, Bool, true, false, not, ◌&&◌, Option, none, some, List, [], ◌∷◌, ◌==◌, length, if◌then◌else◌,
  bit_and, bit_or,
}
use uint_os.Common.Int.{ℤ, pos, negsuc}
use uint_os.Security.Sid.{Sid, equal}
use uint_os.Security.Token.{Token, security_sid_in_token, zero_sid}

pub data AceType : Type 0 where
  allow deny unknown : AceType

-- `ace_t`
pub record Ace : Type 0 where
  pub type : AceType
  pub flags : ℕ
  pub access_mask : ℕ
  pub sid : Sid

-- `dacl_t`: the entries, `ace_count` of them.
abbrev pub Dacl : Type 0
Dacl = List Ace

-- `security_descriptor_t`
pub record Descriptor : Type 0 where
  pub owner_valid : Bool
  pub group_valid : Bool
  pub dacl_present : Bool
  pub owner : Sid
  pub group : Sid
  pub dacl : Option Dacl

abbrev pub blank : Descriptor
blank = record {
  owner_valid = false;
  group_valid = false;
  dacl_present = false;
  owner = zero_sid;
  group = zero_sid;
  dacl = none;
}

-- create_dacl: no list of no entries, and none without memory.
unfoldable pub create_dacl : ℕ → Bool → Bool
create_dacl ace_count memory = if ace_count == 0 then false else memory

abbrev pub with_owner : Option Sid → Descriptor → Descriptor
with_owner none d = d
with_owner (some sid) d = record d { owner = sid; owner_valid = true }

abbrev pub with_group : Option Sid → Descriptor → Descriptor
with_group none d = d
with_group (some sid) d = record d { group = sid; group_valid = true }

unfoldable pub with_dacl : Option Dacl → Bool → Descriptor → Descriptor × ℤ
unfolding create_dacl
with_dacl none memory d = (d, pos 0)
with_dacl (some aces) memory d =
    if create_dacl (length aces) memory
    then (record d { dacl = some aces; dacl_present = true }, pos 0)
    else (d, negsuc 0)

unfoldable pub security_create_descriptor :
    Option Descriptor → Option Sid → Option Sid → Option Dacl → Bool → Option Descriptor × ℤ
unfolding with_dacl
security_create_descriptor none owner group dacl memory = (none, negsuc 0)
security_create_descriptor (some _) owner group dacl memory =
    let (d, code) = with_dacl dacl memory (with_group group (with_owner owner blank)) in
    (some d, code)

-- The default DACL of security_init: SYSTEM and ADMIN, all access.
abbrev pub default_dacl : Sid → Sid → Dacl
default_dacl system_sid admin_sid =
    record { type = allow; flags = 0; access_mask = 0xfff; sid = system_sid }
    ∷ record { type = allow; flags = 0; access_mask = 0xfff; sid = admin_sid }
    ∷ []

-- The name of the object stands for itself: `named` says that it is not NULL.
unfoldable pub security_get_object_descriptor :
    Sid → Sid → Bool → Option Descriptor → Bool → Option Descriptor × ℤ
unfolding security_create_descriptor
security_get_object_descriptor system_sid admin_sid named none memory = (none, negsuc 0)
security_get_object_descriptor system_sid admin_sid named (some d) memory =
    if named
    then (
      (security_create_descriptor (some d) (some system_sid) (some admin_sid)
          (some (default_dacl system_sid admin_sid)) memory).0,
      pos 0,
    )
    else (some d, negsuc 0)

-- One entry of the DACL: the masks granted and denied so far.
unfoldable pub check_ace : Token → Ace → ℕ × ℕ → ℕ × ℕ
unfolding security_sid_in_token
check_ace token ace (granted, denied) =
    if not (security_sid_in_token (some token) (some ace.sid))
    then (granted, denied)
    else elim ace.type [
      | allow ↦ (bit_or granted ace.access_mask, denied)
      | deny ↦ (granted, bit_or denied ace.access_mask)
      | unknown ↦ (granted, denied)
    ]

unfoldable pub check_aces : Token → Dacl → ℕ × ℕ → ℕ × ℕ
unfolding check_ace
check_aces token [] masks = masks
check_aces token (ace ∷ aces) masks = check_aces token aces (check_ace token ace masks)

-- The verdict on the masks.
unfoldable pub decide_access : ℕ × ℕ → ℕ → Bool
decide_access (granted, denied) desired =
    if not (bit_and denied desired == 0) then false else bit_and granted desired == desired

-- The check behind the exceptions for the system, the owner and a missing DACL.
unfoldable pub check_dacl : Token → Option Dacl → ℕ → Bool
unfolding check_aces decide_access
check_dacl token none desired = true
check_dacl token (some aces) desired = decide_access (check_aces token aces (0, 0)) desired

unfoldable pub security_check_access : Sid → Option Token → Option Descriptor → ℕ → Bool
unfolding equal check_dacl
security_check_access system_sid (some token) (some d) desired =
    if equal token.user system_sid
    then true
    else if d.owner_valid && equal token.user d.owner
    then true
    else if not d.dacl_present
    then true
    else check_dacl token d.dacl desired
security_check_access system_sid _ _ desired = false
