-- ===== src/Security/Tests.antt =====
-- The theorems on kernel/security.c and kernel/security_syscall.c at concrete inputs.
use uint_os.Common.{
  ℕ, ◌+◌, ◌≤◌, ◌<◌, ◌≡◌, ◌↔◌, ◌⊎◌, inr, refl, true, false, some, [], ◌∷◌, arith, Some, bit, ◌==◌,
  if◌then◌else◌,
}
use uint_os.Common.Int.{pos, negsuc}
use uint_os.Security.Sid.{Sid, equal}
use uint_os.Security.Token.{Token}
use uint_os.Security.Descriptor.{allow, deny, Dacl, Descriptor, blank, security_check_access}
use uint_os.Security.Access.{Entry, check_access_iff}
use uint_os.Security.UserMemory.{
  Memory, max_string_length, vm_perm_read, validate_user_ptr, validate_user_string, copy_from_user,
  copy_to_user,
}
use uint_os.Security.UserMemory.Pointer.{
  IsUser, Terminated, validate_user_ptr_iff, validate_user_string_iff,
}
use uint_os.Security.UserMemory.Copy.{copy_to_user_kernel, copy_from_user_lem}

abbrev system : Sid
system = record { authority = 1; sub_authority_count = 0; primary_id = 0; sub_authorities = [] }

abbrev admin : Sid
admin = record { authority = 1; sub_authority_count = 1; primary_id = 1; sub_authorities = 5 ∷ [] }

abbrev alice : Sid
alice = record {
  authority = 2;
  sub_authority_count = 2;
  primary_id = 7;
  sub_authorities = 5 ∷ 6 ∷ [];
}

abbrev staff : Sid
staff = record { authority = 2; sub_authority_count = 1; primary_id = 9; sub_authorities = 5 ∷ [] }

abbrev token : Token
token = record { user = alice; groups = some (staff ∷ []); group_count = 1; capabilities = 12 }

-- Staff may read (1) and write (2); alice may not write.
abbrev entries : Dacl
entries =
    record { type = allow; flags = 0; access_mask = 3; sid = staff }
    ∷ record { type = deny; flags = 0; access_mask = 2; sid = alice }
    ∷ []

abbrev document : Descriptor
document = record blank {
  dacl_present = true;
  dacl = some entries;
  owner = admin;
  owner_valid = true;
}

not_system : equal alice system ≡ false
unfolding equal
not_system = refl

not_owner : equal alice admin ≡ false
unfolding equal
not_owner = refl

check_access_iff_example : (security_check_access system (some token) (some document) 1 ≡ true) ↔ (
    (k : ℕ)
    → bit 1 k ≡ 1
    → Some (Entry allow token k) entries × (¬ Some (Entry deny token k) entries))
check_access_iff_example =
    check_access_iff system token document entries 1 not_system not_owner refl refl

validate_user_ptr_iff_example :
    (validate_user_ptr 3221225000 300 1 ≡ true) ↔ ((k : ℕ) → k < 300 → IsUser (3221225000 + k))
validate_user_ptr_iff_example = validate_user_ptr_iff 3221225000 300 1 (omega arith) (omega arith)

-- The string "A" at 4096, and zeros from 4097 on.
abbrev letter : Memory
letter a = if a == 4096 then 65 else 0

validate_user_string_iff_example :
    (validate_user_string letter 4096 ≡ true) ↔ Terminated letter max_string_length 4096
validate_user_string_iff_example = validate_user_string_iff letter 4096

copy_to_user_kernel_example : (copy_to_user letter 3221225470 4096 4).0 3221225472 ≡ 0
copy_to_user_kernel_example =
    copy_to_user_kernel letter 3221225470 4096 4 3221225472 (omega arith) (omega arith)
      (inr (omega arith))

copy_from_user_lem_example :
    ((validate_user_ptr 4096 2 vm_perm_read ≡ false)
      × (copy_from_user letter 3221300000 4096 2 ≡ (letter, negsuc 0)))
    ⊎ ((copy_from_user letter 3221300000 4096 2).1 ≡ pos 0)
      × ((j : ℕ)
          → j < 2
          → IsUser (4096 + j)
            × ((copy_from_user letter 3221300000 4096 2).0 (3221300000 + j) ≡ letter (4096 + j)))
      × ((x : ℕ)
          → (x < 3221300000) ⊎ (3221300002 ≤ x)
          → (copy_from_user letter 3221300000 4096 2).0 x ≡ letter x)
copy_from_user_lem_example =
    copy_from_user_lem letter 3221300000 4096 2 (omega arith) (omega arith) (omega arith)
      (inr (omega arith))
