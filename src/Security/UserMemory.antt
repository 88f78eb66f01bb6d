-- ===== src/Security/UserMemory.antt =====
-- The user pointer checks and the copies between user and kernel memory of
-- kernel/security_syscall.c. Addresses and size_t have 32 bits, as the boundary 0xC0000000 has;
-- memory is a function from addresses to bytes, one for both sides.
use uint_os.Common.{
  ℕ, zero, suc, ◌+◌, ◌-◌, ◌%◌, ◌^◌, Bool, true, false, not, ◌&&◌, ◌||◌, ◌==◌, ltb, if◌then◌else◌,
}
use uint_os.Common.Int.{ℤ, pos, negsuc}
pub mod Pointer
pub mod Copy

abbrev pub kernel_space_start : ℕ
kernel_space_start = 3221225472

abbrev pub max_string_length : ℕ
max_string_length = 4096

abbrev pub Memory : Type 0
Memory = ℕ → ℕ

abbrev pub address : ℕ → ℕ
address a = a % 2 ^ 32

unfoldable pub is_user_address : ℕ → Bool
is_user_address addr = ltb addr kernel_space_start && ltb 0 addr

-- required_perms is not read.
unfoldable pub validate_user_ptr : ℕ → ℕ → ℕ → Bool
validate_user_ptr ptr size required_perms =
    if ptr == 0 && ltb 0 size
    then false
    else if size == 0
    then true
    else let end = address (ptr + size) in
      if ltb end ptr
      then false
      else if not (is_user_address ptr) || not (is_user_address (address (end + 2 ^ 32 - 1)))
      then false
      else true

-- The loop of validate_user_string: the rounds left, and current.
unfoldable pub scan_string : ℕ → Memory → ℕ → Bool
scan_string zero mem current = false
scan_string (suc n) mem current =
    let rest = scan_string n mem (address (current + 1)) in
    if not (is_user_address current) then false else if mem current == 0 then true else rest

unfoldable pub validate_user_string : Memory → ℕ → Bool
unfolding scan_string
validate_user_string mem str =
    if not (is_user_address str) then false else scan_string max_string_length mem str

unfoldable pub store : Memory → ℕ → ℕ → Memory
store mem a b x = if x == a then b else mem x

-- The loop d[i] = s[i]: the rounds left, d, s and i.
unfoldable pub copy_loop : ℕ → ℕ → ℕ → ℕ → Memory → Memory
copy_loop zero d s i mem = mem
copy_loop (suc n) d s i mem =
    copy_loop n d s (i + 1) (store mem (address (d + i)) (mem (address (s + i))))

abbrev pub vm_perm_read : ℕ
vm_perm_read = 1

abbrev pub vm_perm_write : ℕ
vm_perm_write = 2

unfoldable pub copy_from_user : Memory → ℕ → ℕ → ℕ → Memory × ℤ
unfolding copy_loop
copy_from_user mem dest src size =
    if not (validate_user_ptr src size vm_perm_read)
    then (mem, negsuc 0)
    else (copy_loop size dest src 0 mem, pos 0)

unfoldable pub copy_to_user : Memory → ℕ → ℕ → ℕ → Memory × ℤ
unfolding copy_loop
copy_to_user mem dest src size =
    if not (validate_user_ptr dest size vm_perm_write)
    then (mem, negsuc 0)
    else (copy_loop size dest src 0 mem, pos 0)
