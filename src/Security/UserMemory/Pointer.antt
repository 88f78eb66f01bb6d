-- ===== src/Security/UserMemory/Pointer.antt =====
-- What the checks of user pointers and user strings of kernel/security_syscall.c accept.
use uint_os.Common.{
  ℕ, zero, suc, ◌+◌, ◌%◌, ◌^◌, ◌<◌, ◌≡◌, ◌↔◌, ◌⊎◌, refl, ap, ◌∙◌, Bool, true, false, not, ◌==◌,
  if◌then◌else◌, arith, Bool-cases, inl, inr,
}
use uint_os.Security.UserMemory.{
  Memory, kernel_space_start, max_string_length, is_user_address, validate_user_ptr, scan_string,
  validate_user_string,
}

-- An address that a user process may pass: in user space, and not NULL.
abbrev pub IsUser : ℕ → Type 0
IsUser a = (0 < a) × (a < kernel_space_start)

pub valid-IsUser :
    (ptr size perms : ℕ)
    → ptr < 2 ^ 32
    → size < 2 ^ 32
    → validate_user_ptr ptr size perms ≡ true
    → (k : ℕ) → k < size
    → IsUser (ptr + k)
unfolding validate_user_ptr is_user_address
valid-IsUser ptr size perms hp hs ok k lt = ground arith

IsUser-valid :
    (ptr size perms : ℕ)
    → ptr < 2 ^ 32
    → size < 2 ^ 32
    → ((k : ℕ) → k < size → IsUser (ptr + k))
    → validate_user_ptr ptr size perms ≡ true
unfolding validate_user_ptr is_user_address
IsUser-valid ptr zero perms hp hs all = ground arith
IsUser-valid ptr (suc n) perms hp hs all = ground (arith, all 0 (omega arith), all n (omega arith))

-- validate_user_ptr accepts a pointer and a size, whatever permissions are required, exactly when
-- every byte of the range lies in user space and is not at NULL, for 32-bit values of both: also
-- where no page is there or none has the permissions. So no range that wraps or that reaches the
-- kernel is accepted, and the empty range always is.
pub validate_user_ptr_iff :
    (ptr size perms : ℕ)
    → ptr < 2 ^ 32
    → size < 2 ^ 32
    → (validate_user_ptr ptr size perms ≡ true) ↔ ((k : ℕ) → k < size → IsUser (ptr + k))
validate_user_ptr_iff ptr size perms hp hs =
    (valid-IsUser ptr size perms hp hs, IsUser-valid ptr size perms hp hs)

-- A string that starts above NULL and has its terminator within n bytes, in user space.
abbrev pub Terminated : Memory → ℕ → ℕ → Type 0
Terminated mem n current =
    (k : ℕ) × (k < n) × (mem (current + k) ≡ 0) × (0 < current) × (current + k < kernel_space_start)

guard_true : (b r : Bool) → ((if not b then false else r) ≡ true) → (b ≡ true) × (r ≡ true)
guard_true true r e = (refl, e)
guard_true false r e = ground (arith, e)

guarded : (b r : Bool) → b ≡ true → r ≡ true → ((if not b then false else r) ≡ true)
guarded true r d e = e
guarded false r d e = d

-- One round: the terminator stands here, or further on.
next_round :
    (n : ℕ) (mem : Memory) (current : ℕ)
    → scan_string (suc n) mem current ≡ true
    → ((0 < current) × (current < kernel_space_start))
      × ((mem current ≡ 0) ⊎ (scan_string n mem (current + 1) ≡ true))
unfolding scan_string is_user_address
next_round n mem current e = elim (Bool-cases (mem current == 0)) [
  | inl here ↦ (ground arith, inl (ground arith))
  | inr not_here ↦ (
    ground arith,
    inr (
        ap (λ a. scan_string n mem a) {x = current + 1} {y = (current + 1) % 2 ^ 32}
          (omega (arith, small))
        ∙ ground arith),
  )
]
  where
    small : current < kernel_space_start
    small = ground arith

pub scan-Terminated :
    (n : ℕ) (mem : Memory) (current : ℕ)
    → scan_string n mem current ≡ true
    → Terminated mem n current
unfolding scan_string
scan-Terminated zero mem current e = ground arith
scan-Terminated (suc n) mem current e = elim (next_round n mem current e).1 [
  | inl here ↦ (
    0,
    omega arith,
    ap mem (omega arith) ∙ here,
    (next_round n mem current e).0.0,
    omega (arith, (next_round n mem current e).0.1),
  )
  | inr further ↦
      let (k, lt, ends, above, below) = scan-Terminated n mem (current + 1) further in
      (
        k + 1,
        omega arith,
        ap mem (omega arith) ∙ ends,
        (next_round n mem current e).0.0,
        omega arith,
      )
]

pub Terminated-scan :
    (n : ℕ) (mem : Memory) (current : ℕ)
    → Terminated mem n current
    → scan_string n mem current ≡ true
unfolding scan_string is_user_address
Terminated-scan zero mem current (k, lt, ends, above, below) = absurd (omega arith)
Terminated-scan (suc n) mem current (zero, lt, ends, above, below) =
    ground (arith, ap mem {x = current} {y = current + 0} (omega arith) ∙ ends)
Terminated-scan (suc n) mem current (suc k, lt, ends, above, below) =
    let rest =
      Terminated-scan n mem (current + 1)
        (k, omega arith, ap mem (omega arith) ∙ ends, omega arith, omega arith) in
    ground (
      arith,
      ap (λ a. scan_string n mem a) {x = (current + 1) % 2 ^ 32} {y = current + 1} (omega arith)
          ∙ rest,
    )

-- validate_user_string accepts a string exactly when it does not start at NULL and has a zero byte
-- among its first 4096 bytes that lies in user space; the search does not wrap round.
pub validate_user_string_iff :
    (mem : Memory) (str : ℕ)
    → (validate_user_string mem str ≡ true) ↔ Terminated mem max_string_length str
unfolding validate_user_string is_user_address
validate_user_string_iff mem str = (
  λ e.
      scan-Terminated max_string_length mem str
        (guard_true (is_user_address str) (scan_string max_string_length mem str) e).1,
  λ t.
      guarded (is_user_address str) (scan_string max_string_length mem str) (starts t)
        (Terminated-scan max_string_length mem str t),
)
  where
    starts : Terminated mem max_string_length str → is_user_address str ≡ true
    starts (k, lt, ends, above, below) = ground (arith, above, below)
