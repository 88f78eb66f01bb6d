-- ===== src/Security/UserMemory/Copy.antt =====
-- What copy_to_user and copy_from_user of kernel/security_syscall.c do to memory.
use uint_os.Common.{
  ℕ, zero, suc, ◌+◌, ◌^◌, ◌≤◌, ◌<◌, ◌≡◌, ◌≢◌, ◌⊎◌, refl, ap, ◌∙◌, false, arith, Bool-cases, inl,
  inr, ℕ_discrete,
}
use uint_os.Common.Int.{pos, negsuc}
use uint_os.Security.UserMemory.{
  Memory, kernel_space_start, address, validate_user_ptr, store, copy_loop, vm_perm_read,
  vm_perm_write, copy_from_user, copy_to_user,
}
use uint_os.Security.UserMemory.Pointer.{IsUser, valid-IsUser}

store_self : (mem : Memory) (a b : ℕ) → store mem a b a ≡ b
unfolding store
store_self mem a b = ground arith

store_other : (mem : Memory) (a b x : ℕ) → a ≢ x → store mem a b x ≡ mem x
unfolding store
store_other mem a b x ne = ground arith

module _ (d s : ℕ) where
  -- The loop changes no byte but those of the destination.
  pub copy_loop_other :
      (n i : ℕ) (mem : Memory) (x : ℕ)
      → ((k : ℕ) → i ≤ k → k < i + n → address (d + k) ≢ x)
      → copy_loop n d s i mem x ≡ mem x
  unfolding copy_loop
  copy_loop_other zero i mem x away = refl
  copy_loop_other (suc n) i mem x away =
      copy_loop_other n (i + 1) (store mem (address (d + i)) (mem (address (s + i)))) x
        (λ k le lt. away k (omega arith) (omega arith))
      ∙ store_other mem (address (d + i)) (mem (address (s + i))) x
          (away i (omega arith) (omega arith))

  -- Where the ranges neither wrap nor meet, the destination gets the source's bytes.
  pub copy_loop_copies :
      (size n i : ℕ) (mem : Memory) (j : ℕ)
      → i + n ≡ size
      → d + size ≤ 2 ^ 32
      → s + size ≤ 2 ^ 32
      → (d + size ≤ s) ⊎ (s + size ≤ d)
      → i ≤ j
      → j < size
      → copy_loop n d s i mem (d + j) ≡ mem (s + j)
  unfolding copy_loop
  copy_loop_copies size zero i mem j all hd hs apart le lt = absurd (omega arith)
  copy_loop_copies size (suc n) i mem j all hd hs apart le lt =
      let mem' = store mem (address (d + i)) (mem (address (s + i))) in
      elim (ℕ_discrete i j) [
        | yes here ↦
            copy_loop_other n (i + 1) mem' (d + j) (λ k le' lt'. omega arith)
            ∙ (ap mem' {x = d + j} {y = address (d + i)} (omega arith)
                ∙ (store_self mem (address (d + i)) (mem (address (s + i))) ∙ ap mem (omega arith)))
        | no later ↦
            copy_loop_copies size n (i + 1) mem' j (omega arith) hd hs apart (omega arith) lt
            ∙ store_other mem (address (d + i)) (mem (address (s + i))) (s + j) (ground arith)
      ]

-- copy_to_user writes to user space only: whatever 32-bit pointer and size it is given, no byte of
-- the kernel's part of memory, and not the byte at NULL, is changed.
pub copy_to_user_kernel :
    (mem : Memory) (dest src size x : ℕ)
    → dest < 2 ^ 32
    → size < 2 ^ 32
    → (x ≡ 0) ⊎ (kernel_space_start ≤ x)
    → (copy_to_user mem dest src size).0 x ≡ mem x
unfolding copy_to_user
copy_to_user_kernel mem dest src size x hd hs outside =
    elim (Bool-cases (validate_user_ptr dest size vm_perm_write)) [
      | inl ok ↦ rw ok (
          copy_loop_other dest src size 0 mem x
            (λ k le lt. away k (valid-IsUser dest size vm_perm_write hd hs ok k (omega arith))))
      | inr bad ↦ rw bad refl
    ]
  where
    away : (k : ℕ) → IsUser (dest + k) → address (dest + k) ≢ x
    away k (above, below) = ground (arith, above, below)

-- copy_from_user, on 32-bit pointers: it refuses with -1 and an unchanged memory, or every byte that
-- it read was user memory, and it answers 0; then, where the two ranges do not meet and the
-- destination does not wrap, the destination holds the source's bytes and no other byte changed.
pub copy_from_user_lem :
    (mem : Memory) (dest src size : ℕ)
    → src < 2 ^ 32
    → size < 2 ^ 32
    → dest + size ≤ 2 ^ 32
    → (dest + size ≤ src) ⊎ (src + size ≤ dest)
    → ((validate_user_ptr src size vm_perm_read ≡ false)
        × (copy_from_user mem dest src size ≡ (mem, negsuc 0)))
      ⊎ ((copy_from_user mem dest src size).1 ≡ pos 0)
        × ((j : ℕ)
            → j < size
            → IsUser (src + j) × ((copy_from_user mem dest src size).0 (dest + j) ≡ mem (src + j)))
        × ((x : ℕ)
            → (x < dest) ⊎ (dest + size ≤ x)
            → (copy_from_user mem dest src size).0 x ≡ mem x)
unfolding copy_from_user
copy_from_user_lem mem dest src size hs hn hd apart =
    elim (Bool-cases (validate_user_ptr src size vm_perm_read)) [
      | inr bad ↦ rw bad (inl (refl, refl))
      | inl ok ↦ rw ok (
          inr (
            refl,
            (λ j lt. (
              valid-IsUser src size vm_perm_read hs hn ok j lt,
              copy_loop_copies dest src size size 0 mem j (omega arith) hd
                  (no_wrap size (valid-IsUser src size vm_perm_read hs hn ok) j lt) apart
                  (omega arith) lt,
            )),
            (λ x out. copy_loop_other dest src size 0 mem x (λ k le lt. ground arith)),
          ))
    ]
  where
    no_wrap : (n : ℕ) → ((k : ℕ) → k < n → IsUser (src + k)) → (j : ℕ) → j < n → src + n ≤ 2 ^ 32
    no_wrap zero all j lt = absurd (omega arith)
    no_wrap (suc n) all j lt = ground (arith, all n (omega arith))
