-- ===== src/Tcp/Loops.antt =====
-- The copying loops of the receive buffers of network/src/tcp.c.
use uint_os.Common.{
  ℕ, zero, suc, ◌+◌, ◌%◌, ◌≤◌, ◌<◌, ◌≡◌, ◌⊎◌, refl, sym, ap, ◌∙◌, List, [], ◌∷◌, ◌++◌, append_assoc,
  append-nil, arith, length, get_or, set, take, drop, length-set, take-append, drop-append,
  take-all, drop-all, inl, inr,
}
use native.Mathlib.Nat.{add-zero, mod-eq_of_lt, mod-add-mod, add_assoc, add-suc}
use uint_os.Common.Ring.{items, items_head, items-set_tail}
use uint_os.Tcp.Buffer.{write_bytes, read_bytes}

-- The bytes from `start` on.
abbrev pub stream : ℕ → List ℕ → ℕ → ℕ → List ℕ
stream size = items 0 size

module _ (size : ℕ) where
  -- The copying loop puts the bytes behind those that are there.
  pub write_bytes_lem :
      (xs array : List ℕ) (h n e : ℕ)
      → length array ≡ size
      → h < size
      → n + length xs ≤ size
      → e ≡ (h + n) % size
      → (length (write_bytes size xs array e).0 ≡ size)
        × ((write_bytes size xs array e).1 ≡ (h + (n + length xs)) % size)
        × (stream size (write_bytes size xs array e).0 h (n + length xs)
            ≡ stream size array h n ++ xs)
  unfolding write_bytes
  write_bytes_lem [] array h n e room hh hn he =
      (room, rw add-zero he, rw (add-zero, append-nil) refl)
  write_bytes_lem (x ∷ xs) array h n e room hh hn he =
      let ih =
        write_bytes_lem xs (set array e x) h (suc n) ((e + 1) % size) (length-set array e x ∙ room)
          hh (omega arith) next in
      (
        ih.0,
        ih.1 ∙ ap (λ k. (h + k) % size) (sym shift),
        rw shift (ih.2 ∙ rw first (append_assoc (stream size array h n) (x ∷ []) xs)),
      )
    where
      shift : n + suc (length xs) ≡ suc n + length xs
      shift = omega arith

      first : stream size (set array e x) h (suc n) ≡ stream size array h n ++ (x ∷ [])
      first = rw he (items-set_tail 0 size array h n x hh (omega arith) (omega (arith, room)))

      next : (e + 1) % size ≡ (h + suc n) % size
      next = rw (he, mod-add-mod) (ap (λ k. k % size) (omega arith))

  -- The copying loop gives the bytes from `pos` on.
  pub read_bytes_lem :
      (n : ℕ) (array : List ℕ) (pos : ℕ)
      → pos < size
      → ((read_bytes size n array pos).0 ≡ stream size array pos n)
        × ((read_bytes size n array pos).1 ≡ (pos + n) % size)
  unfolding read_bytes items
  read_bytes_lem zero array pos h = (refl, rw (add-zero, mod-eq_of_lt h) refl)
  read_bytes_lem (suc n) array pos h =
      let ih = read_bytes_lem n array ((pos + 1) % size) (omega arith) in
      (
        ap (λ xs. get_or array pos 0 ∷ xs) ih.0 ∙ sym (items_head 0 size array pos n h),
        ih.1 ∙ rw mod-add-mod (ap (λ k. k % size) (omega arith)),
      )

  -- A stream in two parts.
  pub stream_split :
      (array : List ℕ) (pos n k : ℕ)
      → stream size array pos (n + k)
        ≡ stream size array pos n ++ stream size array ((pos + n) % size) k
  unfolding items
  stream_split array pos n zero = rw (add-zero, append-nil) refl
  stream_split array pos n (suc k) =
      rw (add-suc, stream_split array pos n k, append_assoc, mod-add-mod, add_assoc) refl

-- What a read of `len` bytes leaves and gives, from a split of the stream.
pub split_at :
    (len : ℕ) (held out left : List ℕ)
    → held ≡ out ++ left
    → (length out ≡ len) ⊎ ((length out ≤ len) × (left ≡ []))
    → (take len held ≡ out) × (drop len held ≡ left)
split_at len held out left e (inl l) =
    rw e (take-append len out left (sym l), drop-append len out left (sym l))
split_at len held out left e (inr (l, z)) =
    rw (e, z, append-nil) (take-all len out l, drop-all len out l)
