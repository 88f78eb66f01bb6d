-- ===== src/Net/Ip/Registry.antt =====
-- The table of protocol handlers of network/src/ip.c.
use uint_os.Common.{
  ℕ, ◌≤◌, ◌≡◌, ◌≢◌, ◌⊎◌, refl, true, false, none, some, List, [], ◌∷◌, ◌++◌, leb, length,
  length-append, arith, Bool-cases, inl, inr,
}
use uint_os.Common.Int.{pos, negsuc}
use uint_os.Net.Ip.Address.{Ip, find_handler, is_registered, ip_register_protocol}

module _ {ℓ} {H : Type ℓ} where
  -- No two entries have one protocol.
  abbrev pub Distinct : List (ℕ × H) → Type 0
  Distinct [] = Unit
  Distinct (entry ∷ rest) = (is_registered rest entry.0 ≡ false) × Distinct rest

  pub record IsTable (table : List (ℕ × H)) : Type 0 where
    pub distinct : Distinct table
    pub fits : length table ≤ 8

  snoc-is_registered :
      (table : List (ℕ × H)) (p q : ℕ) (h : H)
      → is_registered table q ≡ false
      → p ≢ q
      → is_registered (table ++ ((p, h) ∷ [])) q ≡ false
  snoc-is_registered [] p q h e ne = ground (arith, ne)
  snoc-is_registered (entry ∷ rest) p q h e ne = ground (arith, snoc-is_registered rest p q h)

  snoc-Distinct :
      (table : List (ℕ × H)) (p : ℕ) (h : H)
      → Distinct table
      → is_registered table p ≡ false
      → Distinct (table ++ ((p, h) ∷ []))
  snoc-Distinct [] p h d e = (refl, tt)
  snoc-Distinct (entry ∷ rest) p h d e = (
    snoc-is_registered rest p entry.0 h d.0 (ground arith),
    snoc-Distinct rest p h d.1 (ground arith),
  )

  find_handler-new :
      (table : List (ℕ × H)) (p : ℕ) (h : H)
      → is_registered table p ≡ false
      → find_handler (table ++ ((p, h) ∷ [])) p ≡ some h
  unfolding find_handler
  find_handler-new [] p h e = ground arith
  find_handler-new (entry ∷ rest) p h e = ground (arith, find_handler-new rest p h)

  find_handler-old :
      (table : List (ℕ × H)) (p q : ℕ) (h : H)
      → p ≢ q
      → find_handler (table ++ ((p, h) ∷ [])) q ≡ find_handler table q
  unfolding find_handler
  find_handler-old [] p q h ne = ground (arith, ne)
  find_handler-old (entry ∷ rest) p q h ne = ground (arith, find_handler-old rest p q h ne)

  registered_found :
      (table : List (ℕ × H)) (p : ℕ) → is_registered table p ≡ true → find_handler table p ≢ none
  unfolding find_handler
  registered_found [] p e = cc e
  registered_found (entry ∷ rest) p e = ground (arith, registered_found rest p)

  -- ip_register_protocol, on a table of at most eight entries with distinct protocols, leaves such a
  -- table: either it has added the handler, which is then found for its protocol while every other
  -- protocol keeps its own, or it fails and changes nothing, and the table is full or has a handler
  -- for that protocol.
  pub register_lem :
      (s : Ip H) (p : ℕ) (h : H)
      → IsTable s.handlers
      → IsTable (ip_register_protocol s p (some h)).0.handlers
        × (((find_handler (ip_register_protocol s p (some h)).0.handlers p ≡ some h)
              × (((q : ℕ)
                    → p ≢ q
                    → find_handler (ip_register_protocol s p (some h)).0.handlers q
                      ≡ find_handler s.handlers q)
                  × ((ip_register_protocol s p (some h)).1 ≡ pos 0)))
            ⊎ ((ip_register_protocol s p (some h) ≡ (s, negsuc 0))
                × ((length s.handlers ≡ 8) ⊎ (find_handler s.handlers p ≢ none))))
  unfolding ip_register_protocol
  register_lem s p h t = elim (Bool-cases (leb 8 (length s.handlers))) [
    | inl full ↦ rw full (t, inr (refl, inl (ground (arith, t.fits))))
    | inr room ↦ elim (Bool-cases (is_registered s.handlers p)) [
      | inl has ↦ rw (room, has) (t, inr (refl, inr (registered_found s.handlers p has)))
      | inr lacks ↦
          rw (room, lacks)
            (
              record {
                distinct = snoc-Distinct s.handlers p h t.distinct lacks;
                fits = ground (arith, length-append s.handlers ((p, h) ∷ []));
              },
              inl (
                find_handler-new s.handlers p h lacks,
                ((λ q ne. find_handler-old s.handlers p q h ne), refl),
              ),
            )
    ]
  ]
