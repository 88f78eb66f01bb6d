-- ===== src/Vmm/Lookup.antt =====
-- What vmm_find_region of memory/vmm.c finds in an address space whose regions do not overlap.
use uint_os.Common.{
  ℕ, ◌<◌, ◌≡◌, ◌↔◌, refl, ap, Bool, true, false, Option, none, some, List, [], ◌∷◌, ◌==◌, ltb, leb,
  ◌&&◌, if◌then◌else◌, arith, All, Some, Bool-cases, inl, inr,
}
use mathlib.Core.Path.{subst}
use uint_os.Vmm.Regions.{Region, remove_region, find_region}
use uint_os.Vmm.Disjoint.{Contains, Clear, Apart}

abbrev holds_addr : ℕ → Region → Bool
holds_addr addr r = leb r.start addr && ltb addr r.end

Clear-member :
    (q r : Region) (rs : List Region) → All (Clear q) rs → Some (λ p. p ≡ r) rs → Clear q r
Clear-member q r [] h m = absurd m
Clear-member q r (p ∷ rs) h (inl e) = subst (λ p. Clear q p) e h.0
Clear-member q r (p ∷ rs) h (inr m) = Clear-member q r rs h.1 m

picked :
    (b : Bool) (q r : Region) (rest : Option Region)
    → b ≡ true
    → ((if b then some q else rest) ≡ some r)
    → q ≡ r
picked true q r rest h e = cc
picked false q r rest h e = cc

found_lem :
    (rs : List Region) (addr : ℕ) (r : Region)
    → find_region rs addr ≡ some r
    → Some (λ q. q ≡ r) rs × Contains addr r
unfolding find_region
found_lem [] addr r e = absurd (none≢some e)
  where
    none≢some : none ≡ some r → ⊥
    none≢some e = cc
found_lem (q ∷ rs) addr r e = elim (Bool-cases (holds_addr addr q)) [
  | inl here ↦
      let same = picked (holds_addr addr q) q r (find_region rs addr) here e in
      (inl same, subst (λ p. Contains addr p) same (ground (arith, here)))
  | inr not_here ↦ let (m, c) = found_lem rs addr r (ground (arith, not_here, e)) in (inr m, c)
]

find_lem :
    (rs : List Region) (addr : ℕ) (r : Region)
    → Apart rs
    → Some (λ q. q ≡ r) rs
    → Contains addr r
    → find_region rs addr ≡ some r
unfolding find_region
find_lem [] addr r apart m c = absurd m
find_lem (q ∷ rs) addr r apart (inl e) c = rw inside (ap some e)
  where
    inside : holds_addr addr q ≡ true
    inside = ground (arith, ap (λ p. p.start) e, ap (λ p. p.end) e, c)
find_lem (q ∷ rs) addr r apart (inr m) c = elim (Bool-cases (holds_addr addr q)) [
  | inl here ↦ absurd ((Clear-member q r rs apart.0 m) addr (ground (arith, here)) c)
  | inr not_here ↦ rw not_here (find_lem rs addr r apart.1 m c)
]

-- Where the regions do not overlap, vmm_find_region gives a region exactly when it is one of the
-- list and the address lies in it.
pub find_region_iff :
    (rs : List Region) (addr : ℕ) (r : Region)
    → Apart rs
    → (find_region rs addr ≡ some r) ↔ (Some (λ q. q ≡ r) rs × Contains addr r)
find_region_iff rs addr r apart = (found_lem rs addr r, λ h. find_lem rs addr r apart h.0 h.1)

missing :
    (q : Region) (rs : List Region) (addr : ℕ)
    → All (Clear q) rs
    → Contains addr q
    → find_region rs addr ≡ none
unfolding find_region
missing q [] addr h c = refl
missing q (p ∷ rs) addr h c = elim (Bool-cases (holds_addr addr p)) [
  | inl here ↦ absurd (h.0 addr c (ground (arith, here)))
  | inr not_here ↦ rw not_here (missing q rs addr h.1 c)
]

member_room :
    (rs : List Region) (r : Region)
    → All (λ q. q.start < q.end) rs
    → Some (λ q. q ≡ r) rs
    → r.start < r.end
member_room [] r h m = absurd m
member_room (q ∷ rs) r h (inl e) = subst (λ p. p.start < p.end) e h.0
member_room (q ∷ rs) r h (inr m) = member_room rs r h.1 m

-- Where no region is empty and none overlap, the start of a region of the list belongs to no
-- region after vmm_remove_region of that start.
find_region-remove_region :
    (rs : List Region) (r : Region)
    → Apart rs
    → All (λ q. q.start < q.end) rs
    → Some (λ q. q ≡ r) rs
    → find_region (remove_region rs r.start) r.start ≡ none
unfolding find_region remove_region
find_region-remove_region [] r apart full m = absurd m
find_region-remove_region (q ∷ rs) r apart full (inl e) =
    rw same (missing q rs r.start apart.0 inside)
  where
    same : (q.start == r.start) ≡ true
    same = ground (arith, ap (λ p. p.start) e)

    inside : Contains r.start q
    inside = ground (arith, ap (λ p. p.start) e, full.0)
find_region-remove_region (q ∷ rs) r apart full (inr m) =
    rw (other, outside) (find_region-remove_region rs r apart.1 full.1 m)
  where
    room : r.start < r.end
    room = member_room rs r full.1 m

    clear : Clear q r
    clear = Clear-member q r rs apart.0 m

    other : (q.start == r.start) ≡ false
    other = elim (Bool-cases (q.start == r.start)) [
      | inl same ↦ absurd (clear r.start (ground (arith, same, full.0)) (omega arith, room))
      | inr differs ↦ differs
    ]

    outside : holds_addr r.start q ≡ false
    outside = elim (Bool-cases (holds_addr r.start q)) [
      | inl here ↦ absurd (clear r.start (ground (arith, here)) (omega arith, room))
      | inr not_here ↦ not_here
    ]
