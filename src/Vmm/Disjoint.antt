-- ===== src/Vmm/Disjoint.antt =====
-- The regions of an address space of memory/vmm.c do not overlap, and what vmm_find_region finds.
use uint_os.Common.{
  ℕ, ◌≤◌, ◌<◌, ◌≡◌, Bool, true, false, Option, none, some, List, [], ◌∷◌, ◌==◌, if◌then◌else◌,
  arith, All, Bool-cases, inl, inr,
}
use uint_os.Vmm.Regions.{
  Region, page_floor, page_ceiling, overlap, overlaps, add_region, vmm_add_region, remove_region,
  vmm_remove_region,
}

-- The address lies in the region.
abbrev pub Contains : ℕ → Region → Type 0
Contains addr r = (r.start ≤ addr) × (addr < r.end)

-- The regions share no address.
abbrev pub Clear : Region → Region → Type 0
Clear r q = (addr : ℕ) → Contains addr r → Contains addr q → ⊥

-- No region shares an address with a later one of the list.
abbrev pub Apart : List Region → Type 0
Apart [] = Unit
Apart (r ∷ rs) = All (Clear r) rs × Apart rs

-- The same of an address space.
abbrev pub IsDisjoint : Option (List Region) → Type 0
IsDisjoint none = Unit
IsDisjoint (some rs) = Apart rs

-- The test of the code finds every shared address.
overlap-Clear : (r q : Region) → overlap r.start r.end q ≡ false → Clear r q
overlap-Clear r q e addr (lo, hi) (lo', hi') = ground (arith, e, lo, hi, lo', hi')

overlaps-Clear :
    (r : Region) (rs : List Region) → overlaps r.start r.end rs ≡ false → All (Clear r) rs
unfolding overlaps
overlaps-Clear r [] e = tt
overlaps-Clear r (q ∷ rs) e = (overlap-Clear r q (ground arith), overlaps-Clear r rs (ground arith))

-- A call that changes the regions of an address space.
pub data Change : Type 0 where
  add : ℕ → ℕ → ℕ → ℕ → ℕ → Bool → Change
  remove : ℕ → Change

unfoldable pub change : Option (List Region) → Change → Option (List Region)
unfolding vmm_add_region vmm_remove_region
change space (add start end flags type name memory) =
    (vmm_add_region space start end flags type name memory).0
change space (remove start) = vmm_remove_region space start

unfoldable pub changes : Option (List Region) → List Change → Option (List Region)
unfolding change
changes space [] = space
changes space (c ∷ cs) = changes (change space c) cs

add_region-Apart :
    (rs : List Region) (start end flags type name : ℕ) (memory : Bool)
    → Apart rs
    → Apart (add_region rs start end flags type name memory).0
unfolding add_region
add_region-Apart rs start end flags type name memory h =
    elim (Bool-cases (overlaps (page_floor start) (page_ceiling end) rs)) [
      | inl full ↦ rw full h
      | inr room ↦ rw room (added memory room)
    ]
  where
    fresh : Region
    fresh = record {
      start = page_floor start;
      end = page_ceiling end;
      flags = flags;
      type = type;
      name = name;
    }

    added :
        (m : Bool)
        → overlaps (page_floor start) (page_ceiling end) rs ≡ false
        → Apart
            (if◌then◌else◌ {A = List Region × Option Region} m
              (fresh ∷ rs, some fresh)
              (rs, none)).0
    added true room = (overlaps-Clear fresh rs room, h)
    added false room = h

All-remove_region :
    (r : Region) (rs : List Region) (start : ℕ)
    → All (Clear r) rs
    → All (Clear r) (remove_region rs start)
unfolding remove_region
All-remove_region r [] start h = h
All-remove_region r (q ∷ rs) start h = elim (Bool-cases (q.start == start)) [
  | inl here ↦ rw here h.1
  | inr not_here ↦ rw not_here (h.0, All-remove_region r rs start h.1)
]

remove_region-Apart : (rs : List Region) (start : ℕ) → Apart rs → Apart (remove_region rs start)
unfolding remove_region
remove_region-Apart [] start h = h
remove_region-Apart (q ∷ rs) start h = elim (Bool-cases (q.start == start)) [
  | inl here ↦ rw here h.1
  | inr not_here ↦ rw not_here (All-remove_region q rs start h.0, remove_region-Apart rs start h.1)
]

change-IsDisjoint :
    (space : Option (List Region)) (c : Change) → IsDisjoint space → IsDisjoint (change space c)
unfolding change vmm_add_region vmm_remove_region
change-IsDisjoint none (add start end flags type name memory) h = tt
change-IsDisjoint none (remove start) h = tt
change-IsDisjoint (some rs) (add start end flags type name memory) h =
    add_region-Apart rs start end flags type name memory h
change-IsDisjoint (some rs) (remove start) h = remove_region-Apart rs start h

-- Any sequence of vmm_add_region and vmm_remove_region, refused calls included, on an address space
-- in which no address lies in two regions, keeps it so.
pub changes-IsDisjoint :
    (cs : List Change) (space : Option (List Region))
    → IsDisjoint space
    → IsDisjoint (changes space cs)
unfolding changes
changes-IsDisjoint [] space h = h
changes-IsDisjoint (c ∷ cs) space h =
    changes-IsDisjoint cs (change space c) (change-IsDisjoint space c h)
