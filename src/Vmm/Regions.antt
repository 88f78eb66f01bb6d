-- ===== src/Vmm/Regions.antt =====
-- The memory regions of an address space in memory/vmm.c: vmm_add_region, vmm_remove_region and
-- vmm_find_region. The linked list is a list, newest first; a NULL address space is `none`, a
-- name is a number that stands for the string. heap_alloc is the argument `memory`.
use uint_os.Common.{
  ℕ, ◌+◌, ◌-◌, ◌*◌, ◌/◌, Bool, true, false, ◌&&◌, Option, none, some, List, [], ◌∷◌, ◌==◌, ltb, leb,
  if◌then◌else◌,
}
use uint_os.Vmm.Frames.{page_size, u32}

-- `vm_region_t`
pub record Region : Type 0 where
  pub start : ℕ
  pub end : ℕ
  pub flags : ℕ
  pub type : ℕ
  pub name : ℕ

abbrev pub page_floor : ℕ → ℕ
page_floor a = a / page_size * page_size

abbrev pub page_ceiling : ℕ → ℕ
page_ceiling a = u32 (a + page_size - 1) / page_size * page_size

abbrev pub overlap : ℕ → ℕ → Region → Bool
overlap start end r = ltb start r.end && ltb r.start end

-- The loop of vmm_add_region that looks for an overlap.
unfoldable pub overlaps : ℕ → ℕ → List Region → Bool
overlaps start end [] = false
overlaps start end (r ∷ rs) =
    let rest = overlaps start end rs in if overlap start end r then true else rest

-- vmm_add_region on an address space that is not NULL: the list, and the new region or NULL.
unfoldable pub add_region : List Region → ℕ → ℕ → ℕ → ℕ → ℕ → Bool → List Region × Option Region
unfolding overlaps
add_region regions start end flags type name memory =
    let first = page_floor start in
    let last = page_ceiling end in
    if overlaps first last regions
    then (regions, none)
    else if memory
    then (let new_region : Region = record {
      start = first;
      end = last;
      flags = flags;
      type = type;
      name = name;
    } in
        (new_region ∷ regions, some new_region))
    else (regions, none)

unfoldable pub vmm_add_region :
    Option (List Region) → ℕ → ℕ → ℕ → ℕ → ℕ → Bool → Option (List Region) × Option Region
unfolding add_region
vmm_add_region none start end flags type name memory = (none, none)
vmm_add_region (some regions) start end flags type name memory =
    let (regions', r) = add_region regions start end flags type name memory in (some regions', r)

-- The loop of vmm_remove_region: the list without the first region that starts there.
unfoldable pub remove_region : List Region → ℕ → List Region
remove_region [] start = []
remove_region (r ∷ rs) start =
    let rest = remove_region rs start in if r.start == start then rs else r ∷ rest

unfoldable pub vmm_remove_region : Option (List Region) → ℕ → Option (List Region)
unfolding remove_region
vmm_remove_region none start = none
vmm_remove_region (some regions) start = some (remove_region regions start)

-- The loop of vmm_find_region.
unfoldable pub find_region : List Region → ℕ → Option Region
find_region [] addr = none
find_region (r ∷ rs) addr =
    let rest = find_region rs addr in if leb r.start addr && ltb addr r.end then some r else rest

unfoldable pub vmm_find_region : Option (List Region) → ℕ → Option Region
unfolding find_region
vmm_find_region none addr = none
vmm_find_region (some regions) addr = find_region regions addr
