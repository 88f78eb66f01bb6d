-- ===== src/Vmm/Tests.antt =====
-- The theorems on the frames and regions of memory/vmm.c at small machines and address spaces.
use uint_os.Common.{◌≡◌, ◌⊎◌, refl, true, [], arith}
use uint_os.Common.{some, List, ◌∷◌, ◌↔◌, Some}
use uint_os.Vmm.Regions.{Region, find_region}
use uint_os.Vmm.Disjoint.{Contains, Change, add, remove, changes, IsDisjoint, changes-IsDisjoint}
use uint_os.Vmm.Lookup.{find_region_iff}
use uint_os.Vmm.Frames.{Vmm, free_frame, kernel_frame, vmm_alloc_frame, vmm_free_frame}
use uint_os.Vmm.Sound.{IsSound, Allocates, alloc_frame_lem, free_frame-IsSound}

abbrev small : Vmm
small = record {
  page_frames = kernel_frame ∷ free_frame ∷ free_frame ∷ [];
  num_frames = 3;
  free_frames = 2;
  next_free_frame = 2;
  free_physical_memory = 8192;
}

small-IsSound : IsSound small
small-IsSound = record {
  in_memory = omega arith;
  all_frames = refl;
  counted = refl;
  in_range = omega arith;
  accounted = refl;
}

alloc_frame_lem_example :
    IsSound (vmm_alloc_frame small).0
    × (((small.free_frames ≡ 0) × (vmm_alloc_frame small ≡ (small, 0)))
        ⊎ Allocates small (vmm_alloc_frame small).0 (vmm_alloc_frame small).1)
alloc_frame_lem_example = alloc_frame_lem small small-IsSound

free_frame-IsSound_example : IsSound (vmm_free_frame small 8192)
free_frame-IsSound_example = free_frame-IsSound small small-IsSound 8192

-- The kernel's region, one that meets it, one behind it; then the kernel's is removed.
abbrev history : List Change
history =
    add 0 4194304 7 1 1 true
    ∷ add 4096 8192 3 2 2 true
    ∷ add 4194305 4200000 3 2 3 true
    ∷ remove 0
    ∷ []

changes-IsDisjoint_example : IsDisjoint (changes (some []) history)
changes-IsDisjoint_example = changes-IsDisjoint history (some []) tt

abbrev code_region : Region
code_region = record { start = 4096; end = 8192; flags = 5; type = 1; name = 1 }

abbrev stack_region : Region
stack_region = record { start = 16384; end = 20480; flags = 3; type = 2; name = 2 }

find_region_iff_example :
    (find_region (code_region ∷ stack_region ∷ []) 16400 ≡ some stack_region)
    ↔ (Some (λ q. q ≡ stack_region) (code_region ∷ stack_region ∷ []) × Contains 16400 stack_region)
find_region_iff_example =
    find_region_iff (code_region ∷ stack_region ∷ []) 16400 stack_region
      ((λ a c d. omega arith, tt), (tt, tt))
