-- ===== src/Vmm/Frames.antt =====
-- The page frames of memory/vmm.c: vmm_init, as far as it concerns them, vmm_alloc_frame,
-- vmm_free_frame.
-- uint32_t values are numbers; where one can wrap, the wrap is written out.
use uint_os.Common.{
  ℕ, zero, suc, ◌+◌, ◌-◌, ◌*◌, ◌/◌, ◌%◌, ◌^◌, Bool, true, false, not, Option, none, some, List, [],
  ◌==◌, ltb, leb, get_or, set, replicate, bit_and, if◌then◌else◌,
}
use uint_os.Common.Int.{ℤ, pos, negsuc}

abbrev pub page_size : ℕ
page_size = 4096

-- `page_frame_t`; PF_ALLOCATED is bit 0 of the flags.
pub record PageFrame : Type 0 where
  pub flags : ℕ
  pub ref_count : ℕ

abbrev pub free_frame : PageFrame
free_frame = record { flags = 0; ref_count = 0 }

abbrev pub allocated_frame : PageFrame
allocated_frame = record { flags = 1; ref_count = 1 }

-- PF_ALLOCATED | PF_LOCKED | PF_KERNEL
abbrev pub kernel_frame : PageFrame
kernel_frame = record { flags = 7; ref_count = 1 }

-- The frame fields of `struct vmm_state`, and stats.free_physical_memory.
pub record Vmm : Type 0 where
  pub page_frames : List PageFrame
  pub num_frames : ℕ
  pub free_frames : ℕ
  pub next_free_frame : ℕ
  pub free_physical_memory : ℕ

abbrev pub u32 : ℕ → ℕ
u32 n = n % 2 ^ 32

abbrev pub is_free : PageFrame → Bool
is_free f = bit_and f.flags 1 == 0

-- The loop of vmm_init that reserves frames: the rounds left, and i.
unfoldable pub reserve : ℕ → ℕ → List PageFrame → List PageFrame
reserve zero i frames = frames
reserve (suc n) i frames = reserve n (i + 1) (set frames i kernel_frame)

-- vmm_init up to the loop that reserves 256 frames, 1 MB; the statistics are still 0.
unfoldable pub init_frames : ℕ → Vmm
unfolding reserve
init_frames mem_size_kb =
    let num = mem_size_kb / (page_size / 1024) in
    record {
      page_frames = reserve 256 0 (replicate num free_frame);
      num_frames = num;
      free_frames = u32 (num + 2 ^ 32 - 256);
      next_free_frame = 256;
      free_physical_memory = 0;
    }

-- The search of vmm_alloc_frame: the rounds left, and i.
unfoldable pub find_frame : ℕ → ℕ → List PageFrame → ℕ → Option ℕ
find_frame zero num frames i = none
find_frame (suc n) num frames i =
    let next = find_frame n num frames ((i + 1) % num) in
    if is_free (get_or frames i free_frame) then some i else next

-- The address of the frame, or 0.
unfoldable pub vmm_alloc_frame : Vmm → Vmm × ℕ
unfolding find_frame
vmm_alloc_frame v =
    if v.free_frames == 0
    then (v, 0)
    else elim (find_frame v.num_frames v.num_frames v.page_frames v.next_free_frame) [
      | none ↦ (v, 0)
      | some i ↦ (
        record v {
          page_frames = set v.page_frames i allocated_frame;
          free_frames = v.free_frames - 1;
          next_free_frame = (i + 1) % v.num_frames;
          free_physical_memory = u32 (v.free_physical_memory + 2 ^ 32 - page_size);
        },
        u32 (i * page_size),
      )
    ]

-- vmm_map_page where the page belongs to the first 4 MB, as far as the frames go: whether the page
-- directory has the table of these pages, before and after.
abbrev pub table_for : Vmm → Bool → Vmm × Bool
table_for v true = (v, true)
table_for v false = let (w, pt_phys) = vmm_alloc_frame v in (w, not (pt_phys == 0))

-- The loop of vmm_init that maps pages, whose results it does not look at: the rounds left.
unfoldable pub identity_map : ℕ → Vmm → Bool → Vmm
identity_map zero v table = v
identity_map (suc n) v table = let (w, t) = table_for v table in identity_map n w t

-- vmm_init behind vmm_create_address_space, which found a structure and asked for a page directory.
abbrev pub kernel_space : Vmm × ℕ → Vmm × ℤ
kernel_space (v, pd_phys) =
    if pd_phys == 0
    then (v, negsuc 0)
    else let w = identity_map 1024 v false in
      (record w { free_physical_memory = u32 (w.free_frames * page_size) }, pos 0)

-- Whether heap_alloc finds the frame array and the structure of an address space. Where it does
-- not find the array, no frame is in it.
unfoldable pub vmm_init : Bool → Bool → ℕ → Vmm × ℤ
vmm_init false space mem_size_kb = (
  record (init_frames mem_size_kb) {
    page_frames = [];
    free_frames = mem_size_kb / (page_size / 1024);
    next_free_frame = 0;
  },
  negsuc 0,
)
vmm_init true false mem_size_kb = (init_frames mem_size_kb, negsuc 0)
vmm_init true true mem_size_kb = kernel_space (vmm_alloc_frame (init_frames mem_size_kb))

-- vmm_free_frame behind its checks, on the frame with that index.
unfoldable pub release_frame : Vmm → ℕ → PageFrame → Vmm
release_frame v idx f =
    let refs = if ltb 0 f.ref_count then f.ref_count - 1 else f.ref_count in
    if refs == 0
    then record v {
      page_frames = set v.page_frames idx (record { flags = 0; ref_count = 0 });
      free_frames = v.free_frames + 1;
      free_physical_memory = u32 (v.free_physical_memory + page_size);
      next_free_frame = if ltb idx v.next_free_frame then idx else v.next_free_frame;
    }
    else record v { page_frames = set v.page_frames idx (record f { ref_count = refs }) }

unfoldable pub vmm_free_frame : Vmm → ℕ → Vmm
unfolding release_frame
vmm_free_frame v frame =
    let idx = frame / page_size in
    if leb v.num_frames idx
    then v
    else if is_free (get_or v.page_frames idx free_frame)
    then v
    else release_frame v idx (get_or v.page_frames idx free_frame)
