-- ===== src/Vmm/Sound.antt =====
-- The bookkeeping of the frame allocator of memory/vmm.c, and what an allocated frame is.
use uint_os.Common.{
  ℕ, ◌+◌, ◌-◌, ◌*◌, ◌/◌, ◌%◌, ◌^◌, ◌≤◌, ◌<◌, ◌≡◌, ◌⊎◌, refl, ◌∙◌, true, false, ◌==◌, ltb, leb,
  arith, length, get_or, set, length-set, Bool-cases, Option-cases, if◌then◌else◌, inl, inr,
}
use uint_os.Vmm.Frames.{
  PageFrame, Vmm, free_frame, allocated_frame, page_size, is_free, u32, find_frame, vmm_alloc_frame,
  release_frame, vmm_free_frame,
}
use uint_os.Vmm.Counts.{count_free, weight, count_free-set, find_frame-free, find_frame-all}

-- The frame array has num_frames entries, the counter of free frames is the number of entries
-- whose PF_ALLOCATED bit is clear, the statistics agree with it, and the hint is in range.
pub record IsSound (v : Vmm) : Type 0 where
  pub in_memory : v.num_frames ≤ 2 ^ 20
  pub all_frames : length v.page_frames ≡ v.num_frames
  pub counted : v.free_frames ≡ count_free v.page_frames
  pub in_range : v.next_free_frame < v.num_frames
  pub accounted : v.free_physical_memory ≡ u32 (v.free_frames * page_size)

-- v' is v after it gave out the frame i at the address addr: i was free and now is allocated with
-- one reference, no other frame changes, and one less is free.
pub record Allocates (v v' : Vmm) (addr : ℕ) : Type 0 where
  pub frame : ℕ
  pub in_array : frame < v.num_frames
  pub was_free : is_free (get_or v.page_frames frame free_frame) ≡ true
  pub address : addr ≡ frame * page_size
  pub marked : v'.page_frames ≡ set v.page_frames frame allocated_frame
  pub taken : v'.free_frames + 1 ≡ v.free_frames

-- The state after the allocation of the frame i.
abbrev pub alloc_at : Vmm → ℕ → Vmm
alloc_at v i = record v {
  page_frames = set v.page_frames i allocated_frame;
  free_frames = v.free_frames - 1;
  next_free_frame = (i + 1) % v.num_frames;
  free_physical_memory = u32 (v.free_physical_memory + 2 ^ 32 - page_size);
}

-- vmm_alloc_frame, on sound bookkeeping: it returns 0 and changes nothing exactly when no frame is
-- free, and else returns the address of a frame that was free and that it allocated.
-- The bookkeeping stays sound.
pub alloc_frame_lem :
    (v : Vmm)
    → IsSound v
    → IsSound (vmm_alloc_frame v).0
      × (((v.free_frames ≡ 0) × (vmm_alloc_frame v ≡ (v, 0)))
          ⊎ Allocates v (vmm_alloc_frame v).0 (vmm_alloc_frame v).1)
unfolding vmm_alloc_frame
alloc_frame_lem v ok = elim (Bool-cases (v.free_frames == 0)) [
  | inl full ↦ rw full (ok, inl (ground (arith, full), refl))
  | inr some_left ↦
      elim (Option-cases (find_frame v.num_frames v.num_frames v.page_frames v.next_free_frame)) [
        | inl e ↦ absurd (
            ground (
              arith,
              some_left,
              ok.counted,
              find_frame-all v.num_frames v.page_frames v.next_free_frame ok.in_range ok.all_frames
                  e,
            ))
        | inr (i, e) ↦
            rw (some_left, e)
              (given i (ground (arith, some_left)) (
                find_frame-free v.num_frames v.page_frames v.num_frames v.next_free_frame i
                  ok.in_range e))
      ]
]
  where
    given :
        (i : ℕ)
        → 0 < v.free_frames
        → (i < v.num_frames) × (is_free (get_or v.page_frames i free_frame) ≡ true)
        → IsSound (alloc_at v i)
          × (((v.free_frames ≡ 0) × ◌≡◌ {A = Vmm × ℕ} (alloc_at v i, u32 (i * page_size)) (v, 0))
              ⊎ Allocates v (alloc_at v i) (u32 (i * page_size)))
    given i left (lt, was_free) = (
      record {
        in_memory = ok.in_memory;
        all_frames = length-set v.page_frames i allocated_frame ∙ ok.all_frames;
        counted = ground (arith, was_free, ok.counted, less);
        in_range = omega (arith, ok.in_range);
        accounted = omega (arith, ok.accounted);
      },
      inr (record {
        frame = i;
        in_array = lt;
        was_free = was_free;
        address = omega (arith, ok.in_memory);
        marked = refl;
        taken = omega arith;
      }),
    )
      where
        less :
            count_free (set v.page_frames i allocated_frame)
              + weight (get_or v.page_frames i free_frame)
            ≡ count_free v.page_frames + 0
        less = count_free-set v.page_frames i allocated_frame (omega (arith, ok.all_frames))

abbrev taken_at : Vmm → ℕ → PageFrame
taken_at v idx = get_or v.page_frames idx free_frame

-- The references of a frame that gives one back.
abbrev refs_left : PageFrame → ℕ
refs_left f = if ltb 0 f.ref_count then f.ref_count - 1 else f.ref_count

-- A frame given back behind the checks.
release_frame-IsSound :
    (v : Vmm)
    → IsSound v
    → (idx : ℕ) → idx < v.num_frames
    → is_free (get_or v.page_frames idx free_frame) ≡ false
    → IsSound (release_frame v idx (get_or v.page_frames idx free_frame))
unfolding release_frame
release_frame-IsSound v ok idx lt was_taken = elim (Bool-cases (refs_left (taken_at v idx) == 0)) [
  | inl last ↦ rw last (record {
    in_memory = ok.in_memory;
    all_frames = length-set v.page_frames idx free_frame ∙ ok.all_frames;
    counted = ground (arith, was_taken, ok.counted, more);
    in_range = ground (arith, ok.in_range, lt);
    accounted = omega (arith, ok.accounted);
  })
  | inr more_left ↦ rw more_left (record {
    in_memory = ok.in_memory;
    all_frames =
        length-set v.page_frames idx
          (record (taken_at v idx) { ref_count = refs_left (taken_at v idx) })
        ∙ ok.all_frames;
    counted = ground (arith, was_taken, ok.counted, same);
    in_range = ok.in_range;
    accounted = ok.accounted;
  })
]
  where
    more :
        count_free (set v.page_frames idx free_frame) + weight (taken_at v idx)
        ≡ count_free v.page_frames + 1
    more = count_free-set v.page_frames idx free_frame (omega (arith, ok.all_frames))

    same :
        count_free (
            set v.page_frames idx
              (record (taken_at v idx) { ref_count = refs_left (taken_at v idx) }))
          + weight (taken_at v idx)
        ≡ count_free v.page_frames + weight (taken_at v idx)
    same =
        count_free-set v.page_frames idx
          (record (taken_at v idx) { ref_count = refs_left (taken_at v idx) })
          (omega (arith, ok.all_frames))

-- vmm_free_frame keeps the bookkeeping sound, whatever address it is given.
pub free_frame-IsSound : (v : Vmm) → IsSound v → (frame : ℕ) → IsSound (vmm_free_frame v frame)
unfolding vmm_free_frame
free_frame-IsSound v ok frame = elim (Bool-cases (leb v.num_frames (frame / page_size))) [
  | inl out ↦ rw out ok
  | inr inside ↦ elim (Bool-cases (is_free (get_or v.page_frames (frame / page_size) free_frame))) [
    | inl already ↦ rw (inside, already) ok
    | inr was_taken ↦
        rw (inside, was_taken)
          (release_frame-IsSound v ok (frame / page_size) (ground (arith, inside)) was_taken)
  ]
]
