-- ===== src/Vmm/Laws.antt =====
-- Allocations in a row, and an allocation undone, in the frame allocator of memory/vmm.c.
use uint_os.Common.{
  ℕ, ◌+◌, ◌/◌, ◌≤◌, ◌<◌, ◌≡◌, ◌≢◌, refl, sym, ap, ◌∙◌, true, false, leb, arith, length, get_or, set,
  length-set, get_or-set_self, inl, inr,
}
use uint_os.Vmm.Frames.{
  Vmm, free_frame, allocated_frame, page_size, is_free, vmm_alloc_frame, release_frame,
  vmm_free_frame,
}
use uint_os.Vmm.Sound.{IsSound, Allocates, alloc_frame_lem}

-- Two allocations in a row, with two frames free, give two different addresses.
alloc-alloc_ne :
    (v : Vmm)
    → IsSound v
    → 2 ≤ v.free_frames
    → (vmm_alloc_frame v).1 ≢ (vmm_alloc_frame (vmm_alloc_frame v).0).1
alloc-alloc_ne v ok two same = elim (alloc_frame_lem v ok).1 [
  | inl (none_left, e) ↦ absurd (omega (arith, none_left))
  | inr a ↦ elim (alloc_frame_lem (vmm_alloc_frame v).0 (alloc_frame_lem v ok).0).1 [
    | inl (none_left, e) ↦ absurd (omega (arith, none_left, a.taken))
    | inr b ↦ clash a b (omega (arith, a.address, b.address, same))
  ]
]
  where
    clash :
        (a : Allocates v (vmm_alloc_frame v).0 (vmm_alloc_frame v).1)
        → (b : Allocates
            (vmm_alloc_frame v).0
            (vmm_alloc_frame (vmm_alloc_frame v).0).0
            (vmm_alloc_frame (vmm_alloc_frame v).0).1)
        → a.frame ≡ b.frame
        → ⊥
    clash a b e = ground (arith, still_free)
      where
        still_free : false ≡ true
        still_free =
            sym (
              ap (λ f. is_free f)
                (get_or-set_self v.page_frames a.frame allocated_frame free_frame
                  (omega (arith, a.in_array, ok.all_frames))))
            ∙ (ap (λ fs. is_free (get_or fs a.frame free_frame)) (sym a.marked)
                ∙ (ap (λ i. is_free (get_or (vmm_alloc_frame v).0.page_frames i free_frame)) e
                    ∙ b.was_free))

-- vmm_free_frame on the address of an allocated frame with one reference.
freed_lem :
    (v : Vmm) (frame idx : ℕ)
    → frame / page_size ≡ idx
    → idx < v.num_frames
    → length v.page_frames ≡ v.num_frames
    → get_or v.page_frames idx free_frame ≡ allocated_frame
    → ((vmm_free_frame v frame).free_frames ≡ v.free_frames + 1)
      × ((vmm_free_frame v frame).page_frames ≡ set v.page_frames idx free_frame)
unfolding vmm_free_frame release_frame
freed_lem v frame idx e lt room here = rw (e, inside, here) (refl, refl)
  where
    inside : leb v.num_frames idx ≡ false
    inside = ground arith

-- A frame that was allocated and then is freed is free again, and the counter is what it was.
free_frame-alloc_frame :
    (v : Vmm)
    → IsSound v
    → 0 < v.free_frames
    → ((vmm_free_frame (vmm_alloc_frame v).0 (vmm_alloc_frame v).1).free_frames ≡ v.free_frames)
      × (is_free (
            get_or
              (vmm_free_frame (vmm_alloc_frame v).0 (vmm_alloc_frame v).1).page_frames
              ((vmm_alloc_frame v).1 / page_size)
              allocated_frame)
          ≡ true)
free_frame-alloc_frame v ok left = elim (alloc_frame_lem v ok).1 [
  | inl (none_left, e) ↦ absurd (omega (arith, none_left))
  | inr a ↦ back (alloc_frame_lem v ok).0 a
]
  where
    back :
        IsSound (vmm_alloc_frame v).0
        → Allocates v (vmm_alloc_frame v).0 (vmm_alloc_frame v).1
        → ((vmm_free_frame (vmm_alloc_frame v).0 (vmm_alloc_frame v).1).free_frames ≡ v.free_frames)
          × (is_free (
                get_or
                  (vmm_free_frame (vmm_alloc_frame v).0 (vmm_alloc_frame v).1).page_frames
                  ((vmm_alloc_frame v).1 / page_size)
                  allocated_frame)
              ≡ true)
    back ok' a = (
      omega (arith, freed.0, a.taken),
      ap (λ fs. is_free (get_or fs ((vmm_alloc_frame v).1 / page_size) allocated_frame)) freed.1
          ∙ (ap
                (λ i. is_free (
                  get_or (set (vmm_alloc_frame v).0.page_frames a.frame free_frame) i
                    allocated_frame))
                index
              ∙ ap (λ f. is_free f)
                  (get_or-set_self (vmm_alloc_frame v).0.page_frames a.frame free_frame
                    allocated_frame long)),
    )
      where
        index : (vmm_alloc_frame v).1 / page_size ≡ a.frame
        index = omega (arith, a.address)

        size : length (vmm_alloc_frame v).0.page_frames ≡ v.num_frames
        size =
            ap (λ fs. length fs) a.marked
            ∙ (length-set v.page_frames a.frame allocated_frame ∙ ok.all_frames)

        long : a.frame < length (vmm_alloc_frame v).0.page_frames
        long = omega (arith, size, a.in_array)

        freed :
            ((vmm_free_frame (vmm_alloc_frame v).0 (vmm_alloc_frame v).1).free_frames
              ≡ (vmm_alloc_frame v).0.free_frames + 1)
            × ((vmm_free_frame (vmm_alloc_frame v).0 (vmm_alloc_frame v).1).page_frames
                ≡ set (vmm_alloc_frame v).0.page_frames a.frame free_frame)
        freed =
            freed_lem (vmm_alloc_frame v).0 (vmm_alloc_frame v).1 a.frame index
              (omega (arith, ok'.all_frames, long)) ok'.all_frames
              (ap (λ fs. get_or fs a.frame free_frame) a.marked
                ∙ get_or-set_self v.page_frames a.frame allocated_frame free_frame
                    (omega (arith, a.in_array, ok.all_frames)))
