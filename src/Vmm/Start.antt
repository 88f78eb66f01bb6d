-- ===== src/Vmm/Start.antt =====
-- The page frames after vmm_init of memory/vmm.c.
use uint_os.Common.{ℕ, ◌+◌, ◌-◌, ◌%◌, ◌^◌, ◌≤◌, ◌≡◌, true, List, length, get_or}
use uint_os.Vmm.Frames.{PageFrame, Vmm, free_frame, is_free, u32}
use uint_os.Vmm.Counts.{count_free}
use uint_os.Vmm.Sound.{alloc_at}

module _ (num : ℕ) (fs : List PageFrame) (low : 258 ≤ num) (high : num ≤ 2 ^ 20)
    (size : length fs ≡ num) (counted : count_free fs + 256 ≡ num)
    (above : (j : ℕ) → 256 ≤ j → is_free (get_or fs j free_frame) ≡ true) where
  abbrev before : Vmm
  before = record {
    page_frames = fs;
    num_frames = num;
    free_frames = u32 (num + 2 ^ 32 - 256);
    next_free_frame = 256;
    free_physical_memory = 0;
  }

  -- With the page directory, and with the page table.
  abbrev with_directory : Vmm
  with_directory = alloc_at before 256

  abbrev with_table : Vmm
  with_table = alloc_at with_directory ((256 + 1) % num)
