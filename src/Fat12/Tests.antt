-- ===== src/Fat12/Tests.antt =====
-- The theorems on filesystem/fat12.c at the disk that read_sector makes, with a root directory of
-- one sector.
use uint_os.Common.{
  ℕ, ◌+◌, ◌-◌, ◌*◌, ◌≢◌, zero, suc, All, ap, ◌≡◌, ◌≤◌, ◌<◌, refl, none, some, List, [], ◌∷◌, map,
  take, length, arith, get_or,
}
use uint_os.Common.Int.{pos, negsuc}
use uint_os.Fat12.Disk.{
  Volume, BootSector, DirEntry, boot_sector_of, bytes_from, read_sector, entry_at,
}
use uint_os.Fat12.Image.{disk_image, put}
use uint_os.Fat12.Directory.{
  fat12_file_exists, fat12_get_file_size, fat12_list_directory, file_name, file_entry, fat_name,
  root_sector, search, hit,
}
use uint_os.Fat12.File.{fat12_read_file, Stack, next_cluster, same_string, unchecked_sector}
use uint_os.Fat12.Names.{IsShort, padded, fat_name-file_name}
use uint_os.Fat12.Listing.{Reads, done, next, listing, list_directory_lem}
use uint_os.Fat12.Lookup.{printed_name_found, printed_name_unread}
use uint_os.Fat12.Copy.{Writes}
use uint_os.Fat12.Chain.{data_of}
use uint_os.Fat12.Contents.{row_of, read_file_ends, read_file_lem}
use uint_os.Fat12.Table.{Holds, pack, next_cluster-pack}

abbrev boot : BootSector
boot = record (boot_sector_of (bytes_from disk_image 0 512)) { root_dir_entries = 16 }

abbrev volume : Volume
volume = record { image = disk_image; boot_sector = boot }

-- What the arrays hold at first is different in every round.
abbrev locals : ℕ → Stack
locals n = record { directory_data = []; cluster_data = n ∷ []; fat_data = []; beyond_fat_data = n }

abbrev sectors : List (List ℕ)
sectors = bytes_from disk_image (19 * 512) 512 ∷ []

sectors-Reads : Reads (root_sector volume) 0 1 sectors
unfolding read_sector
sectors-Reads = next refl done

abbrev readme : List ℕ
readme = 82 ∷ 69 ∷ 65 ∷ 68 ∷ 77 ∷ 69 ∷ []

abbrev txt : List ℕ
txt = 84 ∷ 88 ∷ 84 ∷ []

readme-IsShort : IsShort readme 2 txt 0
readme-IsShort = record {
  stem_chars = ground arith;
  ext_chars = ground arith;
  stem_fits = refl;
  ext_fits = refl;
}

fat_name-file_name_example : fat_name (file_name (padded readme 2 txt 0)) ≡ padded readme 2 txt 0
fat_name-file_name_example = fat_name-file_name readme 2 txt 0 readme-IsShort

list_directory_lem_example : fat12_list_directory volume none (pos 2) ≡ (
  take 2 (map file_entry (listing sectors)),
  pos (length (take 2 (map file_entry (listing sectors)))),
)
list_directory_lem_example = list_directory_lem volume none (pos 2) refl sectors-Reads

abbrev disk_entry : ℕ → DirEntry
disk_entry i = entry_at (bytes_from disk_image (19 * 512) 512) i

printed_name_found_example :
    (fat12_file_exists volume (file_name (disk_entry 0).name) ≡ pos 1)
    × (fat12_get_file_size volume (file_name (disk_entry 0).name) ≡ pos 37)
printed_name_found_example =
    printed_name_found volume [] (disk_entry 1 ∷ disk_entry 2 ∷ disk_entry 3 ∷ []) (disk_entry 0)
      sectors-Reads refl tt readme-IsShort refl

plain_at :
    (xs : List ℕ)
    → All (λ c. (c ≢ 0) × (c ≢ 46)) xs
    → (k : ℕ) → k < length xs
    → (get_or xs k 0 ≢ 0) × (get_or xs k 0 ≢ 46)
plain_at [] h k lt = absurd (omega arith)
plain_at (x ∷ xs) h zero lt = h.0
plain_at (x ∷ xs) h (suc k) lt = plain_at xs h.1 k (omega arith)

printed_name_unread_example :
    fat12_read_file locals volume (file_name (padded readme 2 txt 0)) (pos 100) (λ x. 7)
    ≡ some ((λ x. 7), negsuc 0)
printed_name_unread_example =
    printed_name_unread locals volume (pos 100) (λ x. 7) sectors-Reads
      (
        plain_at (disk_entry 0).name (ground arith),
        (
          plain_at (disk_entry 1).name (ground arith),
          (
            plain_at (disk_entry 2).name (ground arith),
            (plain_at (disk_entry 3).name (ground arith), tt),
          ),
        ),
      )
      readme-IsShort

found :
    search 1 0
      (unchecked_sector locals volume)
      (λ name. same_string 11 name (padded readme 2 txt 0))
    ≡ hit (disk_entry 0)
unfolding search read_sector
found = refl

read_file_ends_example :
    (after : ℕ → ℕ) × ((end : ℕ) × ((fat12_read_file locals volume
            (padded readme 2 txt 0)
            (pos 10)
            (λ x. 7)
          ≡ some (after, pos end))
        × ((end ≤ 10) × ((k : ℕ) → end ≤ k → after k ≡ 7))))
read_file_ends_example =
    read_file_ends locals volume (padded readme 2 txt 0) (pos 10) (λ x. 7) (disk_entry 0) found
      (omega arith)

-- The first entries of its FAT.
abbrev first_entries : List ℕ
first_entries = 0xFF0 ∷ 0xFFF ∷ 0 ∷ 0 ∷ []

first_entries-Holds : Holds volume first_entries
first_entries-Holds = record { fit = ground arith; on_disk = omega arith; held = at }
  where
    at : (i : ℕ) → i < 6 → disk_image (512 + i) ≡ get_or (pack first_entries) i 0
    at zero lt = refl
    at (suc zero) lt = refl
    at (suc (suc zero)) lt = refl
    at (suc (suc (suc zero))) lt = refl
    at (suc (suc (suc (suc zero)))) lt = refl
    at (suc (suc (suc (suc (suc zero))))) lt = refl
    at (suc (suc (suc (suc (suc (suc i)))))) lt = absurd (omega arith)

read_file_lem_example :
    (after : ℕ → ℕ) × ((end : ℕ) × ((fat12_read_file locals volume
            (padded readme 2 txt 0)
            (pos 10)
            (λ x. 7)
          ≡ some (after, pos end))
        × Writes 0 10 (data_of volume (row_of first_entries 1 2)) (λ x. 7) after end))
unfolding row_of
read_file_lem_example =
    read_file_lem locals volume (padded readme 2 txt 0) (pos 10) (λ x. 7) (disk_entry 0)
      first_entries found (omega arith) first_entries-Holds
      (((omega arith, omega arith), (omega arith, omega arith)), tt)

put-inside :
    (a : ℕ) (bytes : List ℕ) (image : ℕ → ℕ) (i : ℕ)
    → i < length bytes
    → put a bytes image (a + i) ≡ get_or bytes i 0
put-inside a bytes image i lt =
    ground (arith, ap (λ t. get_or bytes t 0) {x = a + i - a} {y = i} (omega arith))

abbrev entries : List ℕ
entries = 0xFF0 ∷ 0xFFF ∷ 3 ∷ 0xFFF ∷ []

abbrev packed : Volume
packed = record { image = put 512 (pack entries) (λ x. 0); boot_sector = boot }

packed-Holds : Holds packed entries
packed-Holds = record {
  fit = ground arith;
  on_disk = omega arith;
  held = put-inside 512 (pack entries) (λ x. 0);
}

next_cluster-pack_example : next_cluster (locals 0) packed 2 ≡ 3
next_cluster-pack_example =
    next_cluster-pack (locals 0) packed entries 2 packed-Holds (omega arith) (omega arith)
      (omega arith)
