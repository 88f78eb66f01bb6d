-- ===== src/Fat12/Directory.antt =====
-- fat12_list_directory, fat12_file_exists and fat12_get_file_size of filesystem/fat12.c.
use uint_os.Common.{
  ℕ, zero, suc, ◌+◌, ◌-◌, ◌^◌, Bool, true, false, not, ◌&&◌, ◌||◌, Option, none, some, List, [],
  ◌∷◌, ◌++◌, ◌==◌, ltb, if◌then◌else◌, length, get_or, set, drop, replicate,
}
use uint_os.Common.Int.{ℤ, pos, negsuc, ltb_ℤ, ◌==ℤ◌}
use uint_os.Fat12.Disk.{Volume, DirEntry, entry_at, root_dir_sectors, root_dir_start, read_sector}

-- FAT12_ERR_NOT_FOUND, FAT12_ERR_IO_ERROR and FAT12_ERR_INVALID_ARG
abbrev pub not_found_error : ℤ
not_found_error = negsuc 0

abbrev pub io_error : ℤ
io_error = negsuc 3

abbrev pub invalid_arg_error : ℤ
invalid_arg_error = negsuc 4

-- A 32-bit pattern or a byte, read as an int or as a char, which is signed on x86.
abbrev pub as_int : ℕ → ℤ
as_int n = if ltb n (2 ^ 31) then pos n else negsuc (2 ^ 32 - 1 - n)

abbrev pub as_char : ℕ → ℤ
as_char n = if ltb n 128 then pos n else negsuc (255 - n)

abbrev pub first_byte : DirEntry → ℕ
first_byte e = get_or e.name 0 0

-- name[0] == 0x00, and name[0] == 0xE5
abbrev pub ends_directory : DirEntry → Bool
ends_directory e = as_char (first_byte e) ==ℤ pos 0

abbrev pub is_deleted : DirEntry → Bool
is_deleted e = as_char (first_byte e) ==ℤ pos 0xE5

-- fat12_file_entry_t; the name is what stands before the final NUL.
pub record FileEntry : Type 0 where
  pub name : List ℕ
  pub attributes : ℕ
  pub size : ℕ
  pub cluster : ℕ
  pub create_date : ℕ
  pub create_time : ℕ
  pub last_access_date : ℕ
  pub last_modified_date : ℕ
  pub last_modified_time : ℕ

-- At most n characters, up to a space.
abbrev pub up_to_space : ℕ → List ℕ → List ℕ
up_to_space zero xs = []
up_to_space (suc n) [] = []
up_to_space (suc n) (x ∷ xs) = let rest = up_to_space n xs in if x == 32 then [] else x ∷ rest

-- The 8.3 form as filename.ext.
unfoldable pub file_name : List ℕ → List ℕ
file_name name =
    if get_or name 8 0 == 32
    then up_to_space 8 name
    else up_to_space 8 name ++ (46 ∷ up_to_space 3 (drop 8 name))

abbrev pub file_entry : DirEntry → FileEntry
file_entry e = record {
  name = file_name e.name;
  attributes = e.attr;
  size = e.file_size;
  cluster = e.first_cluster_low;
  create_date = e.create_date;
  create_time = e.create_time;
  last_access_date = e.last_access_date;
  last_modified_date = e.write_date;
  last_modified_time = e.write_time;
}

-- The loop over the entries of a sector: the rounds left, and i. `found` is what `entries` holds.
unfoldable pub list_sector : ℕ → ℕ → List ℕ → ℤ → List FileEntry → List FileEntry
list_sector zero i data_bytes max_entries found = found
list_sector (suc n) i data_bytes max_entries found =
    let e = entry_at data_bytes i in
    let skipped = list_sector n (i + 1) data_bytes max_entries found in
    let listed = list_sector n (i + 1) data_bytes max_entries (found ++ (file_entry e ∷ [])) in
    if not (ltb_ℤ (pos (length found)) max_entries)
    then found
    else if ends_directory e
    then found
    else if is_deleted e
    then skipped
    else listed

-- The loop over the sectors: the rounds left, and `sector`. The entries written, and the result.
unfoldable pub list_sectors : ℕ → ℕ → Volume → ℤ → List FileEntry → List FileEntry × ℤ
unfolding list_sector
list_sectors zero sector v max_entries found = (found, pos (length found))
list_sectors (suc n) sector v max_entries found =
    if not (ltb_ℤ (pos (length found)) max_entries)
    then (found, pos (length found))
    else elim (read_sector v.image (root_dir_start v.boot_sector + sector)) [
      | none ↦ (found, io_error)
      | some data_bytes ↦
          list_sectors n (sector + 1) v max_entries (list_sector 16 0 data_bytes max_entries found)
    ]

-- The path, `none` for NULL, is a string with a 0 at its end.
abbrev pub is_refused : Option (List ℕ) → Bool
is_refused none = false
is_refused (some path) =
    not (get_or path 0 0 == 0) && (not (get_or path 0 0 == 47) && not (get_or path 1 0 == 0))

unfoldable pub fat12_list_directory : Volume → Option (List ℕ) → ℤ → List FileEntry × ℤ
unfolding list_sectors
fat12_list_directory v path max_entries =
    if is_refused path
    then ([], invalid_arg_error)
    else list_sectors (root_dir_sectors v.boot_sector) 0 v max_entries []

-- A file name as a string ends at its first 0 or with the list. The loop over the base: the rounds
-- left, i, and filename + i; what is left of the name comes second.
abbrev pub ends_base : ℕ → Bool
ends_base c = (c == 0) || (c == 46)

abbrev pub copy_base : ℕ → ℕ → List ℕ → List ℕ → List ℕ × List ℕ
copy_base zero i name fat = (fat, name)
copy_base (suc n) i [] fat = (fat, [])
copy_base (suc n) i (c ∷ name) fat =
    let rest = copy_base n (i + 1) name (set fat i c) in
    if ends_base c then (fat, c ∷ name) else rest

abbrev pub skip_to_dot : List ℕ → List ℕ
skip_to_dot [] = []
skip_to_dot (c ∷ name) = let rest = skip_to_dot name in if ends_base c then c ∷ name else rest

abbrev pub copy_extension : ℕ → ℕ → List ℕ → List ℕ → List ℕ
copy_extension zero j name fat = fat
copy_extension (suc n) j [] fat = fat
copy_extension (suc n) j (c ∷ name) fat =
    let rest = copy_extension n (j + 1) name (set fat (8 + j) c) in if c == 0 then fat else rest

abbrev pub parse_extension : List ℕ → List ℕ → List ℕ
parse_extension [] fat = fat
parse_extension (c ∷ name) fat = if c == 46 then copy_extension 3 0 name fat else fat

-- fat_filename
unfoldable pub fat_name : List ℕ → List ℕ
fat_name filename =
    let parsed = copy_base 8 0 filename (replicate 11 32) in
    parse_extension (skip_to_dot parsed.1) parsed.0

-- The loop that compares n characters.
abbrev pub same_name : ℕ → List ℕ → List ℕ → Bool
same_name zero xs ys = true
same_name (suc n) xs ys =
    let rest = same_name n (drop 1 xs) (drop 1 ys) in
    if not (get_or xs 0 0 == get_or ys 0 0) then false else rest

-- How a search of the root directory ends.
pub data Search : Type 0 where
  missing : Search
  failed : Search
  hit : DirEntry → Search

-- The loop over the entries of a sector: the rounds left, and i. `none` goes on to the next sector.
unfoldable pub search_sector : ℕ → ℕ → List ℕ → (List ℕ → Bool) → Option Search
search_sector zero i data_bytes test = none
search_sector (suc n) i data_bytes test =
    let e = entry_at data_bytes i in
    let rest = search_sector n (i + 1) data_bytes test in
    if ends_directory e
    then some missing
    else if not (is_deleted e) && test e.name
    then some (hit e)
    else rest

-- The loop over the sectors: the rounds left, and `sector`. `read` is read_sector at the sectors of
-- the root directory.
unfoldable pub search : ℕ → ℕ → (ℕ → Option (List ℕ)) → (List ℕ → Bool) → Search
unfolding search_sector
search zero sector read test = missing
search (suc n) sector read test = elim (read sector) [
  | none ↦ failed
  | some data_bytes ↦ elim (search_sector 16 0 data_bytes test) [
    | none ↦ search n (sector + 1) read test
    | some ended ↦ ended
  ]
]

abbrev pub root_sector : Volume → ℕ → Option (List ℕ)
root_sector v sector = read_sector v.image (root_dir_start v.boot_sector + sector)

unfoldable pub find_named : Volume → List ℕ → Search
unfolding search
find_named v filename =
    search (root_dir_sectors v.boot_sector) 0 (root_sector v) (same_name 11 (fat_name filename))

unfoldable pub fat12_file_exists : Volume → List ℕ → ℤ
unfolding find_named
fat12_file_exists v filename = elim (find_named v filename) [
  | missing ↦ pos 0
  | failed ↦ io_error
  | hit e ↦ pos 1
]

unfoldable pub fat12_get_file_size : Volume → List ℕ → ℤ
unfolding find_named
fat12_get_file_size v filename = elim (find_named v filename) [
  | missing ↦ not_found_error
  | failed ↦ io_error
  | hit e ↦ as_int e.file_size
]
