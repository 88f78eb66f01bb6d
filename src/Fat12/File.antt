-- ===== src/Fat12/File.antt =====
-- fat12_read_file of filesystem/fat12.c.
use uint_os.Common.{
  ℕ, zero, suc, ◌+◌, ◌*◌, ◌-◌, ◌/◌, ◌%◌, ◌^◌, Bool, true, false, not, ◌&&◌, Option, none, some,
  List, ◌==◌, ltb, leb, if◌then◌else◌, get_or, drop, update, bit_and, bit_or,
}
use uint_os.Common.Int.{ℤ, pos, negsuc, ltb_ℤ, pos_part}
use uint_os.Fat12.Disk.{
  Volume, BootSector, DirEntry, sector_size, root_dir_sectors, root_dir_start, read_into,
}
use uint_os.Fat12.Directory.{Search, missing, failed, hit, search, as_int}

-- What the local arrays hold where read_sector copies nothing, and the byte behind `fat_data`: in one
-- round of a loop. C does not say what they hold in the next.
pub record Stack : Type 0 where
  pub directory_data : List ℕ
  pub cluster_data : List ℕ
  pub fat_data : List ℕ
  pub beyond_fat_data : ℕ

-- strncmp(a, b, n) == 0
abbrev pub same_string : ℕ → List ℕ → List ℕ → Bool
same_string zero xs ys = true
same_string (suc n) xs ys =
    let rest = same_string n (drop 1 xs) (drop 1 ys) in
    if not (get_or xs 0 0 == get_or ys 0 0)
    then false
    else if get_or xs 0 0 == 0
    then true
    else rest

-- The sector of a cluster; it is a uint16_t.
abbrev pub cluster_sector : BootSector → ℕ → ℕ
cluster_sector b cluster =
    (root_dir_start b + root_dir_sectors b + (cluster + 2 ^ 16 - 2) * b.sectors_per_cluster)
    % 2 ^ 16

-- The bytes of a FAT sector; the sector is one byte short of what is read.
abbrev pub fat_byte : Stack → List ℕ → ℕ → ℕ
fat_byte u fat_data i = if ltb i sector_size then get_or fat_data i 0 else u.beyond_fat_data

abbrev pub fat_offset : ℕ → ℕ
fat_offset cluster = cluster * 3 / 2 % 2 ^ 16

-- The entry of the FAT for a cluster.
unfoldable pub next_cluster : Stack → Volume → ℕ → ℕ
next_cluster u v cluster =
    let fat_sector = (v.boot_sector.reserved_sectors + fat_offset cluster / sector_size) % 2 ^ 16 in
    let fat_data = read_into v.image fat_sector u.fat_data in
    let low = fat_byte u fat_data (fat_offset cluster % sector_size) in
    let high = fat_byte u fat_data (fat_offset cluster % sector_size + 1) in
    if cluster % 2 == 1
    then bit_or (low / 16) (high * 16)
    else bit_or low (bit_and high 0x0F * 2 ^ 8)

-- The loop that copies bytes of a sector: the rounds left, and j. The buffer is the memory from
-- `buffer` on.
abbrev pub copy_chunk : ℕ → ℕ → ℕ → List ℕ → (ℕ → ℕ) → ℕ → ℕ
copy_chunk zero j bytes_read bytes buffer = buffer
copy_chunk (suc n) j bytes_read bytes buffer =
    copy_chunk n (j + 1) bytes_read bytes (update buffer (bytes_read + j) (get_or bytes j 0))

-- bytes_to_read
abbrev pub chunk : ℕ → ℕ → ℕ
chunk bytes_read limit =
    if ltb limit (bytes_read + sector_size) then limit - bytes_read else sector_size

-- The loop over the clusters, with the rounds left and the local arrays of each round: the buffer
-- and `bytes_read`. `none` where the rounds run out, and where bytes_read + bytes_to_read, a sum of
-- ints, exceeds 2 ^ 31 - 1, for which C gives no result.
unfoldable pub read_clusters : (ℕ → Stack) → Volume → ℕ → ℕ → ℕ → ℕ → (ℕ → ℕ) → Option ((ℕ → ℕ) × ℕ)
unfolding next_cluster
read_clusters u v limit zero cluster bytes_read buffer = none
read_clusters u v limit (suc n) cluster bytes_read buffer =
    let bytes = read_into v.image (cluster_sector v.boot_sector cluster) (u n).cluster_data in
    let to_read = chunk bytes_read limit in
    let rest =
      read_clusters u v limit n (next_cluster (u n) v cluster) (bytes_read + to_read)
        (copy_chunk to_read 0 bytes_read bytes buffer) in
    if not (ltb cluster 0xFF8 && ltb bytes_read limit)
    then some (buffer, bytes_read)
    else if leb (2 ^ 31) (bytes_read + sector_size)
    then none
    else rest

-- max_bytes_to_read; a negative one is as good as 0.
abbrev pub max_bytes : DirEntry → ℤ → ℕ
max_bytes e size = pos_part (if ltb_ℤ (as_int e.file_size) size then as_int e.file_size else size)

-- The results of read_sector at the root directory are not looked at.
abbrev pub unchecked_sector : (ℕ → Stack) → Volume → ℕ → Option (List ℕ)
unchecked_sector u v sector =
    some (read_into v.image (root_dir_start v.boot_sector + sector) (u sector).directory_data)

-- Each round but the last takes a sector or what is left, so this is enough rounds.
unfoldable pub read_found : (ℕ → Stack) → Volume → ℤ → Search → (ℕ → ℕ) → Option ((ℕ → ℕ) × ℤ)
unfolding read_clusters
read_found u v size missing buffer = some (buffer, negsuc 0)
read_found u v size failed buffer = some (buffer, negsuc 0)
read_found u v size (hit e) buffer =
    let limit = max_bytes e size in
    elim (read_clusters u v limit (suc ((limit + 511) / sector_size)) e.first_cluster_low 0
      buffer) [ none ↦ none | some r ↦ some (r.0, pos r.1) ]

unfoldable pub fat12_read_file : (ℕ → Stack) → Volume → List ℕ → ℤ → (ℕ → ℕ) → Option ((ℕ → ℕ) × ℤ)
unfolding read_found search
fat12_read_file u v filename size buffer =
    read_found u v size
      (search (root_dir_sectors v.boot_sector) 0 (unchecked_sector u v)
        (λ name. same_string 11 name filename))
      buffer
