-- ===== src/Fat12/Disk.antt =====
-- read_sector and fat12_init of filesystem/fat12.c, and the structures of a volume. A disk is a
-- function from addresses to bytes; a struct is what its bytes say, on a little-endian machine.
use uint_os.Common.{
  ℕ, zero, suc, ◌+◌, ◌-◌, ◌*◌, ◌/◌, ◌%◌, ◌^◌, Option, none, some, List, [], ◌∷◌, leb, if◌then◌else◌,
  get_or, drop, take,
}

abbrev pub sector_size : ℕ
sector_size = 512

abbrev pub Image : Type 0
Image = ℕ → ℕ

-- n bytes from address a on.
abbrev pub bytes_from : Image → ℕ → ℕ → List ℕ
bytes_from image a zero = []
bytes_from image a (suc n) = image a ∷ bytes_from image (a + 1) n

abbrev pub read16 : List ℕ → ℕ → ℕ
read16 bytes i = get_or bytes i 0 + get_or bytes (i + 1) 0 * 2 ^ 8

abbrev pub read32 : List ℕ → ℕ → ℕ
read32 bytes i = read16 bytes i + read16 bytes (i + 2) * 2 ^ 16

-- struct fat12_boot_sector
pub record BootSector : Type 0 where
  pub jump : List ℕ
  pub oem : List ℕ
  pub bytes_per_sector : ℕ
  pub sectors_per_cluster : ℕ
  pub reserved_sectors : ℕ
  pub num_fats : ℕ
  pub root_dir_entries : ℕ
  pub total_sectors : ℕ
  pub media_descriptor : ℕ
  pub sectors_per_fat : ℕ
  pub sectors_per_track : ℕ
  pub num_heads : ℕ
  pub hidden_sectors : ℕ
  pub large_sector_count : ℕ

abbrev pub boot_sector_of : List ℕ → BootSector
boot_sector_of bytes = record {
  jump = take 3 bytes;
  oem = take 8 (drop 3 bytes);
  bytes_per_sector = read16 bytes 11;
  sectors_per_cluster = get_or bytes 13 0;
  reserved_sectors = read16 bytes 14;
  num_fats = get_or bytes 16 0;
  root_dir_entries = read16 bytes 17;
  total_sectors = read16 bytes 19;
  media_descriptor = get_or bytes 21 0;
  sectors_per_fat = read16 bytes 22;
  sectors_per_track = read16 bytes 24;
  num_heads = read16 bytes 26;
  hidden_sectors = read32 bytes 28;
  large_sector_count = read32 bytes 32;
}

-- struct fat12_dir_entry
pub record DirEntry : Type 0 where
  pub name : List ℕ
  pub attr : ℕ
  pub reserved : ℕ
  pub create_time_tenths : ℕ
  pub create_time : ℕ
  pub create_date : ℕ
  pub last_access_date : ℕ
  pub first_cluster_high : ℕ
  pub write_time : ℕ
  pub write_date : ℕ
  pub first_cluster_low : ℕ
  pub file_size : ℕ

abbrev pub dir_entry_size : ℕ
dir_entry_size = 32

abbrev dir_entry_of : List ℕ → DirEntry
dir_entry_of bytes = record {
  name = take 11 bytes;
  attr = get_or bytes 11 0;
  reserved = get_or bytes 12 0;
  create_time_tenths = get_or bytes 13 0;
  create_time = read16 bytes 14;
  create_date = read16 bytes 16;
  last_access_date = read16 bytes 18;
  first_cluster_high = read16 bytes 20;
  write_time = read16 bytes 22;
  write_date = read16 bytes 24;
  first_cluster_low = read16 bytes 26;
  file_size = read32 bytes 28;
}

-- entries[i] of a sector
abbrev pub entry_at : List ℕ → ℕ → DirEntry
entry_at data_bytes i = dir_entry_of (drop (i * dir_entry_size) data_bytes)

abbrev disk_size : ℕ
disk_size = 1024 * 1024

-- The byte offset is computed in 32 bits; `none` for the result 0, where nothing is copied.
unfoldable pub read_sector : Image → ℕ → Option (List ℕ)
read_sector image sector =
    if leb disk_size (sector * 512 % 2 ^ 32)
    then none
    else some (bytes_from image (sector * 512 % 2 ^ 32) 512)

-- What an array holds after read_sector; it keeps what it held when nothing is copied.
abbrev pub read_into : Image → ℕ → List ℕ → List ℕ
read_into image sector old = elim (read_sector image sector) [ none ↦ old | some bytes ↦ bytes ]

-- The disk and the static `boot_sector`.
pub record Volume : Type 0 where
  pub image : Image
  pub boot_sector : BootSector

-- The sector goes to `boot_sector`, whatever its size says. Where the disk has no sector 0 the
-- static keeps its value.
unfoldable pub fat12_init : Volume → Volume
unfolding read_sector
fat12_init v = elim (read_sector v.image 0) [
  | none ↦ v
  | some bytes ↦ record v { boot_sector = boot_sector_of bytes }
]

abbrev pub root_dir_sectors : BootSector → ℕ
root_dir_sectors b = (b.root_dir_entries * 32 + sector_size - 1) / sector_size % 2 ^ 16

abbrev pub root_dir_start : BootSector → ℕ
root_dir_start b = (b.reserved_sectors + b.num_fats * b.sectors_per_fat) % 2 ^ 16
