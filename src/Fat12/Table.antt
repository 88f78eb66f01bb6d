-- ===== src/Fat12/Table.antt =====
-- The 12-bit entries of the FAT, as fat12_read_file in filesystem/fat12.c reads them.
use uint_os.Common.{
  ℕ, zero, suc, ◌+◌, ◌*◌, ◌/◌, ◌%◌, ◌^◌, ◌≤◌, ◌<◌, ◌≡◌, ap, ◌∙◌, true, Option, none, some, List, [],
  ◌∷◌, ◌==◌, ltb, if◌then◌else◌, length, get_or, arith, All, bit_or, bit_and, bit_or_step,
  bit_and_step, bit_ext, bit-bit_and, bit-zero,
}
use mathlib.Core.Path.{ap₂}
use Prim.Native.Nat.{bit_or-bitwise}
use uint_os.Fat12.Disk.{Image, Volume, sector_size, bytes_from, read_sector, read_into}
use uint_os.Fat12.File.{Stack, fat_byte, fat_offset, next_cluster}

-- Two entries fill three bytes: the low eight bits of the first, its high four below the low four
-- of the second, and the high eight of the second.
abbrev pub pack : List ℕ → List ℕ
pack [] = []
pack (a ∷ []) = (a % 256) ∷ (a / 256) ∷ []
pack (a ∷ b ∷ rest) = (a % 256) ∷ (a / 256 + b % 16 * 16) ∷ (b / 16) ∷ pack rest

abbrev pub IsEntry : ℕ → Type 0
IsEntry n = n < 2 ^ 12

-- The volume's first FAT holds the entries.
pub record Holds (v : Volume) (entries : List ℕ) : Type 0 where
  pub fit : All IsEntry entries
  pub on_disk : v.boot_sector.reserved_sectors * 512 + length (pack entries) ≤ 2 ^ 20
  pub held :
      (i : ℕ)
      → i < length (pack entries)
      → v.image (v.boot_sector.reserved_sectors * 512 + i) ≡ get_or (pack entries) i 0

-- y, k bits up.
abbrev raised : ℕ → ℕ → ℕ
raised zero y = y
raised (suc k) y = 2 * raised k y

zero_or : (z : ℕ) → bit_or 0 z ≡ z
zero_or z = bit_or-bitwise 0 z

-- Below k bits, `or` is a sum.
or_raised : (k x y : ℕ) → x < 2 ^ k → bit_or x (raised k y) ≡ x + raised k y
or_raised zero zero y lt = omega (arith, zero_or y)
or_raised zero (suc x) y lt = absurd (omega arith)
or_raised (suc k) x y lt =
    bit_or_step x (2 * raised k y)
    ∙ omega (
      arith,
      or_raised k (x / 2) y (omega arith),
      ap (bit_or (x / 2)) {x = 2 * raised k y / 2} {y = raised k y} (omega arith),
    )

or_16 : (x y : ℕ) → x < 16 → bit_or x (y * 16) ≡ x + y * 16
or_16 x y lt =
    omega (arith, or_raised 4 x y lt, ap (bit_or x) {x = y * 16} {y = raised 4 y} (omega arith))

or_256 : (x y : ℕ) → x < 256 → bit_or x (y * 2 ^ 8) ≡ x + y * 2 ^ 8
or_256 x y lt =
    omega (arith, or_raised 8 x y lt, ap (bit_or x) {x = y * 2 ^ 8} {y = raised 8 y} (omega arith))

and_zero : (x : ℕ) → bit_and x 0 ≡ 0
and_zero x = bit_ext (bit_and x 0) 0 (λ k. omega (arith, bit-bit_and x 0 k, bit-zero k))

and_15 : (x : ℕ) → bit_and x 0x0F ≡ x % 16
and_15 x = omega (
  arith,
  bit_and_step x 15,
  bit_and_step (x / 2) 7,
  bit_and_step (x / 2 / 2) 3,
  bit_and_step (x / 2 / 2 / 2) 1,
  and_zero (x / 2 / 2 / 2 / 2),
)

-- Entry n of packed bytes whose own bytes stand at i and j, read without bit operations.
abbrev decode_at : List ℕ → ℕ → ℕ → ℕ → ℕ
decode_at bytes n i j =
    if n % 2 == 1
    then get_or bytes i 0 / 16 + get_or bytes j 0 * 16
    else get_or bytes i 0 + get_or bytes j 0 % 16 * 2 ^ 8

abbrev decode : List ℕ → ℕ → ℕ
decode bytes n = decode_at bytes n (n * 3 / 2) (n * 3 / 2 + 1)

decode_same :
    (bytes : List ℕ) (n i j : ℕ)
    → i ≡ n * 3 / 2
    → j ≡ n * 3 / 2 + 1
    → decode_at bytes n i j ≡ decode bytes n
decode_same bytes n i j p q = ap₂ (decode_at bytes n) p q

three_on :
    (x y z : ℕ) (bytes : List ℕ) (i j : ℕ)
    → i ≡ suc (suc (suc j))
    → get_or (x ∷ y ∷ z ∷ bytes) i 0 ≡ get_or bytes j 0
three_on x y z bytes zero j e = absurd (omega arith)
three_on x y z bytes (suc zero) j e = absurd (omega arith)
three_on x y z bytes (suc (suc zero)) j e = absurd (omega arith)
three_on x y z bytes (suc (suc (suc i))) j e = ap (λ t. get_or bytes t 0) (omega arith)

decode-cons :
    (x y z : ℕ) (bytes : List ℕ) (n : ℕ) → decode (x ∷ y ∷ z ∷ bytes) (suc (suc n)) ≡ decode bytes n
decode-cons x y z bytes n = ground (
  arith,
  three_on x y z bytes (suc (suc n) * 3 / 2) (n * 3 / 2) (omega arith),
  three_on x y z bytes (suc (suc n) * 3 / 2 + 1) (n * 3 / 2 + 1) (omega arith),
)

decode-pack :
    (entries : List ℕ) (n : ℕ)
    → All IsEntry entries
    → n < length entries
    → (decode (pack entries) n ≡ get_or entries n 0) × (n * 3 / 2 + 1 < length (pack entries))
decode-pack [] n h lt = absurd (omega arith)
decode-pack (a ∷ []) zero h lt = (omega (arith, h.0), omega arith)
decode-pack (a ∷ []) (suc n) h lt = absurd (omega arith)
decode-pack (a ∷ b ∷ rest) zero h lt = (omega (arith, h.0), omega arith)
decode-pack (a ∷ b ∷ rest) (suc zero) h lt = (omega (arith, h.0, h.1.0), omega arith)
decode-pack (a ∷ b ∷ rest) (suc (suc n)) h lt =
    let (e, inside) = decode-pack rest n h.1.1 (omega arith) in
    (decode-cons (a % 256) (a / 256 + b % 16 * 16) (b / 16) (pack rest) n ∙ e, omega arith)

get_or-bytes_from :
    (image : Image) (a n i : ℕ) → i < n → get_or (bytes_from image a n) i 0 ≡ image (a + i)
get_or-bytes_from image a zero i lt = absurd (omega arith)
get_or-bytes_from image a (suc n) zero lt = ap image (omega arith)
get_or-bytes_from image a (suc n) (suc i) lt =
    get_or-bytes_from image (a + 1) n i (omega arith) ∙ ap image (omega arith)

read_sector-inside :
    (image : Image) (sector : ℕ)
    → sector * 512 < 2 ^ 20
    → read_sector image sector ≡ some (bytes_from image (sector * 512) 512)
unfolding read_sector
read_sector-inside image sector lt = ground arith

read_into-inside :
    (image : Image) (sector : ℕ) (old : List ℕ)
    → sector * 512 < 2 ^ 20
    → read_into image sector old ≡ bytes_from image (sector * 512) 512
read_into-inside image sector old lt =
    ap (λ (o : Option (List ℕ)). elim o [ none ↦ old | some bytes ↦ bytes ])
      (read_sector-inside image sector lt)

-- A byte of a FAT sector, as the loop reads it.
fat_byte-held :
    (u : Stack) (v : Volume) (entries : List ℕ) (sector i : ℕ)
    → Holds v entries
    → i < sector_size
    → sector * 512 + i < length (pack entries)
    → fat_byte u
        (read_into v.image ((v.boot_sector.reserved_sectors + sector) % 2 ^ 16) u.fat_data)
        i
      ≡ get_or (pack entries) (sector * 512 + i) 0
fat_byte-held u v entries sector i h small inside =
    let at = (v.boot_sector.reserved_sectors + sector) % 2 ^ 16 in
    ap (λ d. fat_byte u d i) (read_into-inside v.image at u.fat_data (omega (arith, h.on_disk)))
    ∙ rw inside_sector (
        get_or-bytes_from v.image (at * 512) 512 i small
        ∙ (ap v.image (omega (arith, h.on_disk)) ∙ h.held (sector * 512 + i) inside))
  where
    inside_sector : ltb i sector_size ≡ true
    inside_sector = ground arith

pack-byte : (entries : List ℕ) (i : ℕ) → All IsEntry entries → get_or (pack entries) i 0 < 256
pack-byte [] i h = omega arith
pack-byte (a ∷ []) zero h = omega arith
pack-byte (a ∷ []) (suc zero) h = omega (arith, h.0)
pack-byte (a ∷ []) (suc (suc i)) h = omega arith
pack-byte (a ∷ b ∷ rest) zero h = omega arith
pack-byte (a ∷ b ∷ rest) (suc zero) h = omega (arith, h.0)
pack-byte (a ∷ b ∷ rest) (suc (suc zero)) h = omega (arith, h.1.0)
pack-byte (a ∷ b ∷ rest) (suc (suc (suc i))) h = pack-byte rest i h.1.1

bit_form :
    (low high n : ℕ)
    → low < 256
    → (if n % 2 == 1 then bit_or (low / 16) (high * 16) else bit_or low (bit_and high 0x0F * 2 ^ 8))
      ≡ (if n % 2 == 1 then low / 16 + high * 16 else low + high % 16 * 2 ^ 8)
bit_form low high n lt =
    ground (arith, or_16 (low / 16) high (omega arith), or_256 low (high % 16) lt, and_15 high)

-- Where the first FAT holds 12-bit entries, packed in three bytes for two of them, fat12_read_file
-- reads each of them as it was, if its two bytes stand in one sector, and its offset, of one and a
-- half bytes for each entry before it, fits 16 bits.
pub next_cluster-pack :
    (u : Stack) (v : Volume) (entries : List ℕ) (n : ℕ)
    → Holds v entries
    → n < length entries
    → n * 3 < 2 ^ 17
    → fat_offset n % sector_size < 511
    → next_cluster u v n ≡ get_or entries n 0
unfolding next_cluster
next_cluster-pack u v entries n h lt fits whole =
    let (e, inside) = decode-pack entries n h.fit lt in
    rw
      (
        fat_byte-held u v entries (fat_offset n / sector_size) (fat_offset n % sector_size) h
            (omega arith) (omega (arith, inside)),
        fat_byte-held u v entries (fat_offset n / sector_size) (fat_offset n % sector_size + 1) h
            (omega arith) (omega (arith, inside)),
        bit_form _ _ n (
            pack-byte entries (fat_offset n / sector_size * 512 + fat_offset n % sector_size)
              h.fit),
      )
      (decode_same (pack entries) n _ _ (omega arith) (omega arith) ∙ e)
