-- ===== src/Fat12/Contents.antt =====
-- What fat12_read_file of filesystem/fat12.c reads: the bytes of the clusters in a row.
use uint_os.Common.{
  ℕ, zero, suc, ◌+◌, ◌-◌, ◌*◌, ◌/◌, ◌%◌, ◌^◌, ◌≤◌, ◌<◌, ◌≡◌, inl, inr, refl, ap, sym, ◌∙◌, Bool,
  true, false, some, List, [], ◌∷◌, ltb, if◌then◌else◌, length, get_or, arith, All, Bool-cases, min,
}
use mathlib.Core.Path.{subst}
use uint_os.Common.Int.{ℤ, pos, negsuc, ltb_ℤ, pos_part}
use uint_os.Fat12.Disk.{Volume, DirEntry, sector_size, root_dir_sectors}
use uint_os.Fat12.Directory.{hit, search, as_int}
use uint_os.Fat12.Table.{Holds, next_cluster-pack}
use uint_os.Fat12.File.{
  fat_offset, Stack, next_cluster, read_clusters, max_bytes, unchecked_sector, read_found,
  fat12_read_file, same_string,
}
use uint_os.Fat12.Copy.{Writes}
use uint_os.Fat12.Chain.{OnDisk, data_of, clusters, read_clusters_ends, read_clusters-Writes}

-- How many bytes of a file are wanted, by file_size and size, which are ints.
abbrev pub wanted : ℕ → ℤ → ℕ
wanted file_size (pos n) = if ltb file_size (2 ^ 31) then min file_size n else 0
wanted file_size (negsuc n) = 0

read_found-some :
    (u : ℕ → Stack) (v : Volume) (size : ℤ) (e : DirEntry) (buffer after : ℕ → ℕ) (end limit : ℕ)
    → limit ≡ max_bytes e size
    → read_clusters u v limit (suc ((limit + 511) / sector_size)) e.first_cluster_low 0 buffer
      ≡ some (after, end)
    → read_found u v size (hit e) buffer ≡ some (after, pos end)
unfolding read_found
read_found-some u v size e buffer after end limit same r =
    rw
      (
        read_found,
        subst
            (λ l.
              read_clusters u v l (suc ((l + 511) / sector_size)) e.first_cluster_low 0 buffer
              ≡ some (after, end))
            same r,
      )
      refl

max_bytes_lem : (e : DirEntry) (size : ℤ) → max_bytes e size ≡ wanted e.file_size size
max_bytes_lem e (pos n) = at (e.file_size) n
  where
    smaller : (a b : ℕ) → pos_part (if ltb (a + 0) (b + 0) then pos a else pos b) ≡ min a b
    smaller a b = elim (Bool-cases (ltb (a + 0) (b + 0))) [
      | inl less ↦ rw less (ground (arith, less))
      | inr more ↦ rw more (ground (arith, more))
    ]

    below : (n k : ℕ) → ltb 0 (n + suc k) ≡ true
    below n k = ground arith

    at :
        (file_size n : ℕ)
        → pos_part (if ltb_ℤ (as_int file_size) (pos n) then as_int file_size else pos n)
          ≡ wanted file_size (pos n)
    at file_size n = elim (Bool-cases (ltb file_size (2 ^ 31))) [
      | inl small ↦ rw small (smaller file_size n)
      | inr large ↦ rw (large, below n (2 ^ 32 - 1 - file_size)) refl
    ]
max_bytes_lem e (negsuc n) = negative (as_int e.file_size)
  where
    none_below : (a : ℕ) → ltb a 0 ≡ false
    none_below a = ground arith

    either : (b : Bool) (a : ℕ) → pos_part (if b then negsuc a else negsuc n) ≡ 0
    either true a = refl
    either false a = refl

    negative : (x : ℤ) → pos_part (if ltb_ℤ x (negsuc n) then x else negsuc n) ≡ 0
    negative (pos a) = rw (none_below (a + suc n)) refl
    negative (negsuc a) = either (ltb (0 + suc n) (0 + suc a)) a

-- The clusters of a file by the entries of the FAT: from one on, n at most.
unfoldable pub row_of : List ℕ → ℕ → ℕ → List ℕ
row_of entries zero cluster = []
row_of entries (suc n) cluster =
    let rest = row_of entries n (get_or entries cluster 0) in
    if ltb cluster 0xFF8 then cluster ∷ rest else []

-- A cluster of the data area on the disk that has an entry, whose two bytes stand in one sector.
abbrev pub IsReadable : Volume → List ℕ → ℕ → Type 0
IsReadable v entries cluster =
    OnDisk v cluster × ((cluster < length entries) × (cluster * 3 / 2 % 512 < 511))

All-OnDisk :
    (v : Volume) (entries row : List ℕ) → All (IsReadable v entries) row → All (OnDisk v) row
All-OnDisk v entries [] all = tt
All-OnDisk v entries (c ∷ row) all = (all.0.0, All-OnDisk v entries row all.1)

below_end : (cluster : ℕ) → ltb cluster 0xFF8 ≡ true → cluster < 0xFF8
below_end cluster e = ground (arith, e)

clusters-row_of :
    (u : ℕ → Stack) (v : Volume) (entries : List ℕ) (n cluster : ℕ)
    → Holds v entries
    → All (IsReadable v entries) (row_of entries n cluster)
    → clusters u v n cluster ≡ row_of entries n cluster
unfolding clusters row_of
clusters-row_of u v entries zero cluster held = λ all. refl
clusters-row_of u v entries (suc n) cluster held = elim (Bool-cases (ltb cluster 0xFF8)) [
  | inr off ↦ rw off (λ all. refl)
  | inl on ↦ rw on (λ all.
      ap (λ row. cluster ∷ row)
        (ap (clusters u v n) (entry_read (u (suc n)) all.0 (below_end cluster on))
          ∙ clusters-row_of u v entries n (get_or entries cluster 0) held all.1))
]
  where
    same_offset : (c : ℕ) → c < 0xFF8 → c * 3 / 2 % 512 < 511 → fat_offset c % sector_size < 511
    same_offset c small whole = omega arith

    entry_read :
        (locals : Stack)
        → IsReadable v entries cluster
        → cluster < 0xFF8
        → next_cluster locals v cluster ≡ get_or entries cluster 0
    entry_read locals (on_disk, (lt, whole)) small =
        next_cluster-pack locals v entries cluster held lt (omega arith)
          (same_offset cluster small whole)

-- fat12_read_file, for an entry that the search finds, where file_size or `size` is at most 512 below
-- 2^31, ends on every volume, also where the clusters go round in a circle. It returns a number of
-- bytes that neither file_size nor `size` is below, and keeps every byte of the buffer behind them.
pub read_file_ends :
    (u : ℕ → Stack) (v : Volume) (filename : List ℕ) (size : ℤ) (buffer : ℕ → ℕ) (e : DirEntry)
    → search
        (root_dir_sectors v.boot_sector)
        0
        (unchecked_sector u v)
        (λ name. same_string 11 name filename)
      ≡ hit e
    → wanted e.file_size size + 512 ≤ 2 ^ 31
    → (after : ℕ → ℕ) × ((end : ℕ) × ((fat12_read_file u v filename size buffer
            ≡ some (after, pos end))
          × ((end ≤ wanted e.file_size size) × ((k : ℕ) → end ≤ k → after k ≡ buffer k))))
unfolding fat12_read_file
read_file_ends u v filename size buffer e found small =
    let limit = wanted e.file_size size in
    let (after, (end, (r, w))) =
      read_clusters_ends u v limit ((limit + 511) / sector_size) e.first_cluster_low 0 buffer small
        (omega arith) (omega arith) in
    (
      after,
      (
        end,
        (
          rw (fat12_read_file, found)
              (read_found-some u v size e buffer after end limit (sym (max_bytes_lem e size)) r),
          (w.0.1, w.1),
        ),
      ),
    )

-- fat12_read_file, for an entry that the search finds, where file_size or `size` is at most 512 below
-- 2^31. The first FAT holds 12-bit entries, and the file's clusters by them, as many as the bytes
-- wanted need, stand in the data area on the disk and have entries that do not straddle two
-- sectors. Then it writes to the buffer, from its start on, the bytes of the clusters' first sectors in
-- a row, as far as file_size and `size` go, and returns how many; every other byte of the buffer is
-- kept.
pub read_file_lem :
    (u : ℕ → Stack) (v : Volume) (filename : List ℕ) (size : ℤ) (buffer : ℕ → ℕ) (e : DirEntry)
    (entries : List ℕ)
    → search
        (root_dir_sectors v.boot_sector)
        0
        (unchecked_sector u v)
        (λ name. same_string 11 name filename)
      ≡ hit e
    → wanted e.file_size size + 512 ≤ 2 ^ 31
    → Holds v entries
    → All
        (IsReadable v entries)
        (row_of entries ((wanted e.file_size size + 511) / 512) e.first_cluster_low)
    → (after : ℕ → ℕ) × ((end : ℕ) × ((fat12_read_file u v filename size buffer
            ≡ some (after, pos end))
          × Writes 0
              (wanted e.file_size size)
              (data_of v
                (row_of entries ((wanted e.file_size size + 511) / 512) e.first_cluster_low))
              buffer
              after
              end))
unfolding fat12_read_file
read_file_lem u v filename size buffer e entries found small held readable =
    let limit = wanted e.file_size size in
    let n = (limit + 511) / sector_size in
    let same = clusters-row_of u v entries n e.first_cluster_low held readable in
    let on_disk = All-OnDisk v entries (row_of entries n e.first_cluster_low) readable in
    let (after, (end, (r, w))) =
      read_clusters-Writes u v limit n e.first_cluster_low 0 buffer small (omega arith)
        (subst (All (OnDisk v)) (sym same) on_disk) in
    (
      after,
      (
        end,
        (
          rw (fat12_read_file, found)
              (read_found-some u v size e buffer after end limit (sym (max_bytes_lem e size)) r),
          subst (λ row. Writes 0 limit (data_of v row) buffer after end) same w,
        ),
      ),
    )
