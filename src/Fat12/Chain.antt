-- ===== src/Fat12/Chain.antt =====
-- The loop of fat12_read_file in filesystem/fat12.c over the clusters of a file.
use uint_os.Common.{
  ℕ, zero, suc, ◌+◌, ◌-◌, ◌*◌, ◌/◌, ◌%◌, ◌^◌, ◌≤◌, ◌<◌, ◌≡◌, inl, inr, refl, ap, ◌∙◌, Bool, true,
  false, some, List, [], ◌∷◌, ◌++◌, ltb, leb, if◌then◌else◌, length, arith, All, ◌&&◌, Bool-cases,
}
use mathlib.Core.Path.{subst}
use native.Mathlib.Nat.{native_laws}
use uint_os.Fat12.Disk.{Image, BootSector, Volume, sector_size, bytes_from, read_sector, read_into}
use uint_os.Fat12.File.{Stack, cluster_sector, next_cluster, copy_chunk, chunk, read_clusters}
use uint_os.Fat12.Copy.{Writes, Writes-none, Writes-chunk, copy_chunk_kept}

-- The clusters from one on, n at most; a number from 0xFF8 on ends the row.
unfoldable pub clusters : (ℕ → Stack) → Volume → ℕ → ℕ → List ℕ
unfolding next_cluster
clusters u v zero cluster = []
clusters u v (suc n) cluster =
    let rest = clusters u v n (next_cluster (u (suc n)) v cluster) in
    if ltb cluster 0xFF8 then cluster ∷ rest else []

-- The volume's layout: the reserved sectors, the FATs, the root directory, and the clusters, which
-- are numbered from 2 on. A file's bytes in a cluster are those of its first sector.
abbrev pub sector_of : BootSector → ℕ → ℕ
sector_of b cluster =
    b.reserved_sectors
    + b.num_fats * b.sectors_per_fat
    + (b.root_dir_entries * 32 + 511) / 512
    + (cluster - 2) * b.sectors_per_cluster

-- A cluster of the data area whose sector stands on the disk of 1 MB.
abbrev pub OnDisk : Volume → ℕ → Type 0
OnDisk v cluster = (2 ≤ cluster) × (sector_of v.boot_sector cluster < 2048)

abbrev pub data_of : Volume → List ℕ → List ℕ
data_of v [] = []
data_of v (c ∷ cs) = bytes_from v.image (sector_of v.boot_sector c * 512) 512 ++ data_of v cs

length-bytes_from : (image : Image) (a n : ℕ) → length (bytes_from image a n) ≡ n
length-bytes_from image a zero = refl
length-bytes_from image a (suc n) = ap suc (length-bytes_from image (a + 1) n)

spread : (per d c : ℕ) → c ≡ d + 2 ^ 16 → c * per ≡ d * per + 2 ^ 16 * per
spread per d c e = ap (λ t. t * per) e ∙ native_laws.add-mul d (2 ^ 16) per

same_sector :
    (b : BootSector) (cluster : ℕ)
    → 2 ≤ cluster
    → sector_of b cluster < 2048
    → cluster_sector b cluster ≡ sector_of b cluster
same_sector b cluster low small =
    at (b.num_fats * b.sectors_per_fat) b.reserved_sectors b.root_dir_entries b.sectors_per_cluster
      cluster low small
  where
    at :
        (fats reserved entries per cluster : ℕ)
        → 2 ≤ cluster
        → reserved + fats + (entries * 32 + 511) / 512 + (cluster - 2) * per < 2048
        → ((reserved + fats) % 2 ^ 16
              + (entries * 32 + 512 - 1) / 512 % 2 ^ 16
              + (cluster + 2 ^ 16 - 2) * per)
            % 2 ^ 16
          ≡ reserved + fats + (entries * 32 + 511) / 512 + (cluster - 2) * per
    at fats reserved entries per cluster low small =
        omega (arith, spread per (cluster - 2) (cluster + 2 ^ 16 - 2) (omega arith))

sector_read :
    (v : Volume) (cluster : ℕ) (old : List ℕ)
    → OnDisk v cluster
    → read_into v.image (cluster_sector v.boot_sector cluster) old
      ≡ bytes_from v.image (sector_of v.boot_sector cluster * 512) 512
unfolding read_sector
sector_read v cluster old (low, small) =
    rw (same_sector v.boot_sector cluster low small) (go (sector_of v.boot_sector cluster) small)
  where
    inside_disk : (s : ℕ) → s < 2048 → leb (1024 * 1024) (s * 512 % 2 ^ 32) ≡ false
    inside_disk s lt = ground arith

    go : (s : ℕ) → s < 2048 → read_into v.image s old ≡ bytes_from v.image (s * 512) 512
    go s lt =
        rw (read_into, inside_disk s lt)
          (ap (λ a. bytes_from v.image a 512) {x = s * 512 % 2 ^ 32} {y = s * 512} (omega arith))

full : (b : Bool) (limit start : ℕ) → limit ≤ start → (b && ltb start limit) ≡ false
full b limit start le = ground arith

no_overflow :
    (limit start : ℕ)
    → limit + 512 ≤ 2 ^ 31
    → start < limit
    → leb (2 ^ 31) (start + sector_size) ≡ false
no_overflow limit start small lt = ground arith

-- On every volume the loop ends, with rounds enough, and writes no byte from the limit on.
pub read_clusters_ends :
    (u : ℕ → Stack) (v : Volume) (limit n cluster start : ℕ) (buffer : ℕ → ℕ)
    → limit + 512 ≤ 2 ^ 31
    → limit ≤ start + sector_size * n
    → start ≤ limit
    → (after : ℕ → ℕ) × ((end : ℕ) × ((read_clusters u v limit (suc n) cluster start buffer
            ≡ some (after, end))
          × (((start ≤ end) × (end ≤ limit)) × ((k : ℕ) → end ≤ k → after k ≡ buffer k))))
unfolding read_clusters
read_clusters_ends u v limit zero cluster start buffer small fuel within = (
  buffer,
  (
    start,
    (
      rw (full (ltb cluster 0xFF8) limit start (omega arith)) refl,
      ((omega arith, within), λ k le. refl),
    ),
  ),
)
read_clusters_ends u v limit (suc n) cluster start buffer small fuel within =
    let to_read = chunk start limit in
    let bytes = read_into v.image (cluster_sector v.boot_sector cluster) (u (suc n)).cluster_data in
    elim (Bool-cases (ltb cluster 0xFF8 && ltb start limit)) [
      | inl on ↦
          let (after, (end, (e, ((above, below), kept)))) =
            read_clusters_ends u v limit n (next_cluster (u (suc n)) v cluster) (start + to_read)
              (copy_chunk to_read 0 start bytes buffer) small
              (ground (arith, more (ltb cluster 0xFF8) on))
              (ground (arith, more (ltb cluster 0xFF8) on)) in
          (
            after,
            (
              end,
              (
                rw (on, no_overflow limit start small (more (ltb cluster 0xFF8) on)) e,
                (
                  (omega arith, below),
                  λ k le.
                      kept k le
                      ∙ copy_chunk_kept to_read 0 start bytes buffer k (inr (omega arith)),
                ),
              ),
            ),
          )
      | inr off ↦ (buffer, (start, (rw off refl, ((omega arith, within), λ k le. refl))))
    ]
  where
    more : (b : Bool) → (b && ltb start limit) ≡ true → start < limit
    more b e = ground (arith, e)

-- Where the clusters are on the disk, the loop writes their bytes.
pub read_clusters-Writes :
    (u : ℕ → Stack) (v : Volume) (limit n cluster start : ℕ) (buffer : ℕ → ℕ)
    → limit + 512 ≤ 2 ^ 31
    → limit ≤ start + sector_size * n
    → All (OnDisk v) (clusters u v n cluster)
    → (after : ℕ → ℕ) × ((end : ℕ) × ((read_clusters u v limit (suc n) cluster start buffer
            ≡ some (after, end))
          × Writes start limit (data_of v (clusters u v n cluster)) buffer after end))
unfolding read_clusters clusters
read_clusters-Writes u v limit zero cluster start buffer small fuel = λ on_disk. (
  buffer,
  (
    start,
    (
      rw (full (ltb cluster 0xFF8) limit start (omega arith)) refl,
      Writes-none start limit [] buffer (inr refl),
    ),
  ),
)
read_clusters-Writes u v limit (suc n) cluster start buffer small fuel =
    let to_read = chunk start limit in
    let bytes = read_into v.image (cluster_sector v.boot_sector cluster) (u (suc n)).cluster_data in
    elim (Bool-cases (ltb cluster 0xFF8)) [
      | inl on ↦ elim (Bool-cases (ltb start limit)) [
        | inl more ↦ rw on (λ on_disk.
            let (after, (end, (e, writes))) =
              read_clusters-Writes u v limit n (next_cluster (u (suc n)) v cluster)
                (start + to_read) (copy_chunk to_read 0 start bytes buffer) small (ground arith)
                on_disk.1 in
            (
              after,
              (
                end,
                (
                  rw (more, no_overflow limit start small (ground (arith, more))) e,
                  taken (sector_read v cluster (u (suc n)).cluster_data on_disk.0)
                      (length-bytes_from v.image (sector_of v.boot_sector cluster * 512) 512)
                      (data_of v (clusters u v n (next_cluster (u (suc n)) v cluster))) after end
                      (ground (arith, more)) writes,
                ),
              ),
            ))
        | inr all_read ↦
            rw (on, all_read)
              (λ on_disk.
                (buffer, (start, (refl, Writes-none start limit _ buffer (inl (ground arith))))))
      ]
      | inr off ↦
          rw off
            (λ on_disk. (buffer, (start, (refl, Writes-none start limit [] buffer (inr refl)))))
    ]
  where
    taken :
        {bytes sector : List ℕ}
        → bytes ≡ sector
        → length sector ≡ sector_size
        → (rest : List ℕ) (after : ℕ → ℕ) (end : ℕ) → start < limit
        → Writes
            (start + chunk start limit)
            limit
            rest
            (copy_chunk (chunk start limit) 0 start bytes buffer)
            after
            end
        → Writes start limit (sector ++ rest) buffer after end
    taken e size rest after end lt w = Writes-chunk start limit _ rest buffer after end size lt (
        subst
          (λ b.
            Writes (start + chunk start limit) limit rest
              (copy_chunk (chunk start limit) 0 start b buffer) after end)
          e w)
