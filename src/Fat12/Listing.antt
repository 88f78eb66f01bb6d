-- ===== src/Fat12/Listing.antt =====
-- What the functions of filesystem/fat12.c find in the root directory, as a list of entries.
use uint_os.Common.{
  take-nil, ℕ, zero, suc, ◌+◌, ◌-◌, ◌≡◌, refl, ap, sym, ◌∙◌, Bool, true, false, Option, some, List,
  [], ◌∷◌, ◌++◌, if◌then◌else◌, length, take, map, map-append, append_assoc, append-nil,
  length-append, arith, Bool-cases, inl, inr,
}
use uint_os.Common.Int.{ℤ, pos, pos_part, ltb_ℤ}
use uint_os.Fat12.Disk.{Volume, DirEntry, entry_at, root_dir_sectors}
use uint_os.Fat12.Directory.{
  FileEntry, file_entry, ends_directory, is_deleted, is_refused, list_sector, list_sectors,
  fat12_list_directory, Search, missing, hit, root_sector,
}

-- Sectors from `sector` on, each of which can be read.
pub data Reads (read : ℕ → Option (List ℕ)) : ℕ → ℕ → List (List ℕ) → Type 0 where
  done : {sector : ℕ} → Reads read sector 0 []
  next :
      {sector n : ℕ} {bytes : List ℕ} {rest : List (List ℕ)}
      → read sector ≡ some bytes
      → Reads read (sector + 1) n rest
      → Reads read sector (suc n) (bytes ∷ rest)

-- n entries of a sector, from entry i on.
abbrev pub entries_from : ℕ → ℕ → List ℕ → List DirEntry
entries_from zero i bytes = []
entries_from (suc n) i bytes = entry_at bytes i ∷ entries_from n (i + 1) bytes

-- The entries before the first that ends the directory.
abbrev pub until_end : List DirEntry → List DirEntry
until_end [] = []
until_end (e ∷ es) = let rest = until_end es in if ends_directory e then [] else e ∷ rest

-- All entries, and those that stand before an end in their own sector.
abbrev pub all_entries : List (List ℕ) → List DirEntry
all_entries [] = []
all_entries (bytes ∷ rest) = entries_from 16 0 bytes ++ all_entries rest

abbrev pub listing : List (List ℕ) → List DirEntry
listing [] = []
listing (bytes ∷ rest) = until_end (entries_from 16 0 bytes) ++ listing rest

-- The first entry that passes a test.
abbrev pub first_that : (List ℕ → Bool) → List DirEntry → Search
first_that test [] = missing
first_that test (e ∷ es) = let rest = first_that test es in if test e.name then hit e else rest

-- No byte is 0xE5 as a char, so no entry counts as deleted.
pub nothing_deleted : (e : DirEntry) → is_deleted e ≡ false
nothing_deleted e = ground arith

module _ {ℓ} {A : Type ℓ} where
  take-zero : (n : ℕ) (xs : List A) → n ≡ 0 → take n xs ≡ []
  take-zero zero xs e = refl
  take-zero (suc n) xs e = absurd (omega arith)

  take-suc : (n m : ℕ) (x : A) (xs : List A) → n ≡ suc m → take n (x ∷ xs) ≡ x ∷ take m xs
  take-suc zero m x xs e = absurd (omega arith)
  take-suc (suc n) m x xs e = ap (λ t. x ∷ take t xs) (omega arith)

  -- What is taken of a sum, the parts apart.
  take-append_take :
      (n : ℕ) (xs ys : List A) → take n (xs ++ ys) ≡ take n xs ++ take (n - length (take n xs)) ys
  take-append_take zero xs ys = refl
  take-append_take (suc n) [] ys = ap (λ t. take t ys) {x = suc n} {y = suc n - 0} (omega arith)
  take-append_take (suc n) (x ∷ xs) ys =
      ap (λ t. x ∷ t) (take-append_take n xs ys)
      ∙ ap (λ t. x ∷ (take n xs ++ take t ys)) {x = n - length (take n xs)}
          {y = suc n - suc (length (take n xs))} (omega arith)

module _ (max_entries : ℤ) where
  room : List FileEntry → ℕ
  room found = pos_part max_entries - length found

  snoc_room :
      (found : List FileEntry) (x : FileEntry)
      → ltb_ℤ (pos (length found)) max_entries ≡ true
      → room found ≡ suc (room (found ++ (x ∷ [])))
  unfolding room
  snoc_room found x more = ground (arith, length-append found (x ∷ []))

  no_room :
      (found : List FileEntry) → ltb_ℤ (pos (length found)) max_entries ≡ false → room found ≡ 0
  unfolding room
  no_room found full = ground arith

  -- `xs` is added to `found` as far as there is room.
  filled : List FileEntry → List FileEntry → List FileEntry
  unfolding room
  filled found xs = found ++ take (room found) xs

  filled-full :
      (found xs : List FileEntry)
      → ltb_ℤ (pos (length found)) max_entries ≡ false
      → filled found xs ≡ found
  unfolding filled
  filled-full found xs full = rw (take-zero (room found) xs (no_room found full), append-nil) refl

  filled-nil : (found : List FileEntry) → filled found [] ≡ found
  unfolding filled
  filled-nil found = rw (take-nil (room found), append-nil) refl

  filled-cons :
      (found : List FileEntry) (x : FileEntry) (xs : List FileEntry)
      → ltb_ℤ (pos (length found)) max_entries ≡ true
      → filled found (x ∷ xs) ≡ filled (found ++ (x ∷ [])) xs
  unfolding filled
  filled-cons found x xs more =
      rw (take-suc (room found) _ x xs (snoc_room found x more), append_assoc) refl

  filled-append :
      (found xs ys : List FileEntry) → filled found (xs ++ ys) ≡ filled (filled found xs) ys
  unfolding filled room
  filled-append found xs ys =
      rw (take-append_take, append_assoc, length-append)
        (ap (λ t. found ++ (take (room found) xs ++ take t ys))
          {x = room found - length (take (room found) xs)}
          {y = pos_part max_entries - (length found + length (take (room found) xs))} (omega arith))

  -- The entries of a sector are added while there is room.
  list_sector-filled :
      (n i : ℕ) (bytes : List ℕ) (found : List FileEntry)
      → list_sector n i bytes max_entries found
        ≡ filled found (map file_entry (until_end (entries_from n i bytes)))
  unfolding list_sector
  list_sector-filled zero i bytes found = sym (filled-nil found)
  list_sector-filled (suc n) i bytes found =
      let e = entry_at bytes i in
      elim (Bool-cases (ltb_ℤ (pos (length found)) max_entries)) [
        | inl more ↦ elim (Bool-cases (ends_directory e)) [
          | inl end ↦ rw (more, end) (sym (filled-nil found))
          | inr going ↦
              rw (more, going, nothing_deleted e)
                (list_sector-filled n (i + 1) bytes (found ++ (file_entry e ∷ []))
                  ∙ sym (filled-cons found (file_entry e) _ more))
        ]
        | inr full ↦ rw full (sym (filled-full found _ full))
      ]

  filled_sector :
      (found : List FileEntry) (bytes : List ℕ) (rest : List (List ℕ))
      → filled
          (filled found (map file_entry (until_end (entries_from 16 0 bytes))))
          (map file_entry (listing rest))
        ≡ filled found (map file_entry (listing (bytes ∷ rest)))
  filled_sector found bytes rest = rw (map-append, filled-append found _ _) refl

  list_sectors-filled :
      (v : Volume) {n sector : ℕ} {sectors : List (List ℕ)} (found : List FileEntry)
      → Reads (root_sector v) sector n sectors
      → list_sectors n sector v max_entries found ≡ (
        filled found (map file_entry (listing sectors)),
        pos (length (filled found (map file_entry (listing sectors)))),
      )
  unfolding list_sectors
  list_sectors-filled v found done = rw filled-nil refl
  list_sectors-filled v found (next {bytes = bytes} {rest = rest} e r) =
      elim (Bool-cases (ltb_ℤ (pos (length found)) max_entries)) [
        | inl more ↦
            rw (more, e)
              (ap (list_sectors _ _ v max_entries) (list_sector-filled 16 0 bytes found)
                ∙ (list_sectors-filled v
                      (filled found (map file_entry (until_end (entries_from 16 0 bytes)))) r
                    ∙ ap (λ t. (t, pos (length t))) (filled_sector found bytes rest)))
        | inr full ↦ rw (full, filled-full found _ full) refl
      ]

-- Where all sectors of the root directory can be read, fat12_list_directory writes, for a path
-- that it accepts, the first max_entries of the entries that stand before an end in their sector,
-- and returns their number.
pub list_directory_lem :
    (v : Volume) (path : Option (List ℕ)) (max_entries : ℤ) {sectors : List (List ℕ)}
    → is_refused path ≡ false
    → Reads (root_sector v) 0 (root_dir_sectors v.boot_sector) sectors
    → fat12_list_directory v path max_entries ≡ (
      take (pos_part max_entries) (map file_entry (listing sectors)),
      pos (length (take (pos_part max_entries) (map file_entry (listing sectors)))),
    )
unfolding fat12_list_directory filled room
list_directory_lem v path max_entries {sectors = sectors} accepted r = rw accepted (
    list_sectors-filled max_entries v [] r
    ∙ ap
        (λ n. (
          take n (map file_entry (listing sectors)),
          pos (length (take n (map file_entry (listing sectors)))),
        ))
        {x = pos_part max_entries - 0} {y = pos_part max_entries} (omega arith))
