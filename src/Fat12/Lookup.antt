-- ===== src/Fat12/Lookup.antt =====
-- Which entry the searches of filesystem/fat12.c find, and for which names.
use uint_os.Common.{
  ℕ, zero, suc, ◌+◌, ◌<◌, ◌≡◌, ◌≢◌, refl, ap, sym, ◌∙◌, Bool, true, false, Option, none, some, List,
  [], ◌∷◌, ◌++◌, length, get_or, drop, All, arith, Bool-cases, inl, inr, ◌⊎◌,
}
use mathlib.Core.Path.{subst}
use uint_os.Common.Int.{ℤ, pos, negsuc}
use uint_os.Fat12.Disk.{Volume, DirEntry, entry_at, root_dir_sectors}
use uint_os.Fat12.Directory.{
  ends_directory, same_name, fat_name, file_name, as_int, find_named, fat12_file_exists,
  fat12_get_file_size, Search, missing, hit, search_sector, search, root_sector,
}
use uint_os.Fat12.File.{Stack, same_string, unchecked_sector, read_found, fat12_read_file}
use uint_os.Fat12.Listing.{
  Reads, done, next, entries_from, until_end, all_entries, first_that, nothing_deleted,
}
use uint_os.Fat12.Names.{IsShort, padded, dotted, file_name-padded, fat_name-file_name}

-- The outcome of a sector, then of the entries behind it.
abbrev else_later : Option Search → Search → Search
else_later none s = s
else_later (some t) s = t

search_sector-first :
    (n i : ℕ) (bytes : List ℕ) (test : List ℕ → Bool) (later : List DirEntry)
    → else_later (search_sector n i bytes test) (first_that test (until_end later))
      ≡ first_that test (until_end (entries_from n i bytes ++ later))
unfolding search_sector
search_sector-first zero i bytes test later = refl
search_sector-first (suc n) i bytes test later =
    let e = entry_at bytes i in
    elim (Bool-cases (ends_directory e)) [
      | inl end ↦ rw end refl
      | inr going ↦ elim (Bool-cases (test e.name)) [
        | inl passes ↦ rw (going, nothing_deleted e, passes) refl
        | inr fails ↦
            rw (going, nothing_deleted e, fails) (search_sector-first n (i + 1) bytes test later)
      ]
    ]

-- A search finds the first entry before the end of the directory that passes the test.
search-first :
    {read : ℕ → Option (List ℕ)} {sector n : ℕ} {sectors : List (List ℕ)} (test : List ℕ → Bool)
    → Reads read sector n sectors
    → search n sector read test ≡ first_that test (until_end (all_entries sectors))
unfolding search
search-first test done = refl
search-first {read = read} test (next {sector = sector} {n = n} {bytes = bytes} {rest = rest} e r) =
    rw (e, search)
      (go (search_sector 16 0 bytes test)
        ∙ (ap (else_later (search_sector 16 0 bytes test)) (search-first test r)
            ∙ search_sector-first 16 0 bytes test (all_entries rest)))
  where
    go :
        (o : Option Search)
        → (elim o [ none ↦ search n (sector + 1) read test | some ended ↦ ended ])
          ≡ else_later o (search n (sector + 1) read test)
    go none = refl
    go (some t) = refl

same_name_self : (n : ℕ) (xs : List ℕ) → same_name n xs xs ≡ true
same_name_self zero xs = refl
same_name_self (suc n) xs = ground (arith, same_name_self n (drop 1 xs))

get_or-drop : (k : ℕ) (xs : List ℕ) → get_or (drop 1 xs) k 0 ≡ get_or xs (suc k) 0
get_or-drop k [] = refl
get_or-drop zero (x ∷ xs) = refl
get_or-drop (suc k) (x ∷ xs) = refl

-- Two names that differ in one of the first n characters.
abbrev pub Differ : ℕ → List ℕ → List ℕ → Type 0
Differ n xs ys = (k : ℕ) × ((k < n) × (get_or xs k 0 ≢ get_or ys k 0))

same_name-Differ :
    (n : ℕ) (xs ys : List ℕ) (k : ℕ)
    → k < n
    → get_or xs k 0 ≢ get_or ys k 0
    → same_name n xs ys ≡ false
same_name-Differ zero xs ys k lt ne = absurd (omega arith)
same_name-Differ (suc n) xs ys zero lt ne = ground (arith, ne)
same_name-Differ (suc n) xs ys (suc k) lt ne = ground (
  arith,
  same_name-Differ n (drop 1 xs) (drop 1 ys) k (omega arith)
      (λ e. ne (sym (get_or-drop k xs) ∙ (e ∙ get_or-drop k ys))),
)

first_that-append :
    (test : List ℕ → Bool) (es : List DirEntry) (e : DirEntry) (later : List DirEntry)
    → All (λ x. test x.name ≡ false) es
    → test e.name ≡ true
    → first_that test (es ++ (e ∷ later)) ≡ hit e
first_that-append test [] e later h t = rw t refl
first_that-append test (x ∷ es) e later h t = rw (h.0) (first_that-append test es e later h.1 t)

first_that-none :
    (test : List ℕ → Bool) (es : List DirEntry)
    → All (λ x. test x.name ≡ false) es
    → first_that test es ≡ missing
first_that-none test [] h = refl
first_that-none test (x ∷ es) h = rw (h.0) (first_that-none test es h.1)

All-map :
    {P Q : DirEntry → Type 0}
    → ((e : DirEntry) → P e → Q e)
    → (es : List DirEntry) → All P es
    → All Q es
All-map f [] h = tt
All-map f (e ∷ es) h = (f e h.0, All-map f es h.1)

-- fat12_file_exists finds a file by the name that fat12_list_directory prints for it, and
-- fat12_get_file_size returns its size: where the sectors can be read, for an entry with a short
-- name that no entry before it has, and before which no entry ends the directory.
pub printed_name_found :
    (v : Volume) {sectors : List (List ℕ)} (before later : List DirEntry) (e : DirEntry)
    {stem : List ℕ} {j : ℕ} {ext : List ℕ} {k : ℕ}
    → Reads (root_sector v) 0 (root_dir_sectors v.boot_sector) sectors
    → until_end (all_entries sectors) ≡ before ++ (e ∷ later)
    → All (λ x. Differ 11 x.name e.name) before
    → IsShort stem j ext k
    → e.name ≡ padded stem j ext k
    → (fat12_file_exists v (file_name e.name) ≡ pos 1)
      × (fat12_get_file_size v (file_name e.name) ≡ as_int e.file_size)
unfolding fat12_file_exists fat12_get_file_size find_named
printed_name_found v {sectors = sectors} before later e {stem = stem} {j = j} {ext = ext} {k = k} r
      split apart short name =
    (rw (fat12_file_exists, found) refl, rw (fat12_get_file_size, found) refl)
  where
    looked : fat_name (file_name e.name) ≡ e.name
    looked = rw name (fat_name-file_name stem j ext k short)

    found : find_named v (file_name e.name) ≡ hit e
    found =
        rw (find_named, looked)
          (search-first (same_name 11 e.name) r
            ∙ rw split (
                first_that-append (same_name 11 e.name) before e later
                  (All-map (λ x d. same_name-Differ 11 e.name x.name d.0 d.1.0 (λ t. d.1.1 (sym t)))
                    before apart)
                  (same_name_self 11 e.name)))

-- No character of the name is a dot or a 0.
abbrev pub HasPlainName : DirEntry → Type 0
HasPlainName e = (k : ℕ) → k < 11 → (get_or e.name k 0 ≢ 0) × (get_or e.name k 0 ≢ 46)

-- strncmp tells names apart at a character that ends one of them, or at a dot.
same_string_at :
    (n : ℕ) (xs ys : List ℕ) (k : ℕ)
    → ((i : ℕ) → i < n → (get_or xs i 0 ≢ 0) × (get_or xs i 0 ≢ 46))
    → k < n
    → (get_or ys k 0 ≡ 0) ⊎ (get_or ys k 0 ≡ 46)
    → same_string n xs ys ≡ false
same_string_at zero xs ys k plain lt stop = absurd (omega arith)
same_string_at (suc n) xs ys zero plain lt stop = ground (arith, plain 0 (omega arith))
same_string_at (suc n) xs ys (suc k) plain lt stop = ground (
  arith,
  plain 0 (omega arith),
  same_string_at n (drop 1 xs) (drop 1 ys) k shifted (omega arith)
      (subst (λ t. (t ≡ 0) ⊎ (t ≡ 46)) (sym (get_or-drop k ys)) stop),
)
  where
    shifted : (i : ℕ) → i < n → (get_or (drop 1 xs) i 0 ≢ 0) × (get_or (drop 1 xs) i 0 ≢ 46)
    shifted i l =
        subst (λ t. (t ≢ 0) × (t ≢ 46)) (sym (get_or-drop i xs)) (plain (suc i) (omega arith))

-- A printed name has a dot, or its end, behind its base.
stops :
    (stem ext : List ℕ)
    → (get_or (dotted stem ext) (length stem) 0 ≡ 0)
      ⊎ (get_or (dotted stem ext) (length stem) 0 ≡ 46)
stops [] [] = inl refl
stops [] (c ∷ ext) = inr refl
stops (x ∷ stem) ext = stops stem ext

or_old : (ℕ → Stack) → ℕ → Option (List ℕ) → List ℕ
or_old u sector o = elim o [ none ↦ (u sector).directory_data | some bytes ↦ bytes ]

Reads-unchecked :
    (u : ℕ → Stack) (v : Volume) {sector n : ℕ} {sectors : List (List ℕ)}
    → Reads (root_sector v) sector n sectors
    → Reads (unchecked_sector u v) sector n sectors
unfolding or_old
Reads-unchecked u v done = done
Reads-unchecked u v {sector = sector} (next e r) =
    next (ap (λ t. some (or_old u sector t)) e) (Reads-unchecked u v r)

-- fat12_read_file does not find a file by the name that fat12_list_directory prints for it: in a
-- directory that can be read and has no name with a dot or a 0 among its 11 characters, it returns
-- -1 for every such name, and leaves the buffer as it is.
pub printed_name_unread :
    (u : ℕ → Stack) (v : Volume) (size : ℤ) (buffer : ℕ → ℕ) {sectors : List (List ℕ)}
    {stem : List ℕ} {j : ℕ} {ext : List ℕ} {k : ℕ}
    → Reads (root_sector v) 0 (root_dir_sectors v.boot_sector) sectors
    → All HasPlainName (until_end (all_entries sectors))
    → IsShort stem j ext k
    → fat12_read_file u v (file_name (padded stem j ext k)) size buffer ≡ some (buffer, negsuc 0)
unfolding fat12_read_file read_found
printed_name_unread u v size buffer {sectors = sectors} {stem = stem} {j = j} {ext = ext} {k = k} r
      plain short =
    rw
      (
        search-first (λ name. same_string 11 name (file_name (padded stem j ext k)))
            (Reads-unchecked u v r),
        unmatched,
      )
      refl
  where
    unmatched_name :
        (e : DirEntry)
        → HasPlainName e
        → same_string 11 e.name (file_name (padded stem j ext k)) ≡ false
    unmatched_name e p = rw (file_name-padded stem j ext k short) (
        same_string_at 11 e.name (dotted stem ext) (length stem) p (omega (arith, short.stem_fits))
          (stops stem ext))

    unmatched :
        first_that
          (λ name. same_string 11 name (file_name (padded stem j ext k)))
          (until_end (all_entries sectors))
        ≡ missing
    unmatched =
        first_that-none (λ name. same_string 11 name (file_name (padded stem j ext k)))
          (until_end (all_entries sectors))
          (All-map unmatched_name (until_end (all_entries sectors)) plain)
