-- ===== src/Fat12/Names.antt =====
-- The two forms of a file name in filesystem/fat12.c: 11 padded characters, and filename.ext.
use uint_os.Common.{
  ℕ, zero, suc, ◌+◌, ◌≡◌, ◌≢◌, refl, ap, sym, false, List, [], ◌∷◌, ◌++◌, ◌==◌, length, get_or, set,
  replicate, All, append_assoc, append-nil, drop-append, length-append, length-replicate, arith,
}
use uint_os.Fat12.Directory.{
  up_to_space, file_name, ends_base, copy_base, copy_extension, skip_to_dot, parse_extension,
  fat_name,
}

-- Neither the end of a string nor a dot nor a space.
abbrev pub IsNameChar : ℕ → Type 0
IsNameChar c = (c ≢ 0) × ((c ≢ 46) × (c ≢ 32))

-- A base and an extension, and the spaces that fill their places.
pub record IsShort (stem : List ℕ) (j : ℕ) (ext : List ℕ) (k : ℕ) : Type 0 where
  pub stem_chars : All IsNameChar stem
  pub ext_chars : All IsNameChar ext
  pub stem_fits : length stem + j ≡ 8
  pub ext_fits : length ext + k ≡ 3

abbrev pub spaces : ℕ → List ℕ
spaces n = replicate n 32

-- The 11 characters of an entry.
abbrev pub padded : List ℕ → ℕ → List ℕ → ℕ → List ℕ
padded stem j ext k = (stem ++ spaces j) ++ (ext ++ spaces k)

-- The name as a user writes it, with no dot where there is no extension.
abbrev pub dot_before : List ℕ → List ℕ
dot_before [] = []
dot_before (c ∷ ext) = 46 ∷ c ∷ ext

abbrev pub dotted : List ℕ → List ℕ → List ℕ
dotted stem ext = stem ++ dot_before ext

up_to_space-spaces :
    (n k : ℕ) (xs rest : List ℕ)
    → All IsNameChar xs
    → length xs + k ≡ n
    → up_to_space n ((xs ++ spaces k) ++ rest) ≡ xs
up_to_space-spaces zero k [] rest h e = refl
up_to_space-spaces zero k (x ∷ xs) rest h e = absurd (omega arith)
up_to_space-spaces (suc n) zero [] rest h e = absurd (omega arith)
up_to_space-spaces (suc n) (suc k) [] rest h e = refl
up_to_space-spaces (suc n) k (x ∷ xs) rest h e =
    ground (arith, h.0, up_to_space-spaces n k xs rest h.1)

get_or-append_right :
    (xs ys : List ℕ) (i : ℕ) → length xs ≡ i → get_or (xs ++ ys) i 0 ≡ get_or ys 0 0
get_or-append_right [] ys zero e = refl
get_or-append_right [] ys (suc i) e = absurd (omega arith)
get_or-append_right (x ∷ xs) ys zero e = absurd (omega arith)
get_or-append_right (x ∷ xs) ys (suc i) e = get_or-append_right xs ys i (omega arith)

length-spaces : (n : ℕ) → length (spaces n) ≡ n
length-spaces n = length-replicate {A = ℕ} n 32

length-filled : (xs : List ℕ) (k n : ℕ) → length xs + k ≡ n → length (xs ++ spaces k) ≡ n
length-filled xs k n e = omega (arith, length-append xs (spaces k), length-spaces k)

ext-end :
    (xs : List ℕ) (k : ℕ)
    → All IsNameChar xs
    → length xs + k ≡ 3
    → up_to_space 3 (xs ++ spaces k) ≡ xs
ext-end xs k h e = rw (← append-nil (xs ++ spaces k)) (up_to_space-spaces 3 k xs [] h e)

same_spaces : (j n : ℕ) → length {A = ℕ} [] + j ≡ n → spaces j ≡ spaces n
same_spaces j n e = ap spaces (omega arith)

-- The listed name of a padded one.
pub file_name-padded :
    (stem : List ℕ) (j : ℕ) (ext : List ℕ) (k : ℕ)
    → IsShort stem j ext k
    → file_name (padded stem j ext k) ≡ dotted stem ext
unfolding file_name
file_name-padded stem j [] k h =
    rw
      (
        get_or-append_right (stem ++ spaces j) (spaces k) 8 (length-filled stem j 8 h.stem_fits),
        same_spaces k 3 h.ext_fits,
        up_to_space-spaces 8 j stem (spaces 3) h.stem_chars h.stem_fits,
        append-nil,
      )
      refl
file_name-padded stem j (c ∷ ext) k h =
    rw
      (
        get_or-append_right (stem ++ spaces j) ((c ∷ ext) ++ spaces k) 8
            (length-filled stem j 8 h.stem_fits),
        up_to_space-spaces 8 j stem ((c ∷ ext) ++ spaces k) h.stem_chars h.stem_fits,
        drop-append 8 (stem ++ spaces j) ((c ∷ ext) ++ spaces k)
            (sym (length-filled stem j 8 h.stem_fits)),
        ext-end (c ∷ ext) k h.ext_chars h.ext_fits,
      )
      (ground (arith, h.ext_chars.0))

set-append :
    (xs ys : List ℕ) (y c i : ℕ) → length xs ≡ i → set (xs ++ (y ∷ ys)) i c ≡ (xs ++ (c ∷ [])) ++ ys
set-append [] ys y c zero e = refl
set-append [] ys y c (suc i) e = absurd (omega arith)
set-append (x ∷ xs) ys y c zero e = absurd (omega arith)
set-append (x ∷ xs) ys y c (suc i) e = ap (λ t. x ∷ t) (set-append xs ys y c i (omega arith))

name_char : (c : ℕ) → IsNameChar c → ends_base c ≡ false
name_char c h = ground (arith, h.0, h.1.0)

not_end : (c : ℕ) → IsNameChar c → (c == 0) ≡ false
not_end c h = ground (arith, h.0)

snoc_length : (xs : List ℕ) (y i : ℕ) → length xs ≡ i → length (xs ++ (y ∷ [])) ≡ i + 1
snoc_length xs y i e = omega (arith, length-append xs (y ∷ []))

-- What the loop over the base has written, at `tail`.
copy_base-append :
    (n i j : ℕ) (front stem back ext : List ℕ)
    → length front ≡ i
    → All IsNameChar stem
    → length stem + j ≡ n
    → copy_base n i (stem ++ dot_before ext) (front ++ (spaces n ++ back))
      ≡ ((front ++ stem) ++ (spaces j ++ back), dot_before ext)
copy_base-append zero i j front [] back ext e h f = rw (append-nil, same_spaces j zero f) refl
copy_base-append zero i j front (x ∷ stem) back ext e h f = absurd (omega arith)
copy_base-append (suc n) i j front [] back [] e h f = rw (append-nil, same_spaces j (suc n) f) refl
copy_base-append (suc n) i j front [] back (c ∷ ext) e h f =
    rw (append-nil, same_spaces j (suc n) f) refl
copy_base-append (suc n) i j front (x ∷ stem) back ext e h f =
    rw
      (
        name_char x h.0,
        set-append front (spaces n ++ back) 32 x i e,
        copy_base-append n (i + 1) j (front ++ (x ∷ [])) stem back ext (snoc_length front x i e) h.1
            (omega arith),
        append_assoc front (x ∷ []) stem,
      )
      refl

copy_extension-append :
    (n j k : ℕ) (front ext : List ℕ)
    → length front ≡ 8 + j
    → All IsNameChar ext
    → length ext + k ≡ n
    → copy_extension n j ext (front ++ spaces n) ≡ front ++ (ext ++ spaces k)
copy_extension-append zero j k front [] e h f = rw (same_spaces k zero f) refl
copy_extension-append zero j k front (x ∷ ext) e h f = absurd (omega arith)
copy_extension-append (suc n) j k front [] e h f = rw (same_spaces k (suc n) f) refl
copy_extension-append (suc n) j k front (x ∷ ext) e h f =
    rw
      (
        not_end x h.0,
        set-append front (spaces n) 32 x (8 + j) e,
        copy_extension-append n (j + 1) k (front ++ (x ∷ [])) ext
            (omega (arith, snoc_length front x (8 + j) e)) h.1 (omega arith),
        append_assoc front (x ∷ []) (ext ++ spaces k),
      )
      refl

-- The search for a listed name is for its padded form.
fat_name-dotted :
    (stem : List ℕ) (j : ℕ) (ext : List ℕ) (k : ℕ)
    → IsShort stem j ext k
    → fat_name (dotted stem ext) ≡ padded stem j ext k
unfolding fat_name
fat_name-dotted stem j ext k h =
    rw (copy_base-append 8 0 j [] stem (spaces 3) ext refl h.stem_chars h.stem_fits)
      (parsed ext h.ext_chars h.ext_fits)
  where
    front : List ℕ
    front = stem ++ spaces j

    parsed :
        (ext : List ℕ)
        → All IsNameChar ext
        → length ext + k ≡ 3
        → parse_extension (skip_to_dot (dot_before ext)) (stem ++ (spaces j ++ spaces 3))
          ≡ (stem ++ spaces j) ++ (ext ++ spaces k)
    parsed [] hc f = rw (append_assoc, same_spaces k 3 f) refl
    parsed (c ∷ ext) hc f = rw (← append_assoc stem (spaces j) (spaces 3)) (
        copy_extension-append 3 0 k (stem ++ spaces j) (c ∷ ext)
          (length-filled stem j 8 h.stem_fits) hc f)

-- fat12_file_exists and fat12_get_file_size look for the very characters that
-- fat12_list_directory has printed, for names of any base and extension that fit their places and
-- hold no dot, space or 0.
pub fat_name-file_name :
    (stem : List ℕ) (j : ℕ) (ext : List ℕ) (k : ℕ)
    → IsShort stem j ext k
    → fat_name (file_name (padded stem j ext k)) ≡ padded stem j ext k
fat_name-file_name stem j ext k h =
    rw (file_name-padded stem j ext k h) (fat_name-dotted stem j ext k h)
