-- ===== src/Fat12/Copy.antt =====
-- What the copying loop of fat12_read_file in filesystem/fat12.c writes to the buffer.
use uint_os.Common.{
  ℕ, zero, suc, ◌+◌, ◌-◌, ◌≤◌, ◌<◌, ◌≡◌, ◌⊎◌, inl, inr, refl, ap, sym, ◌∙◌, List, [], ◌∷◌, ◌++◌,
  ◌==◌, ltb, length, get_or, update, arith, Bool-cases, length-append, min, get_or-append_left,
}
use uint_os.Fat12.Disk.{sector_size}
use uint_os.Fat12.File.{copy_chunk, chunk}

-- `after` is `buffer` with bytes written from `start` on, as far as `limit`.
pub record Writes (start limit : ℕ) (bytes : List ℕ) (buffer after : ℕ → ℕ) (end : ℕ) : Type 0 where
  pub end_at : end ≡ start + min (limit - start) (length bytes)
  pub written : (k : ℕ) → start ≤ k → k < end → after k ≡ get_or bytes (k - start) 0
  pub kept : (k : ℕ) → (k < start) ⊎ (end ≤ k) → after k ≡ buffer k

pub Writes-none :
    (start limit : ℕ) (bytes : List ℕ) (buffer : ℕ → ℕ)
    → (limit ≤ start) ⊎ (length bytes ≡ 0)
    → Writes start limit bytes buffer buffer start
Writes-none start limit bytes buffer nothing = record {
  end_at = ground arith;
  written = λ k lo hi. absurd (omega arith);
  kept = λ k out. refl;
}

pub copy_chunk_kept :
    (n j start : ℕ) (bytes : List ℕ) (buffer : ℕ → ℕ) (k : ℕ)
    → (k < start + j) ⊎ (start + j + n ≤ k)
    → copy_chunk n j start bytes buffer k ≡ buffer k
copy_chunk_kept zero j start bytes buffer k out = refl
copy_chunk_kept (suc n) j start bytes buffer k out =
    copy_chunk_kept n (j + 1) start bytes (update buffer (start + j) (get_or bytes j 0)) k
      (ground arith)
    ∙ ground arith

copy_chunk_written :
    (n j start : ℕ) (bytes : List ℕ) (buffer : ℕ → ℕ) (k : ℕ)
    → start + j ≤ k
    → k < start + j + n
    → copy_chunk n j start bytes buffer k ≡ get_or bytes (k - start) 0
copy_chunk_written zero j start bytes buffer k lo hi = absurd (omega arith)
copy_chunk_written (suc n) j start bytes buffer k lo hi = elim (Bool-cases (start + j == k)) [
  | inl here ↦
      copy_chunk_kept n (j + 1) start bytes (update buffer (start + j) (get_or bytes j 0)) k
        (ground arith)
      ∙ rw here (ap (λ i. get_or bytes i 0) {x = j} {y = k - start} (ground arith))
  | inr later ↦
      copy_chunk_written n (j + 1) start bytes (update buffer (start + j) (get_or bytes j 0)) k
        (ground arith) (omega arith)
]

get_or-append_later :
    (xs ys : List ℕ) (i : ℕ) → length xs ≤ i → get_or (xs ++ ys) i 0 ≡ get_or ys (i - length xs) 0
get_or-append_later [] ys i le = ap (λ t. get_or ys t 0) {x = i} {y = i - 0} (omega arith)
get_or-append_later (x ∷ xs) ys zero le = absurd (omega arith)
get_or-append_later (x ∷ xs) ys (suc i) le =
    get_or-append_later xs ys i (omega arith)
    ∙ ap (λ t. get_or ys t 0) {x = i - length xs} {y = suc i - suc (length xs)} (omega arith)

-- A chunk, and what follows it.
pub Writes-chunk :
    (start limit : ℕ) (bytes rest : List ℕ) (buffer after : ℕ → ℕ) (end : ℕ)
    → length bytes ≡ sector_size
    → start < limit
    → Writes
        (start + chunk start limit)
        limit
        rest
        (copy_chunk (chunk start limit) 0 start bytes buffer)
        after
        end
    → Writes start limit (bytes ++ rest) buffer after end
Writes-chunk start limit bytes rest buffer after end size lt w = record {
  end_at = ground (arith, length-append bytes rest, w.end_at);
  written = λ k lo hi. elim (Bool-cases (ltb k (start + chunk start limit))) [
    | inl now ↦
        w.kept k (inl (ground arith))
        ∙ (copy_chunk_written (chunk start limit) 0 start bytes buffer k (omega arith)
              (ground arith)
            ∙ sym (get_or-append_left bytes rest (k - start) 0 (ground arith)))
    | inr later ↦
        w.written k (ground arith) hi
        ∙ (ap (λ i. get_or rest i 0) {x = k - (start + chunk start limit)}
              {y = k - start - length bytes} (ground (arith, w.end_at))
            ∙ sym (get_or-append_later bytes rest (k - start) (ground (arith, w.end_at))))
  ];
  kept = λ k out.
      w.kept k (ground (arith, out, w.end_at))
      ∙ copy_chunk_kept (chunk start limit) 0 start bytes buffer k (ground (arith, out, w.end_at));
}
