-- ===== src/Net/Buffer/Refine.antt =====
-- The buffers of network/src/network.c behave as their specification.
use uint_os.Common.{
  ℕ, ◌+◌, ◌-◌, ◌%◌, ◌^◌, ◌≤◌, ◌≡◌, ◌≢◌, refl, ap, sym, ◌∙◌, Bool, true, false, some, List, [], ◌∷◌,
  ◌++◌, ◌==◌, ltb, if◌then◌else◌, length, take, drop, length-append, length-drop, take-append,
  bit_and, arith, All, Bool-cases, inl, inr,
}
use mathlib.Core.Path.{subst}
use uint_os.Common.Int.{ℤ}
use uint_os.Net.Buffer.{
  NetBuffer, size, content, splice, fill, fresh, net_buf_flag_alloc, net_buffer_alloc,
  net_buffer_push, net_buffer_pull, net_buffer_reserve, net_buffer_append,
}
use uint_os.Net.Buffer.Splice.{
  drop-drop, take-append_more, drop-take, take-drop, drop-splice, length-splice,
}
use uint_os.Net.Buffer.Spec.{
  Packet, Represents, Step, push, pull, append, reserve, step, packet_step, total, Agree, Fits,
}

-- A header written over the bytes that have been pushed, and a header taken off.
pub content-fill :
    (b : NetBuffer) (bytes : List ℕ)
    → length bytes ≤ b.data_at
    → b.data_at ≤ size b
    → take
        (b.len + length bytes)
        (drop (b.data_at - length bytes) (splice b.memory (b.data_at - length bytes) bytes))
      ≡ bytes ++ content b
content-fill b bytes fits inside =
    let at = b.data_at - length bytes in
    let behind = drop (at + length bytes) b.memory in
    ap (take (b.len + length bytes)) (drop-splice at b.memory bytes behind (omega arith))
    ∙ (ap (λ t. take t (bytes ++ behind)) {x = b.len + length bytes} {y = length bytes + b.len}
          (omega arith)
        ∙ (take-append_more (length bytes) b.len bytes behind refl
            ∙ ap (λ t. bytes ++ take b.len (drop t b.memory)) {x = at + length bytes}
                {y = b.data_at} (omega arith)))

pub content-pull :
    (b : NetBuffer) (n : ℕ)
    → n ≤ b.len
    → take (b.len - n) (drop (b.data_at + n) b.memory) ≡ drop n (content b)
content-pull b n le =
    ap (take (b.len - n)) (sym (drop-drop b.data_at n b.memory))
    ∙ take-drop n b.len (drop b.data_at b.memory) le

same_test : (x y n : ℕ) → x ≡ y → ltb x n ≡ ltb y n
same_test x y n e = ap (λ t. ltb t n) e

push-Represents :
    (b : NetBuffer) (p : Packet) (bytes : List ℕ)
    → Represents b p
    → length bytes ≤ p.headroom
    → Represents
        (fill
          (record b {
            data_at = b.data_at - length bytes;
            offset = b.offset - length bytes;
            len = b.len + length bytes;
          })
          bytes)
        (record p { headroom = p.headroom - length bytes; held = bytes ++ p.held })
push-Represents b p bytes r fits =
    let at = b.data_at - length bytes in
    record {
      is_own = r.is_own;
      start_at = omega (arith, r.start_at);
      headroom_at = omega (arith, r.headroom_at);
      len_at = omega (arith, r.len_at, length-append bytes p.held);
      whole = omega (
        arith,
        length-splice b.memory at bytes (omega (arith, r.start_at, r.headroom_at, r.whole)),
        r.whole,
        length-append bytes p.held,
      );
      held_at =
          content-fill b bytes (omega (arith, r.start_at, r.headroom_at))
            (omega (arith, r.start_at, r.headroom_at, r.whole))
          ∙ ap (λ t. bytes ++ t) r.held_at;
    }

pull-Represents :
    (b : NetBuffer) (p : Packet) (n : ℕ)
    → Represents b p
    → n ≤ length p.held
    → Represents
        (record b { data_at = b.data_at + n; offset = b.offset + n; len = b.len - n })
        (record p { headroom = p.headroom + n; held = drop n p.held })
pull-Represents b p n r fits = record {
  is_own = r.is_own;
  start_at = omega (arith, r.start_at);
  headroom_at = omega (arith, r.headroom_at);
  len_at = omega (arith, r.len_at, length-drop n p.held);
  whole = omega (arith, r.whole, length-drop n p.held);
  held_at = content-pull b n (omega (arith, r.len_at)) ∙ ap (drop n) r.held_at;
}

append-Represents :
    (b : NetBuffer) (p : Packet) (bytes : List ℕ)
    → Represents b p
    → length bytes ≤ p.tailroom
    → Represents
        (record b {
          memory = splice b.memory (b.data_at + b.len) bytes;
          len = b.len + length bytes;
        })
        (record p { held = p.held ++ bytes; tailroom = p.tailroom - length bytes })
append-Represents b p bytes r fits = record {
  is_own = r.is_own;
  start_at = r.start_at;
  headroom_at = r.headroom_at;
  len_at = omega (arith, r.len_at, length-append p.held bytes);
  whole = omega (
    arith,
    length-splice b.memory (b.data_at + b.len) bytes
        (omega (arith, r.start_at, r.headroom_at, r.whole, r.len_at)),
    r.whole,
    length-append p.held bytes,
  );
  held_at =
      ap (take (b.len + length bytes)) (
        drop-take b.data_at b.len b.memory _
          (omega (arith, r.start_at, r.headroom_at, r.whole, r.len_at))
        ∙ ap (λ t. t ++ (bytes ++ drop (b.data_at + b.len + length bytes) b.memory)) r.held_at)
      ∙ (take-append_more b.len (length bytes) p.held _ r.len_at
          ∙ ap (λ t. p.held ++ t)
              (take-append (length bytes) bytes (drop (b.data_at + b.len + length bytes) b.memory)
                refl));
}

reserve-Represents :
    (b : NetBuffer) (p : Packet) (n : ℕ)
    → Represents b p
    → length p.held ≡ 0
    → n ≤ total p
    → Represents
        (record b {
          offset = n;
          data_at =
              (if bit_and b.flags net_buf_flag_alloc == 0 then b.data_at else b.data_at - b.offset)
              + n;
        })
        (record { headroom = n; held = []; tailroom = total p - n })
reserve-Represents b p n r empty fits = rw (r.is_own) (record {
  is_own = r.is_own;
  start_at = omega (arith, r.start_at);
  headroom_at = refl;
  len_at = omega (arith, r.len_at);
  whole = omega (arith, r.whole);
  held_at =
      ap (λ t. take t (drop (b.data_at - b.offset + n) b.memory)) {x = b.len} {y = 0}
        (omega (arith, r.len_at));
})

-- Each step of the code does what the same step of the specification does.
step-Represents :
    (b : NetBuffer) (p : Packet) (s : Step)
    → Represents b p
    → Fits (total p) s
    → Agree (step b s) (packet_step p s)
unfolding net_buffer_push net_buffer_pull net_buffer_append net_buffer_reserve
step-Represents b p (push bytes) r fit = elim (Bool-cases (ltb p.headroom (length bytes))) [
  | inl short ↦
      rw (same_test b.offset p.headroom (length bytes) r.headroom_at, short)
        (record { represents = r; same_result = refl })
  | inr fits ↦
      rw (same_test b.offset p.headroom (length bytes) r.headroom_at, fits)
        (record { represents = push-Represents b p bytes r (ground arith); same_result = refl })
]
step-Represents b p (pull n) r fit = elim (Bool-cases (ltb (length p.held) n)) [
  | inl short ↦
      rw (same_test b.len (length p.held) n r.len_at, short)
        (record { represents = r; same_result = refl })
  | inr fits ↦
      rw (same_test b.len (length p.held) n r.len_at, fits)
        (record { represents = pull-Represents b p n r (ground arith); same_result = refl })
]
step-Represents b p (append bytes) r fit = elim (Bool-cases (ltb p.tailroom (length bytes))) [
  | inl short ↦ rw (tail_test short, short) (record { represents = r; same_result = refl })
  | inr fits ↦
      rw (tail_test fits, fits)
        (record { represents = append-Represents b p bytes r (ground arith); same_result = refl })
]
  where
    tail_test :
        {t : Bool}
        → ltb p.tailroom (length bytes) ≡ t
        → ltb (size b) ((b.offset + b.len + length bytes) % 2 ^ 32) ≡ t
    tail_test e = ground (arith, r.whole, r.headroom_at, r.len_at, fit)
step-Represents b p (reserve n) r fit = elim (Bool-cases (ltb 0 (length p.held))) [
  | inl busy ↦ rw (ap (ltb 0) r.len_at, busy) (record { represents = r; same_result = refl })
  | inr empty ↦ elim (Bool-cases (ltb (total p) n)) [
    | inl short ↦
        rw (ap (ltb 0) r.len_at, empty, same_test (size b) (total p) n r.whole, short)
          (record { represents = r; same_result = refl })
    | inr fits ↦
        rw (ap (ltb 0) r.len_at, empty, same_test (size b) (total p) n r.whole, fits)
          (record {
            represents = reserve-Represents b p n r (ground arith) (ground arith);
            same_result = refl;
          })
  ]
]

-- The results of a row of steps, and what is left.
abbrev pub run : NetBuffer → List Step → NetBuffer × List ℤ
run b [] = (b, [])
run b (s ∷ steps) = let r = step b s in let rest = run r.0 steps in (rest.0, r.1 ∷ rest.1)

abbrev pub packet_run : Packet → List Step → Packet × List ℤ
packet_run p [] = (p, [])
packet_run p (s ∷ steps) =
    let r = packet_step p s in let rest = packet_run r.0 steps in (rest.0, r.1 ∷ rest.1)

-- No step changes the size of the block.
same_total : (p : Packet) (s : Step) → total (packet_step p s).0 ≡ total p
same_total p (push bytes) = elim (Bool-cases (ltb p.headroom (length bytes))) [
  | inl short ↦ rw short refl
  | inr fits ↦ rw fits (ground (arith, fits, length-append bytes p.held))
]
same_total p (pull n) = elim (Bool-cases (ltb (length p.held) n)) [
  | inl short ↦ rw short refl
  | inr fits ↦ rw fits (ground (arith, fits, length-drop n p.held))
]
same_total p (append bytes) = elim (Bool-cases (ltb p.tailroom (length bytes))) [
  | inl short ↦ rw short refl
  | inr fits ↦ rw fits (ground (arith, fits, length-append p.held bytes))
]
same_total p (reserve n) = elim (Bool-cases (ltb 0 (length p.held))) [
  | inl busy ↦ rw busy refl
  | inr empty ↦ elim (Bool-cases (ltb (total p) n)) [
    | inl short ↦ rw (empty, short) refl
    | inr fits ↦ rw (empty, fits) (ground (arith, fits))
  ]
]

-- Any row of pushes, pulls, appends and reservations on a buffer has the results that the
-- specification gives, the refusals included, and leaves a buffer that holds the specification's
-- bytes, with its room in front and behind: where the size of the block and the length of what an
-- append adds have a sum below 2^32.
pub run_buffer_refines :
    (steps : List Step) (b : NetBuffer) (p : Packet)
    → Represents b p
    → All (Fits (total p)) steps
    → Represents (run b steps).0 (packet_run p steps).0 × ((run b steps).1 ≡ (packet_run p steps).1)
run_buffer_refines [] b p r fit = (r, refl)
run_buffer_refines (s ∷ steps) b p r fit =
    let a = step-Represents b p s r fit.0 in
    let (after, same) =
      run_buffer_refines steps (step b s).0 (packet_step p s).0 a.represents
        (subst (λ n. All (Fits n) steps) (sym (same_total p s)) fit.1) in
    (after, cc (a.same_result, same))

-- A new buffer holds nothing, between reserve_header free bytes and the rest.
pub alloc-Represents :
    (block : List ℕ) (reserve_header : ℕ)
    → length block ≢ 0
    → reserve_header ≤ length block
    → (net_buffer_alloc true (some block) (length block) reserve_header
        ≡ some (fresh block reserve_header))
      × Represents (fresh block reserve_header) (record {
        headroom = reserve_header;
        held = [];
        tailroom = length block - reserve_header;
      })
unfolding net_buffer_alloc
alloc-Represents block reserve_header some_bytes fits = (
  rw (nonzero (length block) some_bytes) refl,
  record {
    is_own = refl;
    start_at = refl;
    headroom_at = refl;
    len_at = refl;
    whole = omega arith;
    held_at = refl;
  },
)
  where
    nonzero : (n : ℕ) → n ≢ 0 → (n == 0) ≡ false
    nonzero n ne = ground (arith, ne)
