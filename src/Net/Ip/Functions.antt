-- ===== src/Net/Ip/Functions.antt =====
-- The functions on buffers that network/src/ip.c calls, as network/src/network.c has them under other
-- names; a trim shortens the buffer.
use uint_os.Common.{
  ℕ, zero, suc, ◌+◌, ◌-◌, ◌≤◌, ◌≡◌, inl, inr, ap, sym, ◌∙◌, refl, none, some, List, [], ◌∷◌, Option,
  take, drop, length, arith, Bool-cases, ltb, length-take,
}
use uint_os.Net.Buffer.{NetBuffer, content, fill, net_buffer_push, net_buffer_pull}
use uint_os.Net.Buffer.Refine.{content-fill, content-pull}
use uint_os.Net.Ip.Packet.{NetBuf}
use uint_os.Net.Ip.Wire.{Works}

abbrev or_same : NetBuffer → Option NetBuffer → NetBuffer
or_same b none = b
or_same b (some b') = b'

abbrev pub functions : NetBuf
functions = record {
  netbuf_push = net_buffer_push;
  netbuf_pull = λ b n. or_same b (net_buffer_pull b n);
  netbuf_trim = λ b n. record b { len = b.len - n };
}

push_some :
    (b b' : NetBuffer) (n : ℕ)
    → net_buffer_push b n ≡ some b'
    → (n ≤ b.offset)
      × (b' ≡ record b { data_at = b.data_at - n; offset = b.offset - n; len = b.len + n })
unfolding net_buffer_push
push_some b b' n e = elim (Bool-cases (ltb b.offset n)) [
  | inl short ↦ absurd (cc (rw short at e))
  | inr fits ↦ (ground arith, cc (rw fits at e))
]

pull_fits :
    (b : NetBuffer) (n : ℕ)
    → n ≤ b.len
    → net_buffer_pull b n
      ≡ some (record b { data_at = b.data_at + n; offset = b.offset + n; len = b.len - n })
unfolding net_buffer_pull
pull_fits b n le = ground arith

take-take : (n m : ℕ) (xs : List ℕ) → n ≤ m → take n (take m xs) ≡ take n xs
take-take zero m xs le = refl
take-take (suc n) zero xs le = absurd (omega arith)
take-take (suc n) (suc m) [] le = refl
take-take (suc n) (suc m) (x ∷ xs) le = ap (λ t. x ∷ t) (take-take n m xs (omega arith))

-- With them ip.c has what it relies on.
pub functions-Works : Works functions
functions-Works = record {
  push_lem = λ b b' n sound e.
      let (fits, is) = push_some b b' n e in
      (
        ap NetBuffer.len is,
        λ bytes len.
            ap (λ t. content (fill t bytes))
              (is
                ∙ ap
                    (λ k. record b {
                      data_at = b.data_at - k;
                      offset = b.offset - k;
                      len = b.len + k;
                    })
                    (sym len))
            ∙ content-fill b bytes (omega (arith, sound.start_at)) (omega (arith, sound.inside)),
      );
  pull_lem =
      λ b n sound le. ap (λ t. content (or_same b t)) (pull_fits b n le) ∙ content-pull b n le;
  trim_lem = λ b n sound le.
      let trimmed = sym (take-take (b.len - n) b.len (drop b.data_at b.memory) (omega arith)) in
      (
        record {
          start_at = sound.start_at;
          inside = omega (arith, sound.inside);
          len_at = sym (
              ap length trimmed
              ∙ length-take (b.len - n) (content b) (omega (arith, sound.len_at)));
        },
        trimmed,
      );
}
