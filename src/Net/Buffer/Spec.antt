-- ===== src/Net/Buffer/Spec.antt =====
-- What the buffers of network/src/network.c promise: bytes with room at both ends.
use uint_os.Common.{
  ℕ, ◌+◌, ◌-◌, ◌^◌, ◌<◌, ◌≡◌, ap, false, Option, none, some, List, [], ◌++◌, ◌==◌, ltb,
  if◌then◌else◌, length, drop, bit_and,
}
use uint_os.Common.Int.{ℤ, pos}
use uint_os.Net.Buffer.{
  NetBuffer, size, content, fill, net_buf_flag_alloc, net_err_invalid, net_err_nomem,
  net_buffer_push, net_buffer_pull, net_buffer_reserve, net_buffer_append,
}

-- The specification: free bytes in front, the bytes held, and free bytes behind.
pub record Packet : Type 0 where
  pub headroom : ℕ
  pub held : List ℕ
  pub tailroom : ℕ

pub record Represents (b : NetBuffer) (p : Packet) : Type 0 where
  pub is_own : (bit_and b.flags net_buf_flag_alloc == 0) ≡ false
  pub start_at : b.data_at ≡ b.offset
  pub headroom_at : b.offset ≡ p.headroom
  pub len_at : b.len ≡ length p.held
  pub whole : size b ≡ p.headroom + (length p.held + p.tailroom)
  pub held_at : content b ≡ p.held

-- What a protocol does with a buffer: puts a header in front, takes one off, adds bytes behind,
-- makes room in front.
pub data Step : Type 0 where
  push : List ℕ → Step
  pull : ℕ → Step
  append : List ℕ → Step
  reserve : ℕ → Step

-- The sum of the block's size and of what is added behind fits a size_t.
abbrev pub Fits : ℕ → Step → Type 0
Fits total (append bytes) = total + length bytes < 2 ^ 32
Fits total (push bytes) = Unit
Fits total (pull n) = Unit
Fits total (reserve n) = Unit

abbrev pub pushed : NetBuffer → List ℕ → Option NetBuffer → NetBuffer × ℤ
pushed b bytes none = (b, net_err_nomem)
pushed b bytes (some b') = (fill b' bytes, pos 0)

abbrev pub pulled : NetBuffer → Option NetBuffer → NetBuffer × ℤ
pulled b none = (b, net_err_invalid)
pulled b (some b') = (b', pos 0)

-- A step of the code; a result of NULL is answered with an error.
abbrev pub step : NetBuffer → Step → NetBuffer × ℤ
step b (push bytes) = pushed b bytes (net_buffer_push b (length bytes))
step b (pull n) = pulled b (net_buffer_pull b n)
step b (append bytes) = net_buffer_append b (some bytes)
step b (reserve n) = net_buffer_reserve b n

abbrev pub total : Packet → ℕ
total p = p.headroom + (length p.held + p.tailroom)

-- The same step on the specification.
abbrev pub packet_step : Packet → Step → Packet × ℤ
packet_step p (push bytes) =
    if ltb p.headroom (length bytes)
    then (p, net_err_nomem)
    else (record p { headroom = p.headroom - length bytes; held = bytes ++ p.held }, pos 0)
packet_step p (pull n) =
    if ltb (length p.held) n
    then (p, net_err_invalid)
    else (record p { headroom = p.headroom + n; held = drop n p.held }, pos 0)
packet_step p (append bytes) =
    if ltb p.tailroom (length bytes)
    then (p, net_err_nomem)
    else (record p { held = p.held ++ bytes; tailroom = p.tailroom - length bytes }, pos 0)
packet_step p (reserve n) =
    if ltb 0 (length p.held)
    then (p, net_err_invalid)
    else if ltb (total p) n
    then (p, net_err_nomem)
    else (record { headroom = n; held = []; tailroom = total p - n }, pos 0)

-- A pair of results that agree.
pub record Agree (r : NetBuffer × ℤ) (s : Packet × ℤ) : Type 0 where
  pub represents : Represents r.0 s.0
  pub same_result : r.1 ≡ s.1

same_test : (x y n : ℕ) → x ≡ y → ltb x n ≡ ltb y n
same_test x y n e = ap (λ t. ltb t n) e
