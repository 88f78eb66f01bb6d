-- ===== src/Net/Ip/Wire.antt =====
-- A packet that ip_tx of network/src/ip.c has built, as ip_rx takes it.
use uint_os.Common.{
  ℕ, ◌+◌, ◌-◌, ◌*◌, ◌/◌, ◌%◌, ◌^◌, ◌≤◌, ◌<◌, ◌≡◌, refl, ap, sym, ◌∙◌, Bool, true, false, not, ◌&&◌,
  ◌||◌, some, List, ◌++◌, ◌==◌, ltb, length, take, drop, append_assoc, length-append, take-append,
  take-all, arith, Bool-cases, inl, inr,
}
use mathlib.Core.Path.{subst}
use uint_os.Net.Buffer.{NetBuffer, content, fill}
use uint_os.Net.Ip.Address.{Ip, find_handler, ip_is_broadcast, ip_is_local_address}
use uint_os.Net.Ip.Packet.{
  NetBuf, Header, header_with, header_bytes, ip_checksum, is_bad, is_fragment, deliver_packet,
  handed, ip_rx, trimmed, trim_to, read16, ip_header_min_size,
}

-- A buffer whose bytes lie in its block.
pub record IsSound (b : NetBuffer) : Type 0 where
  pub start_at : b.data_at ≡ b.offset
  pub inside : b.data_at + b.len ≤ length b.memory
  pub len_at : b.len ≡ length (content b)

-- What the names of the functions on buffers promise.
pub record Works (net : NetBuf) : Type 0 where
  pub push_lem :
      (b b' : NetBuffer) (n : ℕ)
      → IsSound b
      → net.netbuf_push b n ≡ some b'
      → (b'.len ≡ b.len + n)
        × ((bytes : List ℕ) → length bytes ≡ n → content (fill b' bytes) ≡ bytes ++ content b)
  pub pull_lem :
      (b : NetBuffer) (n : ℕ)
      → IsSound b
      → n ≤ b.len
      → content (net.netbuf_pull b n) ≡ drop n (content b)
  pub trim_lem :
      (b : NetBuffer) (n : ℕ)
      → IsSound b
      → n ≤ b.len
      → IsSound (net.netbuf_trim b n)
        × (content (net.netbuf_trim b n) ≡ take (b.len - n) (content b))

-- The fields fit their places in the header.
pub record Fits (h : Header) : Type 0 where
  pub length_fits : h.total_length < 2 ^ 16
  pub flags_fit : h.flags_and_offset < 2 ^ 16

checksum_fits : (bytes : List ℕ) → ip_checksum bytes < 2 ^ 16
unfolding ip_checksum
checksum_fits bytes = omega arith

pack16 : (n : ℕ) → n < 2 ^ 16 → n / 256 % 256 * 256 + n % 256 ≡ n
pack16 n h = omega arith

pack_checksum : (n : ℕ) → n < 2 ^ 16 → (n % 256 + n / 256 % 256 * 256 == n) ≡ true
pack_checksum n h = ground arith

-- The header passes all tests, with at least as many bytes behind it as it says.
good :
    (h : Header) (rest : List ℕ)
    → Fits h
    → h.total_length ≤ 20 + length rest
    → is_bad (header_bytes h ++ rest) ≡ false
unfolding is_bad header_bytes
good h rest fits le =
    rw
      (
        pack_checksum (ip_checksum (header_with h 0)) (checksum_fits (header_with h 0)),
        pack16 h.total_length fits.length_fits,
      )
      sizes
  where
    sizes :
        (ltb (length (header_bytes h ++ rest)) ip_header_min_size
          || (ltb (length (header_bytes h ++ rest)) 20
              || ltb (length (header_bytes h ++ rest)) h.total_length))
        ≡ false
    sizes = ground arith

length_header : (h : Header) (rest : List ℕ) → length (header_bytes h ++ rest) ≡ 20 + length rest
unfolding header_bytes
length_header h rest = omega arith

drop_header : (h : Header) (rest : List ℕ) → drop 20 (header_bytes h ++ rest) ≡ rest
unfolding header_bytes
drop_header h rest = refl

module _ {ℓ} {H : Type ℓ} (net : NetBuf) (works : Works net) (s : Ip H) where
  -- Bytes that begin with a header, behind the tests of the header.
  deliver_packet-handed :
      (b : NetBuffer) (h : Header) (payload : List ℕ) (handler : H)
      → Fits h
      → is_fragment h.flags_and_offset ≡ false
      → (ip_is_local_address s h.dest || ip_is_broadcast s h.dest) ≡ true
      → find_handler s.handlers h.protocol ≡ some handler
      → deliver_packet net s b (header_bytes h ++ payload)
        ≡ handed handler (net.netbuf_pull b 20) h.src h.dest
  unfolding deliver_packet header_bytes
  deliver_packet-handed b h payload handler fits whole ours found =
      rw
        (
          pack16 h.flags_and_offset fits.flags_fit,
          whole,
          for_us (ip_is_local_address s h.dest) (ip_is_broadcast s h.dest) ours,
          found,
        )
        refl
    where
      for_us : (x y : Bool) → (x || y) ≡ true → (not x && not y) ≡ false
      for_us true y e = refl
      for_us false true e = refl
      for_us false false e = cc

  -- What a buffer holds once it has been trimmed to its first part.
  trim_to_lem :
      (b : NetBuffer) (n : ℕ) (bytes padding : List ℕ)
      → IsSound b
      → content b ≡ bytes ++ padding
      → n ≡ length bytes
      → IsSound (trim_to net b n) × (content (trim_to net b n) ≡ bytes)
  trim_to_lem b n bytes padding sound is len = elim (Bool-cases (ltb n b.len)) [
    | inl longer ↦
        let (sound', e) = works.trim_lem b (b.len - n) sound (omega arith) in
        rw longer (
          sound',
          e
              ∙ (ap (λ t. take t (content b)) {x = b.len - (b.len - n)} {y = n} (ground arith)
                  ∙ (ap (take n) is ∙ take-append n bytes padding len)),
        )
    | inr fits ↦ rw fits (
      sound,
      sym (take-all n (content b) (ground (arith, sound.len_at)))
          ∙ (ap (take n) is ∙ take-append n bytes padding len),
    )
  ]

  trimmed_lem :
      (b : NetBuffer) (h : Header) (payload padding : List ℕ)
      → Fits h
      → IsSound b
      → content b ≡ header_bytes h ++ (payload ++ padding)
      → h.total_length ≡ 20 + length payload
      → IsSound (trimmed net b) × (content (trimmed net b) ≡ header_bytes h ++ payload)
  unfolding header_bytes
  trimmed_lem b h payload padding fits sound is len =
      subst
        (λ n. IsSound (trim_to net b n) × (content (trim_to net b n) ≡ header_bytes h ++ payload))
        {x = h.total_length} {y = read16 (content b) 2}
        (sym (ap (λ t. read16 t 2) is ∙ pack16 h.total_length fits.length_fits))
        (trim_to_lem b h.total_length (header_bytes h ++ payload) padding sound
          (is ∙ sym (append_assoc (header_bytes h) payload padding)) (omega arith))

  -- ip_rx
  pub rx_lem :
      (b : NetBuffer) (h : Header) (payload padding : List ℕ) (handler : H)
      → Fits h
      → IsSound b
      → content b ≡ header_bytes h ++ (payload ++ padding)
      → h.total_length ≡ 20 + length payload
      → is_fragment h.flags_and_offset ≡ false
      → (ip_is_local_address s h.dest || ip_is_broadcast s h.dest) ≡ true
      → find_handler s.handlers h.protocol ≡ some handler
      → (rest : NetBuffer) × ((ip_rx net s (some b) ≡ handed handler rest h.src h.dest)
          × (content rest ≡ payload))
  unfolding ip_rx
  rx_lem b h payload padding handler fits sound is len whole ours found =
      let (sound', rest_is) = trimmed_lem b h payload padding fits sound is len in
      (
        net.netbuf_pull (trimmed net b) 20,
        (
          rw
              (ap is_bad is
                ∙ good h (payload ++ padding) fits (omega (arith, length-append payload padding)))
              (ap (deliver_packet net s (trimmed net b)) is
                ∙ deliver_packet-handed (trimmed net b) h (payload ++ padding) handler fits whole
                    ours found),
          works.pull_lem (trimmed net b) 20 sound'
                (omega (arith, sound'.len_at, ap length rest_is, length_header h payload))
              ∙ (ap (drop 20) rest_is ∙ drop_header h payload),
        ),
      )

  -- ip_rx takes a first fragment for a whole packet: it hands over the payload of a packet whose
  -- flags word has the bit for more fragments set, and no other.
  pub first_fragment_handed :
      (b : NetBuffer) (h : Header) (payload padding : List ℕ) (handler : H)
      → h.flags_and_offset ≡ 2 ^ 13
      → IsSound b
      → content b ≡ header_bytes h ++ (payload ++ padding)
      → h.total_length ≡ 20 + length payload
      → h.total_length < 2 ^ 16
      → (ip_is_local_address s h.dest || ip_is_broadcast s h.dest) ≡ true
      → find_handler s.handlers h.protocol ≡ some handler
      → (rest : NetBuffer) × ((ip_rx net s (some b) ≡ handed handler rest h.src h.dest)
          × (content rest ≡ payload))
  first_fragment_handed b h payload padding handler more sound is len small ours found =
      rx_lem b h payload padding handler
        (record { length_fits = small; flags_fit = omega (arith, more) }) sound is len
        (ap is_fragment more) ours found
