-- ===== src/Net/Ip/Packet.antt =====
-- ip_checksum, ip_tx and ip_rx of network/src/ip.c, on a little-endian machine. The functions
-- netbuf_push, netbuf_pull and netbuf_trim that they call are defined nowhere in the repository.
use uint_os.Common.{
  ℕ, ◌+◌, ◌-◌, ◌*◌, ◌/◌, ◌%◌, ◌^◌, Bool, not, ◌&&◌, ◌||◌, Option, none, some, List, [], ◌∷◌, ◌++◌,
  ◌==◌, ltb, if◌then◌else◌, length, get_or, set, take, bit_and,
}
use uint_os.Tcp.Checksum.{sum_words, fold_sum}
use uint_os.Net.Buffer.{NetBuffer, content, fill}
use uint_os.Net.Ip.Address.{
  Ip, IpAddr, addr, find_handler, ip_is_broadcast, ip_is_local_address, ip_is_on_local_subnet,
  ip_is_zero_address,
}

-- The functions on buffers that are used and not defined; `none` stands for NULL.
pub record NetBuf : Type 0 where
  pub netbuf_push : NetBuffer → ℕ → Option NetBuffer
  pub netbuf_pull : NetBuffer → ℕ → NetBuffer
  pub netbuf_trim : NetBuffer → ℕ → NetBuffer

abbrev pub ip_header_min_size : ℕ
ip_header_min_size = 20

unfoldable pub ip_checksum : List ℕ → ℕ
unfolding sum_words fold_sum
ip_checksum bytes = 2 ^ 16 - 1 - fold_sum 3 (sum_words bytes % 2 ^ 32)

-- The fields of a header without options.
pub record Header : Type 0 where
  pub total_length : ℕ
  pub identification : ℕ
  pub flags_and_offset : ℕ
  pub ttl : ℕ
  pub protocol : ℕ
  pub src : IpAddr
  pub dest : IpAddr

-- htons, as bytes
abbrev pub bytes16 : ℕ → List ℕ
bytes16 n = n / 256 % 256 ∷ n % 256 ∷ []

abbrev pub addr_bytes : IpAddr → List ℕ
addr_bytes a = a.b0 ∷ a.b1 ∷ a.b2 ∷ a.b3 ∷ []

-- The header with that word as its checksum, stored as it is.
abbrev pub header_with : Header → ℕ → List ℕ
header_with h checksum =
    0x45
    ∷ 0
    ∷ (bytes16 h.total_length
        ++ (bytes16 h.identification
            ++ (bytes16 h.flags_and_offset
                ++ (h.ttl
                    ∷ h.protocol
                    ∷ checksum % 256
                    ∷ checksum / 256 % 256
                    ∷ (addr_bytes h.src ++ addr_bytes h.dest)))))

unfoldable pub header_bytes : Header → List ℕ
unfolding ip_checksum
header_bytes h = header_with h (ip_checksum (header_with h 0))

-- The header that ip_tx fills for a packet of `len` bytes.
abbrev pub header_of {ℓ} : {H : Type ℓ} → Ip H → ℕ → IpAddr → ℕ → Header
header_of s len dest protocol = record {
  total_length = len;
  identification = 0;
  flags_and_offset = 2 * 2 ^ 13;
  ttl = 64;
  protocol = protocol;
  src = s.local_ip;
  dest = dest;
}

-- What ip_tx gives to ethernet_tx, or that it returns -1; then the buffer is as it stands there.
pub data Sent : Type 0 where
  refused : Sent
  no_route : NetBuffer → Sent
  transmit : NetBuffer → IpAddr → Sent

unfoldable pub ip_tx {ℓ} : {H : Type ℓ} → NetBuf → Ip H → NetBuffer → IpAddr → ℕ → Sent
unfolding header_bytes ip_is_on_local_subnet
ip_tx net s buffer dest protocol = elim (net.netbuf_push buffer ip_header_min_size) [
  | none ↦ refused
  | some b ↦
      let filled = fill b (header_bytes (header_of s b.len dest protocol)) in
      if ip_is_on_local_subnet s dest
      then transmit filled dest
      else if ip_is_zero_address s.default_gateway
      then no_route filled
      else transmit filled s.default_gateway
]

-- What ip_rx does with a packet: returns -1, or calls a handler with the rest and two addresses.
pub data IpResult {ℓ} (H : Type ℓ) : Type ℓ where
  dropped : IpResult H
  handed : H → NetBuffer → IpAddr → IpAddr → IpResult H

abbrev pub read16 : List ℕ → ℕ → ℕ
read16 bytes i = get_or bytes i 0 * 256 + get_or bytes (i + 1) 0

abbrev pub read_addr : List ℕ → ℕ → IpAddr
read_addr bytes i =
    addr (get_or bytes i 0) (get_or bytes (i + 1) 0) (get_or bytes (i + 2) 0)
      (get_or bytes (i + 3) 0)

abbrev pub header_length : List ℕ → ℕ
header_length bytes = get_or bytes 0 0 % 16 * 4

-- The tests of the header that come before the addresses.
unfoldable pub is_bad : List ℕ → Bool
unfolding ip_checksum
is_bad bytes =
    ltb (length bytes) ip_header_min_size
    || (not (get_or bytes 0 0 / 16 % 16 == 4)
        || (ltb (get_or bytes 0 0 % 16) 5
            || (ltb (length bytes) (header_length bytes)
                || (not (
                      get_or bytes 10 0 + get_or bytes 11 0 * 256
                      == ip_checksum (take (header_length bytes) (set (set bytes 10 0) 11 0)))
                    || ltb (length bytes) (read16 bytes 2)))))

-- offset != 0 || (flags & IP_FLAG_MORE_FRAGMENTS)
abbrev pub is_fragment : ℕ → Bool
is_fragment flags_and_offset =
    not (bit_and flags_and_offset 0x1FFF == 0)
    || not (bit_and (bit_and (flags_and_offset / 2 ^ 13) 7) 4 == 0)

-- The buffer with n bytes at most.
abbrev pub trim_to : NetBuf → NetBuffer → ℕ → NetBuffer
trim_to net b n = if ltb n b.len then net.netbuf_trim b (b.len - n) else b

abbrev pub trimmed : NetBuf → NetBuffer → NetBuffer
trimmed net b = trim_to net b (read16 (content b) 2)

-- ip_rx behind the tests of the header; `b` is trimmed, and the header is read from `bytes`, what it
-- held before.
unfoldable pub deliver_packet {ℓ} : {H : Type ℓ} → NetBuf → Ip H → NetBuffer → List ℕ → IpResult H
deliver_packet net s b bytes =
    if is_fragment (read16 bytes 6)
    then dropped
    else if not (ip_is_local_address s (read_addr bytes 16))
        && not (ip_is_broadcast s (read_addr bytes 16))
    then dropped
    else elim (find_handler s.handlers (get_or bytes 9 0)) [
      | none ↦ dropped
      | some handler ↦
          handed handler (net.netbuf_pull b (header_length bytes)) (read_addr bytes 12)
            (read_addr bytes 16)
    ]

unfoldable pub ip_rx {ℓ} : {H : Type ℓ} → NetBuf → Ip H → Option NetBuffer → IpResult H
unfolding is_bad deliver_packet
ip_rx net s none = dropped
ip_rx net s (some b) =
    if is_bad (content b) then dropped else deliver_packet net s (trimmed net b) (content b)
