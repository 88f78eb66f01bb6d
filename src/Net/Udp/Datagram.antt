-- ===== src/Net/Udp/Datagram.antt =====
-- A datagram of network/src/udp.c from its sender to the callback of a socket.
use uint_os.Common.{
  ℕ, ◌+◌, ◌-◌, ◌*◌, ◌/◌, ◌%◌, ◌^◌, ◌<◌, ◌≡◌, refl, ap, ◌∙◌, Bool, true, false, ◌&&◌, ◌||◌, some,
  List, ◌∷◌, ◌++◌, ◌==◌, ltb, if◌then◌else◌, length, take, drop, take-append, arith, length-append,
}
use uint_os.Common.Int.{pos}
use uint_os.Net.Udp.{
  Below, Udp, udp_checksum, udp_header, is_bad_datagram, find_udp, udp_max_sockets, udp_rx,
  datagram, field16, hand_over, received_by,
}

checksum_fits :
    (header payload : List ℕ) (src dest : ℕ) → udp_checksum header payload src dest < 2 ^ 16
unfolding udp_checksum
checksum_fits header payload src dest = omega arith

pack_checksum : (n : ℕ) → n < 2 ^ 16 → (n % 256 + n / 256 % 256 * 256 == n) ≡ true
pack_checksum n h = ground arith

pack16 : (n : ℕ) → n < 2 ^ 16 → n / 256 % 256 * 256 + n % 256 ≡ n
pack16 n h = omega arith

-- The payload, cut out of a packet that may be padded.
cut : (payload padding : List ℕ) → take (8 + length payload - 8) (payload ++ padding) ≡ payload
cut payload padding = take-append (8 + length payload - 8) payload padding (omega arith)

good :
    (src_port dest_port : ℕ) (payload padding : List ℕ) (src dest : ℕ)
    → 8 + length payload < 2 ^ 16
    → is_bad_datagram (datagram src_port dest_port payload src dest ++ padding) src dest ≡ false
unfolding is_bad_datagram datagram
good src_port dest_port payload padding src dest small =
    let header = udp_header src_port dest_port (8 + length payload) 0 in
    let packet = datagram src_port dest_port payload src dest ++ padding in
    rw
      (
        pack16 (8 + length payload) small,
        cut payload padding,
        pack_checksum (udp_checksum header payload src dest)
            (checksum_fits header payload src dest),
      )
      (passes (ltb (length packet) 8) (ltb (8 + length payload) 8)
        (ltb (length packet) (8 + length payload)) _ (ground arith) (ground arith)
        (ground (arith, length-append payload padding)))
  where
    passes :
        (a b c x : Bool)
        → a ≡ false
        → b ≡ false
        → c ≡ false
        → (a || (b || (c || (x && false)))) ≡ false
    passes false false false true ea eb ec = refl
    passes false false false false ea eb ec = refl
    passes true b c x ea eb ec = cc ea
    passes false true c x ea eb ec = cc eb
    passes false false true x ea eb ec = cc ec

called :
    (u : Udp) (i src port : ℕ) (payload : List ℕ)
    → (u.sockets i).receive_callback ≡ true
    → hand_over u i src port payload ≡ record u {
      calls = record { socket = i; src_addr = src; src_port = port; payload = payload } ∷ u.calls;
    }
called u i src port payload e =
    ap
      (λ t.
        if t
        then record u {
          calls =
              record { socket = i; src_addr = src; src_port = port; payload = payload } ∷ u.calls;
        }
        else u)
      e

-- What udp_rx reads from a datagram: the sender's port, and the data.
read_lem :
    (src_port dest_port : ℕ) (payload padding : List ℕ) (src dest : ℕ)
    → src_port < 2 ^ 16
    → dest_port < 2 ^ 16
    → 8 + length payload < 2 ^ 16
    → (field16 (datagram src_port dest_port payload src dest ++ padding) 0 ≡ src_port)
      × ((field16 (datagram src_port dest_port payload src dest ++ padding) 2 ≡ dest_port)
          × (take
                (field16 (datagram src_port dest_port payload src dest ++ padding) 4 - 8)
                (drop 8 (datagram src_port dest_port payload src dest ++ padding))
              ≡ payload))
unfolding datagram
read_lem src_port dest_port payload padding src dest sp dp small = (
  pack16 src_port sp,
  (pack16 dest_port dp, rw (pack16 (8 + length payload) small) (cut payload padding)),
)

-- A datagram of less than 2^16 bytes with ports of 16 bits, as udp_tx builds it, reaches the socket
-- that udp_find_socket gives for its destination, if that has a callback: udp_rx passes the
-- checksum test, calls the callback once, with the sender's address and port and the very data,
-- whatever padding stands behind the datagram, and returns 0.
pub datagram_delivered :
    (net : Below) (u : Udp) (src_port dest_port : ℕ) (payload padding : List ℕ) (src dest i : ℕ)
    → src_port < 2 ^ 16
    → dest_port < 2 ^ 16
    → 8 + length payload < 2 ^ 16
    → find_udp udp_max_sockets 0 net u.sockets dest_port dest ≡ some i
    → (u.sockets i).receive_callback ≡ true
    → udp_rx net u (some (datagram src_port dest_port payload src dest ++ padding)) src dest ≡ (
      record u {
        calls =
            record { socket = i; src_addr = src; src_port = src_port; payload = payload } ∷ u.calls;
      },
      pos 0,
    )
unfolding udp_rx
datagram_delivered net u src_port dest_port payload padding src dest i sp dp small found
      registered =
    let packet = datagram src_port dest_port payload src dest ++ padding in
    let (port_is, (dest_is, data_is)) =
      read_lem src_port dest_port payload padding src dest sp dp small in
    rw (good src_port dest_port payload padding src dest small) (
      ap (λ d. received_by u packet src (find_udp udp_max_sockets 0 net u.sockets d dest)) dest_is
      ∙ (ap (received_by u packet src) found
          ∙ (ap (λ p. (hand_over u i src p (take (field16 packet 4 - 8) (drop 8 packet)), pos 0))
                port_is
              ∙ (ap (λ d. (hand_over u i src src_port d, pos 0)) data_is
                  ∙ ap (λ v. (v, pos 0)) (called u i src src_port payload registered)))))
