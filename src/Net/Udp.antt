-- ===== src/Net/Udp.antt =====
-- network/src/udp.c, on a little-endian machine. Addresses are kept as the words that the checksum
-- reads; a packet is its bytes and the two addresses that udp_rx reads at protocol_data.
pub mod Datagram
pub mod Sockets
use uint_os.Common.{
  ℕ, zero, suc, ◌+◌, ◌-◌, ◌*◌, ◌/◌, ◌%◌, ◌^◌, Bool, true, false, not, ◌&&◌, ◌||◌, Option, none,
  some, List, [], ◌∷◌, ◌++◌, ◌==◌, ltb, if◌then◌else◌, length, get_or, take, drop, update,
}
use uint_os.Common.Int.{ℤ, pos, negsuc, ◌==ℤ◌}
use uint_os.Tcp.Checksum.{swap16, sum_words, fold_sum}
use uint_os.Tcp.Ports.{port_start, next_port, advance_port}

abbrev pub udp_max_sockets : ℕ
udp_max_sockets = 16

abbrev pub udp_header_size : ℕ
udp_header_size = 8

-- udp_socket_t; the callback is NULL or some function.
pub record UdpSocket : Type 0 where
  pub is_open : Bool
  pub local_port : ℕ
  pub remote_port : ℕ
  pub local_addr : ℕ
  pub remote_addr : ℕ
  pub options : ℕ
  pub receive_callback : Bool

-- A call of a receive callback: the socket, the sender's address and port, and the data.
pub record Call : Type 0 where
  pub socket : ℕ
  pub src_addr : ℕ
  pub src_port : ℕ
  pub payload : List ℕ

-- The statics, and the calls of callbacks so far.
pub record Udp : Type 0 where
  pub sockets : ℕ → UdpSocket
  pub last_dynamic_port : ℕ
  pub calls : List Call

-- What udp.c calls: ip_addr_is_any, whether ip_alloc_packet finds memory, the address of the default
-- device, and what ip_tx returns of a packet.
pub record Below : Type 0 where
  pub ip_addr_is_any : ℕ → Bool
  pub has_packet : Bool
  pub default_addr : Option ℕ
  pub ip_tx : List ℕ → ℕ → ℕ → ℤ

abbrev ip_proto_udp : ℕ
ip_proto_udp = 17

-- The five words of the pseudo-header, and udp_length.
abbrev sum_pseudo_udp : ℕ → ℕ → ℕ → ℕ
sum_pseudo_udp src_addr dest_addr data_len =
    src_addr % 2 ^ 16
    + src_addr / 2 ^ 16
    + dest_addr % 2 ^ 16
    + dest_addr / 2 ^ 16
    + ip_proto_udp * 256
    + swap16 (udp_header_size + data_len)

unfoldable pub udp_checksum : List ℕ → List ℕ → ℕ → ℕ → ℕ
unfolding fold_sum sum_words
udp_checksum header payload src_addr dest_addr =
    2 ^ 16
    - 1
    - fold_sum 3 (
        (sum_pseudo_udp src_addr dest_addr (length payload) + sum_words header + sum_words payload)
        % 2 ^ 32)

abbrev pub takes : Below → UdpSocket → ℕ → ℕ → Bool
takes net s dest_port dest_addr =
    s.is_open
    && (s.local_port == dest_port && (net.ip_addr_is_any s.local_addr || s.local_addr == dest_addr))

-- The loop of udp_find_socket: the rounds left, and i.
unfoldable pub find_udp : ℕ → ℕ → Below → (ℕ → UdpSocket) → ℕ → ℕ → Option ℕ
find_udp zero i net sockets dest_port dest_addr = none
find_udp (suc n) i net sockets dest_port dest_addr =
    let rest = find_udp n (i + 1) net sockets dest_port dest_addr in
    if takes net (sockets i) dest_port dest_addr then some i else rest

-- ntohs of the bytes at i
abbrev pub field16 : List ℕ → ℕ → ℕ
field16 packet i = get_or packet i 0 * 256 + get_or packet (i + 1) 0

-- The header with its checksum set to 0.
abbrev unsummed_udp : List ℕ → List ℕ
unsummed_udp packet = take 6 packet ++ (0 ∷ 0 ∷ [])

-- The tests of udp_rx on a packet: its length, and its checksum if it has one.
unfoldable pub is_bad_datagram : List ℕ → ℕ → ℕ → Bool
unfolding udp_checksum
is_bad_datagram packet src_addr dest_addr =
    let checksum = get_or packet 6 0 + get_or packet 7 0 * 256 in
    ltb (length packet) udp_header_size
    || (ltb (field16 packet 4) udp_header_size
        || (ltb (length packet) (field16 packet 4)
            || (not (checksum == 0)
                && not (
                    checksum
                    == udp_checksum (unsummed_udp packet)
                        (take (field16 packet 4 - 8) (drop 8 packet)) src_addr dest_addr))))

-- The callback, if there is one.
abbrev pub hand_over : Udp → ℕ → ℕ → ℕ → List ℕ → Udp
hand_over u i src_addr src_port payload =
    if (u.sockets i).receive_callback
    then record u {
      calls =
          record { socket = i; src_addr = src_addr; src_port = src_port; payload = payload }
          ∷ u.calls;
    }
    else u

abbrev pub received_by : Udp → List ℕ → ℕ → Option ℕ → Udp × ℤ
received_by u packet src_addr none = (u, negsuc 0)
received_by u packet src_addr (some i) =
    (hand_over u i src_addr (field16 packet 0) (take (field16 packet 4 - 8) (drop 8 packet)), pos 0)

unfoldable pub udp_rx : Below → Udp → Option (List ℕ) → ℕ → ℕ → Udp × ℤ
unfolding is_bad_datagram
udp_rx net u none src_addr dest_addr = (u, negsuc 0)
udp_rx net u (some packet) src_addr dest_addr =
    if is_bad_datagram packet src_addr dest_addr
    then (u, negsuc 0)
    else received_by u packet src_addr
        (find_udp udp_max_sockets 0 net u.sockets (field16 packet 2) dest_addr)

-- htons, as bytes
abbrev pub port_bytes : ℕ → List ℕ
port_bytes n = n / 256 % 256 ∷ n % 256 ∷ []

abbrev pub udp_header : ℕ → ℕ → ℕ → ℕ → List ℕ
udp_header src_port dest_port size checksum =
    port_bytes src_port
    ++ (port_bytes dest_port ++ (port_bytes size ++ (checksum % 256 ∷ checksum / 256 % 256 ∷ [])))

-- The packet that udp_tx builds.
unfoldable pub datagram : ℕ → ℕ → List ℕ → ℕ → ℕ → List ℕ
unfolding udp_checksum
datagram src_port dest_port payload src_addr dest_addr =
    let size = udp_header_size + length payload in
    udp_header src_port dest_port size
      (udp_checksum (udp_header src_port dest_port size 0) payload src_addr dest_addr)
    ++ payload

abbrev pub source_addr : Below → UdpSocket → ℕ
source_addr net s =
    if net.ip_addr_is_any s.local_addr
    then elim net.default_addr [ none ↦ 0 | some a ↦ a ]
    else s.local_addr

-- The result; what is sent is an argument of ip_tx.
unfoldable pub udp_tx : Below → Option UdpSocket → Option (List ℕ) → Option ℕ → ℕ → ℤ
unfolding datagram
udp_tx net none payload dest dest_port = negsuc 0
udp_tx net (some s) none dest dest_port = negsuc 0
udp_tx net (some s) (some payload) none dest_port = negsuc 0
udp_tx net (some s) (some payload) (some dest_addr) dest_port =
    if not net.has_packet
    then negsuc 0
    else let result =
        net.ip_tx (datagram s.local_port dest_port payload (source_addr net s) dest_addr)
          (source_addr net s) dest_addr in
      if result ==ℤ pos 0 then pos (length payload) else result
