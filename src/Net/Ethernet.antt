-- ===== src/Net/Ethernet.antt =====
-- ethernet_rx and ethernet_tx of network/src/ethernet.c, on a little-endian machine.
pub mod Dispatch
use uint_os.Common.{
  ℕ, ◌+◌, ◌-◌, ◌*◌, ◌/◌, ◌%◌, ◌^◌, Bool, true, false, not, ◌&&◌, ◌||◌, Option, none, some, List, [],
  ◌∷◌, ◌++◌, ◌==◌, ltb, leb, if◌then◌else◌, length, get_or, take, drop, update, bit_and, bit_or,
}
use uint_os.Common.Int.{ℤ, pos, negsuc, ◌==ℤ◌}
use uint_os.Net.Buffer.{
  NetBuffer, content, fill, net_err_invalid, net_err_nomem, net_buffer_push, net_buffer_pull,
}
use uint_os.Net.Device.{NetDevice, NetState, NetStats, same_text}

abbrev pub eth_header_size : ℕ
eth_header_size = 14

abbrev pub eth_type_ip : ℕ
eth_type_ip = 0x0800

abbrev pub eth_type_arp : ℕ
eth_type_arp = 0x0806

abbrev pub net_err_noproto : ℤ
net_err_noproto = negsuc 2

abbrev pub net_err_busy : ℤ
net_err_busy = negsuc 3

-- The functions that protocol_handlers can point to.
pub data EthHandler : Type 0 where
  ethernet_handle_ip : EthHandler
  ethernet_handle_arp : EthHandler

-- The table; of two initialisers for one place the later one counts.
unfoldable pub protocol_handlers : ℕ → Option EthHandler
protocol_handlers =
    update (update (λ i. none) (eth_type_ip / 2 ^ 8) (some ethernet_handle_ip))
      (eth_type_arp / 2 ^ 8) (some ethernet_handle_arp)

-- How far the table goes.
abbrev handler_count : ℕ
handler_count = 9

abbrev pub ethernet_is_broadcast : List ℕ → Bool
ethernet_is_broadcast mac = same_text mac (0xFF ∷ 0xFF ∷ 0xFF ∷ 0xFF ∷ 0xFF ∷ 0xFF ∷ [])

abbrev pub ethernet_is_multicast : List ℕ → Bool
ethernet_is_multicast mac = not (bit_and (get_or mac 0 0) 1 == 0)

-- What ethernet_rx does: returns a number, gives the buffer to ip_rx, or logs an ARP packet and
-- returns 0.
pub data EthResult : Type 0 where
  returned : ℤ → EthResult
  to_ip : NetBuffer → EthResult
  to_arp : NetBuffer → EthResult

-- ethernet_handle_ip and ethernet_handle_arp
abbrev handle : EthHandler → NetBuffer → EthResult
handle ethernet_handle_ip b = to_ip (record b { protocol = 3 })
handle ethernet_handle_arp b = to_arp (record b { protocol = 2 })

abbrev pub with_flags : NetBuffer → List ℕ → NetBuffer
with_flags b dest =
    if ethernet_is_broadcast dest
    then record b { flags = bit_or b.flags 2 }
    else if ethernet_is_multicast dest
    then record b { flags = bit_or b.flags 4 }
    else b

-- The buffer behind its header; net_buffer_pull leaves it where it returns NULL.
abbrev behind_header : NetBuffer → Option NetBuffer → NetBuffer
behind_header b none = b
behind_header b (some b') = b'

unfoldable pub ethernet_rx : Option NetBuffer → EthResult
unfolding protocol_handlers net_buffer_pull
ethernet_rx none = returned net_err_invalid
ethernet_rx (some b) =
    if ltb b.len eth_header_size
    then returned net_err_invalid
    else if leb handler_count (get_or (content b) 12 0)
    then returned net_err_noproto
    else elim (protocol_handlers (get_or (content b) 12 0)) [
      | none ↦ returned net_err_noproto
      | some handler ↦
          let b' = record b { protocol = 1 } in
          handle handler (
            with_flags (behind_header b' (net_buffer_pull b' eth_header_size)) (take 6 (content b)))
    ]

-- The statistics of a frame of `len` bytes.
abbrev with_frame : NetStats → ℕ → NetStats
with_frame s len = record s { tx_packets = s.tx_packets + 1; tx_bytes = s.tx_bytes + len }

abbrev failed : NetStats → NetStats
failed s = record s { tx_errors = s.tx_errors + 1 }

abbrev set_stats : NetState → ℕ → NetStats → NetState
set_stats s dev stats = record s {
  device_at = update s.device_at dev (record (s.device_at dev) { stats = stats });
}

-- The driver's result.
abbrev driven : NetState → ℕ → NetBuffer → Option (List ℕ → ℤ) → NetState × (NetBuffer × ℤ)
driven s dev b none = (s, (b, net_err_invalid))
driven s dev b (some transmit) =
    if transmit (content b) ==ℤ pos 0
    then (s, (b, pos 0))
    else (set_stats s dev (failed (s.device_at dev).stats), (b, transmit (content b)))

-- The frame's header: destination, source and type.
abbrev pub eth_header : List ℕ → List ℕ → ℕ → List ℕ
eth_header dest src ethertype = dest ++ (src ++ (ethertype / 256 % 256 ∷ ethertype % 256 ∷ []))

abbrev framed :
    NetState → ℕ → NetBuffer → List ℕ → ℕ → Option NetBuffer → NetState × (NetBuffer × ℤ)
framed s dev buffer dest ethertype none = (s, (buffer, net_err_nomem))
framed s dev buffer dest ethertype (some b) =
    let d = s.device_at dev in
    let frame = record (fill b (eth_header dest d.mac ethertype)) { device = some dev } in
    driven (set_stats s dev (with_frame d.stats frame.len)) dev frame d.transmit

unfoldable pub ethernet_tx :
    NetState → Option ℕ → NetBuffer → List ℕ → ℕ → NetState × (NetBuffer × ℤ)
unfolding net_buffer_push
ethernet_tx s none buffer dest ethertype = (s, (buffer, net_err_invalid))
ethernet_tx s (some dev) buffer dest ethertype =
    if bit_and (s.device_at dev).flags 1 == 0
    then (s, (buffer, net_err_busy))
    else if ltb buffer.offset eth_header_size
    then (s, (buffer, net_err_nomem))
    else framed s dev buffer dest ethertype (net_buffer_push buffer eth_header_size)
