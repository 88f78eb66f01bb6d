-- ===== src/Net/Ethernet/Dispatch.antt =====
-- Where ethernet_rx of network/src/ethernet.c sends a frame.
use uint_os.Common.{◌+◌, ◌-◌, take}
use uint_os.Net.Buffer.{NetBuffer, content}
use uint_os.Net.Ethernet.{with_flags}

-- A frame behind its header, as ARP gets it.
behind : NetBuffer → NetBuffer
behind b = record b {
  data_at = b.data_at + 14;
  offset = b.offset + 14;
  len = b.len - 14;
  protocol = 1;
}

arp_packet : NetBuffer → NetBuffer
unfolding behind
arp_packet b = record (with_flags (behind b) (take 6 (content b))) { protocol = 2 }
