-- ===== src/Tcp/Receive.antt =====
-- tcp_find_socket and tcp_rx of network/src/tcp.c. A packet is its bytes and the two addresses that
-- IP leaves beside them.
use uint_os.Common.{
  ℕ, zero, suc, ◌+◌, ◌*◌, ◌/◌, ◌%◌, ◌^◌, Bool, not, ◌||◌, ◌&&◌, Option, none, some, List, [], ◌==◌,
  ltb, if◌then◌else◌, length, get_or, set, drop, take,
}
use uint_os.Common.Int.{ℤ, pos, negsuc}
use uint_os.Tcp.Buffer.{u32}
use uint_os.Tcp.Checksum.{tcp_header_size, tcp_checksum}
use uint_os.Tcp.Segment.{tcp_send_segment}
use uint_os.Tcp.Process.{tcp_process_syn, tcp_process_ack, tcp_process_data, tcp_process_fin}
use uint_os.Tcp.Socket.{
  Tcp, Net, Socket, Segment, closed, established, is_closed, is_listen, is_syn_sent, flag_fin,
  flag_syn, flag_rst, flag_ack, has, set_state, set_socket, notify, connected_event, closed_event,
  tcp_max_sockets,
}

-- Neither closed nor listening, and of that connection.
abbrev pub is_connection : Socket → ℕ → ℕ → ℕ → ℕ → Bool
is_connection s local_port local_addr remote_port remote_addr =
    not (is_listen s.state)
    && (s.local_port == local_port
        && (s.remote_port == remote_port
            && (s.local_addr == local_addr && s.remote_addr == remote_addr)))

abbrev pub listens_at : Net → Socket → ℕ → ℕ → Bool
listens_at net s local_port local_addr =
    is_listen s.state
    && (s.local_port == local_port
        && (net.ip_addr_is_any s.local_addr || s.local_addr == local_addr))

abbrev pub matches : Net → Socket → ℕ → ℕ → ℕ → ℕ → Bool
matches net s local_port local_addr remote_port remote_addr =
    not (is_closed s.state)
    && (is_connection s local_port local_addr remote_port remote_addr
        || listens_at net s local_port local_addr)

-- The loop of tcp_find_socket: the rounds left, and i.
unfoldable pub find_from : ℕ → ℕ → Net → (ℕ → Socket) → ℕ → ℕ → ℕ → ℕ → Option ℕ
find_from zero i net sockets local_port local_addr remote_port remote_addr = none
find_from (suc n) i net sockets local_port local_addr remote_port remote_addr =
    let rest = find_from n (i + 1) net sockets local_port local_addr remote_port remote_addr in
    if matches net (sockets i) local_port local_addr remote_port remote_addr then some i else rest

unfoldable pub tcp_find_socket : Net → Tcp → ℕ → ℕ → ℕ → ℕ → Option ℕ
unfolding find_from
tcp_find_socket net t local_port local_addr remote_port remote_addr =
    find_from tcp_max_sockets 0 net t.sockets local_port local_addr remote_port remote_addr

-- ntohs and ntohl of the bytes from i on.
abbrev pub read16 : List ℕ → ℕ → ℕ
read16 packet i = get_or packet i 0 * 256 + get_or packet (i + 1) 0

abbrev pub read32 : List ℕ → ℕ → ℕ
read32 packet i = read16 packet i * 2 ^ 16 + read16 packet (i + 2)

abbrev pub header_size : List ℕ → ℕ
header_size packet = get_or packet 12 0 / 16 % 16 * 4

-- The header with its checksum set to 0, as tcp_checksum reads it.
abbrev pub unsummed : List ℕ → List ℕ
unsummed packet = set (set (take tcp_header_size packet) 16 0) 17 0

-- The header and the data, if sizes and checksum are right.
unfoldable pub parse : List ℕ → ℕ → ℕ → Option Segment
unfolding tcp_checksum
parse packet src_addr dest_addr =
    let size = header_size packet in
    if ltb (length packet) tcp_header_size || (ltb size tcp_header_size || ltb (length packet) size)
    then none
    else if not (
        get_or packet 16 0 + get_or packet 17 0 * 256
        == tcp_checksum (unsummed packet) (drop size packet) src_addr dest_addr)
    then none
    else some (record {
      src_addr = src_addr;
      dest_addr = dest_addr;
      src_port = read16 packet 0;
      dest_port = read16 packet 2;
      seq_num = read32 packet 4;
      ack_num = read32 packet 8;
      flags = get_or packet 13 0;
      window = read16 packet 14;
      data_bytes = drop size packet;
    })

-- A reset closes the socket, if there is one.
unfoldable pub receive_rst : Tcp → Option ℕ → Tcp × ℤ
receive_rst t none = (t, pos 0)
receive_rst t (some i) =
    (notify (t.sockets i).closed_callback (closed_event i) (set_state t i closed), pos 0)

-- A SYN+ACK for a connection that is being opened.
unfoldable pub receive_syn_ack : Net → Tcp → ℕ → Segment → Tcp × ℤ
unfolding tcp_send_segment
receive_syn_ack net t i g =
    let s = t.sockets i in
    if not (g.ack_num == s.conn.snd_nxt)
    then (t, negsuc 0)
    else let opened = set_socket t i (record s {
      state = established;
      conn = record s.conn {
        snd_una = g.ack_num;
        rcv_nxt = u32 (g.seq_num + 1);
        snd_wnd = g.window;
      };
    }) in
      (
        notify s.connected_callback (connected_event i)
            (tcp_send_segment net opened i flag_ack []).0,
        pos 0,
      )

unfoldable pub receive_syn : Net → Tcp → Option ℕ → Segment → Tcp × ℤ
unfolding receive_syn_ack tcp_process_syn
receive_syn net t none g = (t, negsuc 0)
receive_syn net t (some i) g =
    if has g.flags flag_ack && is_syn_sent (t.sockets i).state
    then receive_syn_ack net t i g
    else if is_listen (t.sockets i).state
    then tcp_process_syn net t i g
    else (t, negsuc 0)

-- The last part of tcp_rx: the ACK, the data and the FIN, in this order.
abbrev pub take_ack : Net → Segment → ℕ → Tcp → Tcp
take_ack net g i t =
    if has g.flags flag_ack then (tcp_process_ack net t i g.ack_num g.window).0 else t

abbrev pub take_data : Net → Segment → ℕ → Tcp → Tcp
take_data net g i t =
    if ltb 0 (length g.data_bytes) then (tcp_process_data net t i g.data_bytes g.seq_num).0 else t

abbrev pub take_fin : Net → Segment → ℕ → Tcp → Tcp
take_fin net g i t =
    if has g.flags flag_fin
    then (tcp_process_fin net t i (u32 (g.seq_num + length g.data_bytes))).0
    else t

unfoldable pub receive_other : Net → Tcp → Option ℕ → Segment → Tcp × ℤ
unfolding tcp_process_ack tcp_process_data tcp_process_fin
receive_other net t none g = (t, negsuc 0)
receive_other net t (some i) g = (take_fin net g i (take_data net g i (take_ack net g i t)), pos 0)

-- tcp_rx behind the checks of the header.
unfoldable pub receive_segment : Net → Tcp → Segment → Tcp × ℤ
unfolding receive_rst receive_syn receive_other tcp_find_socket
receive_segment net t g =
    let found = tcp_find_socket net t g.dest_port g.dest_addr g.src_port g.src_addr in
    if has g.flags flag_rst
    then receive_rst t found
    else if has g.flags flag_syn
    then receive_syn net t found g
    else receive_other net t found g

unfoldable pub tcp_rx : Net → Tcp → List ℕ → ℕ → ℕ → Tcp × ℤ
unfolding receive_segment parse
tcp_rx net t packet src_addr dest_addr = elim (parse packet src_addr dest_addr) [
  | none ↦ (t, negsuc 0)
  | some g ↦ receive_segment net t g
]
