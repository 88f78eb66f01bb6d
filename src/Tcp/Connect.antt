-- ===== src/Tcp/Connect.antt =====
-- Opening, closing and using a connection: what a program calls in network/src/tcp.c. A call on a
-- socket that is NULL returns -1 at once and is left out.
use uint_os.Common.{
  ℕ, ◌+◌, Bool, true, false, not, Option, none, some, List, [], ◌==◌, if◌then◌else◌, length,
}
use uint_os.Common.Int.{ℤ, pos, negsuc, ◌==ℤ◌}
use uint_os.Tcp.Buffer.{tcp_buffer_init, tcp_buffer_read}
use uint_os.Tcp.Segment.{tcp_send_segment}
use uint_os.Tcp.Socket.{
  Tcp, Net, TcpState, closed, listen, syn_sent, syn_received, established, fin_wait_1, fin_wait_2,
  close_wait, last_ack, is_closed, flag_fin, flag_syn, flag_psh, flag_ack, set_state, set_socket,
  notify, sent_event, tcp_default_buffer_size, tcp_retransmit_timeout,
}
use uint_os.Tcp.Calls.{dynamic_port}

-- The last part of tcp_socket_connect, with the addresses and ports set.
unfoldable pub open_connection : Net → Tcp → ℕ → Tcp × ℤ
unfolding tcp_send_segment
open_connection net t i =
    let s = t.sockets i in
    let (buffer, result) = tcp_buffer_init s.rx_buffer tcp_default_buffer_size net.buffer_memory in
    let t' = set_socket t i (record s {
      state = syn_sent;
      conn = record s.conn {
        snd_una = t.tcp_initial_seq;
        snd_nxt = t.tcp_initial_seq;
        rcv_nxt = 0;
        rto = tcp_retransmit_timeout;
        attempts = 0;
      };
      rx_buffer = buffer;
    }) in
    elim result [ none ↦ (t', negsuc 0) | some ok ↦ tcp_send_segment net t' i flag_syn [] ]

-- The local port of a connection, if it has none.
unfoldable pub connect_port : Net → Tcp → ℕ → Tcp × ℤ
unfolding open_connection
connect_port net t i =
    if (t.sockets i).local_port == 0
    then (let (t', port) = dynamic_port t i in
        elim port [ none ↦ (t', negsuc 0) | some p ↦ open_connection net t' i ])
    else open_connection net t i

unfoldable pub tcp_socket_connect : Net → Tcp → ℕ → ℕ → ℕ → Tcp × ℤ
unfolding connect_port
tcp_socket_connect net t i addr port =
    let s = record (t.sockets i) { remote_addr = addr; remote_port = port } in
    if not (is_closed s.state)
    then (t, negsuc 0)
    else if net.ip_addr_is_any s.local_addr
    then elim net.default_device [
      | none ↦ (set_socket t i s, negsuc 0)
      | some ip ↦ connect_port net (set_socket t i (record s { local_addr = ip })) i
    ]
    else connect_port net (set_socket t i s) i

-- The switch of tcp_socket_close.
unfoldable pub close_in : Net → Tcp → ℕ → TcpState → Tcp × ℤ
unfolding tcp_send_segment
close_in net t i closed = (t, pos 0)
close_in net t i listen =
    (set_socket t i (record (t.sockets i) { state = closed; listener = none }), pos 0)
close_in net t i syn_sent = (set_state t i closed, pos 0)
close_in net t i syn_received =
    tcp_send_segment net (set_state t i fin_wait_1) i (flag_fin + flag_ack) []
close_in net t i established =
    tcp_send_segment net (set_state t i fin_wait_1) i (flag_fin + flag_ack) []
close_in net t i close_wait =
    tcp_send_segment net (set_state t i last_ack) i (flag_fin + flag_ack) []
close_in net t i _ = (t, negsuc 0)

unfoldable pub tcp_socket_close : Net → Tcp → ℕ → Tcp × ℤ
unfolding close_in
tcp_socket_close net t i = close_in net t i (t.sockets i).state

abbrev pub is_established : TcpState → Bool
is_established established = true
is_established _ = false

-- A length is an int when it is returned; data sent here are shorter than 2^31 bytes.
unfoldable pub tcp_socket_send : Net → Tcp → ℕ → List ℕ → Tcp × ℤ
unfolding tcp_send_segment
tcp_socket_send net t i payload =
    if not (is_established (t.sockets i).state)
    then (t, negsuc 0)
    else let (t', result) = tcp_send_segment net t i (flag_psh + flag_ack) payload in
      if result ==ℤ pos 0
      then (
        notify (t.sockets i).sent_callback (sent_event i (length payload)) t',
        pos (length payload),
      )
      else (t', result)

-- The four states in which data can be read.
abbrev pub can_receive : TcpState → Bool
can_receive established = true
can_receive fin_wait_1 = true
can_receive fin_wait_2 = true
can_receive close_wait = true
can_receive _ = false

unfoldable pub tcp_socket_recv : Tcp → ℕ → ℕ → Tcp × Option (List ℕ)
unfolding tcp_buffer_read
tcp_socket_recv t i len =
    let s = t.sockets i in
    if can_receive s.state
    then (let (buffer, out) = tcp_buffer_read s.rx_buffer true len in
        (set_socket t i (record s { rx_buffer = buffer }), out))
    else (t, none)

abbrev pub tcp_socket_available : Tcp → ℕ → ℕ
tcp_socket_available t i = (t.sockets i).rx_buffer.bytes_available

abbrev pub tcp_socket_set_options : Tcp → ℕ → ℕ → Tcp
tcp_socket_set_options t i options = set_socket t i (record (t.sockets i) { options = options })

abbrev pub tcp_socket_register_callbacks : Tcp → ℕ → Bool → Bool → Bool → Bool → Tcp
tcp_socket_register_callbacks t i connected data_ready sent gone =
    set_socket t i (record (t.sockets i) {
      connected_callback = connected;
      data_ready_callback = data_ready;
      sent_callback = sent;
      closed_callback = gone;
    })
