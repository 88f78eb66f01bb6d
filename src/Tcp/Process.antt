-- ===== src/Tcp/Process.antt =====
-- The tcp_process functions of network/src/tcp.c.
use uint_os.Common.{
  ℕ, ◌+◌, ◌%◌, ◌^◌, Bool, false, not, ◌||◌, Option, none, some, List, [], ◌==◌, ltb, leb,
  if◌then◌else◌, length,
}
use uint_os.Common.Int.{ℤ, pos, negsuc}
use uint_os.Tcp.Buffer.{u32, tcp_buffer_init, tcp_buffer_write}
use uint_os.Tcp.Segment.{tcp_send_segment, tcp_start_time_wait}
use uint_os.Tcp.Socket.{
  Tcp, Net, Socket, Segment, Connection, Listener, TcpState, closed, syn_sent, syn_received,
  established, fin_wait_1, fin_wait_2, closing, time_wait, close_wait, last_ack, is_listen,
  flag_syn, flag_rst, flag_ack, set_state, set_conn, set_socket, notify, connected_event,
  closed_event, data_ready_event, blank_socket, find_closed, tcp_max_sockets, tcp_default_window,
  tcp_default_mss, tcp_default_buffer_size, tcp_retransmit_timeout,
}

abbrev pub new_connection : ℕ → ℕ → ℕ → Connection
new_connection initial rcv_nxt window = record {
  snd_una = initial;
  snd_nxt = initial;
  snd_wnd = window;
  rcv_nxt = rcv_nxt;
  rcv_wnd = tcp_default_window;
  mss = tcp_default_mss;
  rto = tcp_retransmit_timeout;
  attempts = 0;
}

-- The new socket of a connection request, before its buffer.
abbrev pub received_socket : Tcp → Segment → Socket
received_socket t g = record blank_socket {
  state = syn_received;
  local_port = g.dest_port;
  remote_port = g.src_port;
  local_addr = g.dest_addr;
  remote_addr = g.src_addr;
  conn = new_connection t.tcp_initial_seq (u32 (g.seq_num + 1)) g.window;
}

-- The rest of tcp_process_syn, once a listener l and a free socket i are found.
unfoldable pub accept_request : Net → Tcp → ℕ → Listener → ℕ → Segment → Tcp × ℤ
accept_request net t l listener i g =
    let s = received_socket t g in
    let (buffer, result) = tcp_buffer_init s.rx_buffer tcp_default_buffer_size net.buffer_memory in
    elim result [
      | none ↦ (set_socket t i (record s { rx_buffer = buffer }), negsuc 0)
      | some ok ↦
          let linked =
            set_socket t i (record s { rx_buffer = buffer; next = listener.pending_connections }) in
          tcp_send_segment net
            (set_socket linked l (record (linked.sockets l) {
              listener = some (record listener {
                pending_connections = some i;
                pending_count = (listener.pending_count + 1) % 2 ^ 16;
              });
            }))
            i (flag_syn + flag_ack) []
    ]

-- A listening socket without a listener is not met: tcp_socket_listen sets both.
unfoldable pub tcp_process_syn : Net → Tcp → ℕ → Segment → Tcp × ℤ
unfolding accept_request find_closed
tcp_process_syn net t l g =
    if not (is_listen (t.sockets l).state) then (t, negsuc 0) else elim (t.sockets l).listener [
      | none ↦ (t, negsuc 0)
      | some listener ↦
          if leb listener.backlog listener.pending_count
          then (t, negsuc 0)
          else elim (find_closed tcp_max_sockets 0 t.sockets) [
            | none ↦ (t, negsuc 0)
            | some i ↦ accept_request net t l listener i g
          ]
    ]

-- The switch of tcp_process_ack.
unfoldable pub ack_transition : Net → Tcp → ℕ → TcpState → Tcp × ℤ
unfolding tcp_send_segment tcp_start_time_wait
ack_transition net t i syn_sent =
    ((tcp_send_segment net (set_state t i closed) i flag_rst []).0, negsuc 0)
ack_transition net t i syn_received =
    (notify (t.sockets i).connected_callback (connected_event i) (set_state t i established), pos 0)
ack_transition net t i fin_wait_1 = (set_state t i fin_wait_2, pos 0)
ack_transition net t i closing = (tcp_start_time_wait net (set_state t i time_wait) i, pos 0)
ack_transition net t i last_ack =
    (notify (t.sockets i).closed_callback (closed_event i) (set_state t i closed), pos 0)
ack_transition net t i _ = (t, pos 0)

unfoldable pub tcp_process_ack : Net → Tcp → ℕ → ℕ → ℕ → Tcp × ℤ
unfolding ack_transition
tcp_process_ack net t i ack_num window =
    let c = record ((t.sockets i).conn) { snd_wnd = window } in
    if leb ack_num c.snd_una || ltb c.snd_nxt ack_num
    then (set_conn t i c, pos 0)
    else ack_transition net (set_conn t i (record c { snd_una = ack_num })) i (t.sockets i).state

-- tcp_buffer_write returns an int, compared with a size_t.
abbrev pub wrote_all : Option ℕ → ℕ → Bool
wrote_all none len = false
wrote_all (some n) len = n == len

unfoldable pub tcp_process_data : Net → Tcp → ℕ → List ℕ → ℕ → Tcp × ℤ
unfolding tcp_send_segment tcp_buffer_write
tcp_process_data net t i payload seq_num =
    let s = t.sockets i in
    if not (seq_num == s.conn.rcv_nxt)
    then ((tcp_send_segment net t i flag_ack []).0, negsuc 0)
    else let (buffer, written) = tcp_buffer_write s.rx_buffer (some payload) in
      let s' = record s {
        conn = record s.conn { rcv_nxt = u32 (s.conn.rcv_nxt + length payload) };
        rx_buffer = buffer;
      } in
      let t' = set_socket t i s' in
      if wrote_all written (length payload)
      then (
        (tcp_send_segment net
            (notify s.data_ready_callback (data_ready_event i (length payload)) t') i flag_ack
            []).0,
        pos 0,
      )
      else (t', negsuc 0)

-- The switch of tcp_process_fin.
unfoldable pub fin_transition : Net → Tcp → ℕ → TcpState → Tcp × ℤ
unfolding tcp_send_segment tcp_start_time_wait
fin_transition net t i established = (
  notify (t.sockets i).closed_callback (closed_event i)
      (tcp_send_segment net (set_state t i close_wait) i flag_ack []).0,
  pos 0,
)
fin_transition net t i fin_wait_1 =
    ((tcp_send_segment net (set_state t i closing) i flag_ack []).0, pos 0)
fin_transition net t i fin_wait_2 = (
  tcp_start_time_wait net (tcp_send_segment net (set_state t i time_wait) i flag_ack []).0 i,
  pos 0,
)
fin_transition net t i _ = ((tcp_send_segment net t i flag_ack []).0, negsuc 0)

unfoldable pub tcp_process_fin : Net → Tcp → ℕ → ℕ → Tcp × ℤ
unfolding fin_transition
tcp_process_fin net t i seq_num =
    fin_transition net (set_conn t i (record ((t.sockets i).conn) { rcv_nxt = u32 (seq_num + 1) }))
      i (t.sockets i).state
