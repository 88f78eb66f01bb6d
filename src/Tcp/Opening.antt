-- ===== src/Tcp/Opening.antt =====
-- What each step that opens a connection leaves in a socket of network/src/tcp.c, and sends.
use uint_os.Common.{
  ℕ, ◌+◌, ◌≤◌, ◌<◌, ◌≡◌, ◌≢◌, refl, ap, ◌∙◌, Bool, true, false, ◌||◌, Option, some, List, [], ◌∷◌,
  ◌==◌, ltb, leb, arith, update, update_self, update_ne,
}
use mathlib.Core.Path.{subst}
use uint_os.Tcp.Buffer.{u32, tcp_buffer_init}
use uint_os.Tcp.Socket.{
  Tcp, Net, Socket, Segment, Connection, Listener, Event, syn_sent, syn_received, established,
  is_closed, is_listen, flag_syn, flag_ack, notify, connected_event, set_socket, set_conn,
  find_closed, tcp_max_sockets, tcp_default_buffer_size, tcp_retransmit_timeout,
}
use uint_os.Tcp.Segment.{tcp_send_segment, segment_of, after_send}
use uint_os.Tcp.Process.{
  accept_request, tcp_process_syn, ack_transition, tcp_process_ack, received_socket,
}
use uint_os.Tcp.Receive.{receive_syn_ack}
use uint_os.Tcp.Connect.{open_connection, connect_port, tcp_socket_connect}

abbrev pub blank_segment : Segment
blank_segment = record {
  src_addr = 0;
  dest_addr = 0;
  src_port = 0;
  dest_port = 0;
  seq_num = 0;
  ack_num = 0;
  flags = 0;
  window = 0;
  data_bytes = [];
}

-- The segment handed to ip_tx last.
abbrev pub last_of : List Segment → Segment
last_of [] = blank_segment
last_of (g ∷ gs) = g

abbrev pub last_sent : Tcp → Segment
last_sent t = last_of t.segments

-- Memory is found for every packet and for a buffer.
pub record Supplied (net : Net) : Type 0 where
  pub packets : (g : Segment) → net.has_packet g ≡ true
  pub memory : List ℕ
  pub buffers : net.buffer_memory ≡ some memory

-- Socket i is s, and g was sent last.
pub record Half (t : Tcp) (i : ℕ) (s : Socket) (g : Segment) : Type 0 where
  pub socket : t.sockets i ≡ s
  pub last : last_sent t ≡ g

abbrev pub sending : ℕ → Socket → Socket
sending flags s = record s { conn = after_send s.conn flags 0 }

send-Half :
    {net : Net} (t : Tcp) (i flags : ℕ) (s : Socket)
    → Supplied net
    → t.sockets i ≡ s
    → Half (tcp_send_segment net t i flags []).0 i (sending flags s) (segment_of s flags [])
unfolding tcp_send_segment
send-Half {net} t i flags s h e =
    rw (h.packets (segment_of (t.sockets i) flags []), tcp_send_segment)
      (record {
        socket = update_self t.sockets i (sending flags (t.sockets i)) ∙ ap (sending flags) e;
        last = ap (λ s. segment_of s flags []) e;
      })

notified-Half :
    {t : Tcp} {i : ℕ} {s : Socket} {g : Segment} (registered : Bool) (e : Event)
    → Half t i s g
    → Half (notify registered e t) i s g
notified-Half true e h = record { socket = h.socket; last = h.last }
notified-Half false e h = h

-- The client's socket with its SYN under way.
abbrev pub opening : Net → Tcp → Socket → Socket
opening net t s = record s {
  state = syn_sent;
  conn = record s.conn {
    snd_una = t.tcp_initial_seq;
    snd_nxt = t.tcp_initial_seq;
    rcv_nxt = 0;
    rto = tcp_retransmit_timeout;
    attempts = 0;
  };
  rx_buffer = (tcp_buffer_init s.rx_buffer tcp_default_buffer_size net.buffer_memory).0;
}

buffer-init :
    {net : Net} (s : Socket)
    → Supplied net
    → (tcp_buffer_init s.rx_buffer tcp_default_buffer_size net.buffer_memory).1 ≡ some 0
unfolding tcp_buffer_init
buffer-init s h = rw (h.buffers, tcp_buffer_init) refl

open-Half :
    {net : Net} (t : Tcp) (i : ℕ)
    → Supplied net
    → Half
        (open_connection net t i).0
        i
        (sending flag_syn (opening net t (t.sockets i)))
        (segment_of (opening net t (t.sockets i)) flag_syn [])
unfolding open_connection
open-Half {net} t i h =
    rw (buffer-init (t.sockets i) h, open_connection)
      (send-Half (set_socket t i (opening net t (t.sockets i))) i flag_syn
        (opening net t (t.sockets i)) h (update_self t.sockets i (opening net t (t.sockets i))))

-- The client's socket and SYN.
abbrev pub Opens : Net → Tcp → ℕ → Socket → Tcp → Type 0
Opens net t i s t' =
    Half t' i (sending flag_syn (opening net t s)) (segment_of (opening net t s) flag_syn [])

connect_port-Opens :
    {net : Net} (t : Tcp) (i : ℕ) (s : Socket)
    → Supplied net
    → t.sockets i ≡ s
    → 0 < s.local_port
    → Opens net t i s (connect_port net t i).0
unfolding connect_port
connect_port-Opens {net} t i s h e bound =
    rw (no_port, connect_port)
      (subst (λ s. Opens net t i s (open_connection net t i).0) e (open-Half t i h))
  where
    no_port : ((t.sockets i).local_port == 0) ≡ false
    no_port = ground (arith, ap (λ s. s.local_port) e, bound)

abbrev pub aimed : Socket → ℕ → ℕ → Socket
aimed s addr port = record s { remote_addr = addr; remote_port = port }

pub connect-Opens :
    {net : Net} (t : Tcp) (i addr port : ℕ)
    → Supplied net
    → is_closed (t.sockets i).state ≡ true
    → net.ip_addr_is_any (t.sockets i).local_addr ≡ false
    → 0 < (t.sockets i).local_port
    → Opens net t i (aimed (t.sockets i) addr port) (tcp_socket_connect net t i addr port).0
unfolding tcp_socket_connect
connect-Opens {net} t i addr port h free here bound =
    rw (free, tcp_socket_connect, here)
      (connect_port-Opens (set_socket t i (aimed (t.sockets i) addr port)) i
        (aimed (t.sockets i) addr port) h (update_self t.sockets i (aimed (t.sockets i) addr port))
        bound)

-- The server's new socket, before and after its SYN+ACK.
abbrev pub answering : Net → Tcp → Segment → Option ℕ → Socket
answering net t g pending = record (received_socket t g) {
  rx_buffer =
      (tcp_buffer_init (received_socket t g).rx_buffer tcp_default_buffer_size net.buffer_memory).0;
  next = pending;
}

abbrev pub Answers : Net → Tcp → Segment → Option ℕ → ℕ → Tcp → Type 0
Answers net t g pending i t' =
    Half t' i (sending (flag_syn + flag_ack) (answering net t g pending))
      (segment_of (answering net t g pending) (flag_syn + flag_ack) [])

accept_request-Answers :
    {net : Net} (t : Tcp) (l : ℕ) (listener : Listener) (i : ℕ) (g : Segment)
    → Supplied net
    → l ≢ i
    → Answers net t g listener.pending_connections i (accept_request net t l listener i g).0
unfolding accept_request
accept_request-Answers {net} t l listener i g h ne =
    rw (buffer-init (received_socket t g) h, accept_request)
      (send-Half _ i (flag_syn + flag_ack) (answering net t g listener.pending_connections) h (
        update_ne (update t.sockets i (answering net t g listener.pending_connections)) l i (_) ne
        ∙ update_self t.sockets i (answering net t g listener.pending_connections)))

pub process_syn-Answers :
    {net : Net} (t : Tcp) (l : ℕ) (listener : Listener) (i : ℕ) (g : Segment)
    → Supplied net
    → l ≢ i
    → is_listen (t.sockets l).state ≡ true
    → (t.sockets l).listener ≡ some listener
    → listener.pending_count < listener.backlog
    → find_closed tcp_max_sockets 0 t.sockets ≡ some i
    → Answers net t g listener.pending_connections i (tcp_process_syn net t l g).0
unfolding tcp_process_syn
process_syn-Answers {net} t l listener i g h ne listens has_listener room free =
    rw (listens, tcp_process_syn, has_listener, not_full, free)
      (accept_request-Answers t l listener i g h ne)
  where
    not_full : leb listener.backlog listener.pending_count ≡ false
    not_full = ground (arith, room)

-- The client's socket after the SYN+ACK.
abbrev pub opened : Socket → Segment → Socket
opened s g = record s {
  state = established;
  conn = record s.conn { snd_una = g.ack_num; rcv_nxt = u32 (g.seq_num + 1); snd_wnd = g.window };
}

pub syn_ack-Half :
    {net : Net} (t : Tcp) (k : ℕ) (g : Segment) (s : Socket)
    → Supplied net
    → t.sockets k ≡ s
    → g.ack_num ≡ s.conn.snd_nxt
    → Half
        (receive_syn_ack net t k g).0
        k
        (sending flag_ack (opened s g))
        (segment_of (opened s g) flag_ack [])
unfolding receive_syn_ack
syn_ack-Half {net} t k g s h e acked =
    rw (right, receive_syn_ack)
      (notified-Half (t.sockets k).connected_callback (connected_event k) (
        send-Half (set_socket t k (opened (t.sockets k) g)) k flag_ack (opened s g) h
          (update_self t.sockets k (opened (t.sockets k) g) ∙ ap (λ s. opened s g) e)))
  where
    right : (g.ack_num == (t.sockets k).conn.snd_nxt) ≡ true
    right = ground (arith, acked, ap (λ s. s.conn.snd_nxt) e)

-- The server's socket after the last ACK.
abbrev pub acknowledged : Socket → ℕ → ℕ → Socket
acknowledged s ack_num window = record s {
  state = established;
  conn = record s.conn { snd_wnd = window; snd_una = ack_num };
}

notified-socket :
    (registered : Bool) (e : Event) (t : Tcp) (i : ℕ)
    → (notify registered e t).sockets i ≡ t.sockets i
notified-socket true e t i = refl
notified-socket false e t i = refl

abbrev settled : Socket → Socket
settled s = record s { state = established }

pub ack_socket :
    (net : Net) (t : Tcp) (i ack_num window : ℕ) (s : Socket)
    → t.sockets i ≡ s
    → s.state ≡ syn_received
    → s.conn.snd_una < ack_num
    → ack_num ≤ s.conn.snd_nxt
    → (tcp_process_ack net t i ack_num window).0.sockets i ≡ acknowledged s ack_num window
unfolding tcp_process_ack ack_transition
ack_socket net t i ack_num window s e waiting over within =
    let c : Connection = record (t.sockets i).conn { snd_wnd = window; snd_una = ack_num } in
    let counted = set_conn t i c in
    rw (fresh, tcp_process_ack, ap (λ s. s.state) e ∙ waiting, ack_transition)
      (notified-socket (counted.sockets i).connected_callback (connected_event i)
          (set_socket counted i (settled (counted.sockets i))) i
        ∙ (update_self counted.sockets i (settled (counted.sockets i))
            ∙ (ap settled (update_self t.sockets i (record (t.sockets i) { conn = c }))
                ∙ ap (λ s. acknowledged s ack_num window) e)))
  where
    fresh :
        (leb ack_num (t.sockets i).conn.snd_una || ltb (t.sockets i).conn.snd_nxt ack_num) ≡ false
    fresh = ground (arith, over, within, ap (λ s. s.conn.snd_una) e, ap (λ s. s.conn.snd_nxt) e)
