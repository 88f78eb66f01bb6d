-- ===== src/Tcp/Socket.antt =====
-- The state of network/src/tcp.c: `tcp_sockets`, `time_wait_sockets` and the other statics. A socket
-- is the number of its slot, NULL `none`. An address is the number that its four bytes are in
-- memory. What is handed to ip_tx and what the callbacks are told is recorded, latest first.
use uint_os.Common.{
  ℕ, zero, suc, ◌+◌, Bool, true, false, not, Option, none, some, List, ◌∷◌, ◌==◌, if◌then◌else◌,
  update, bit_and,
}
use uint_os.Common.Int.{ℤ}
use uint_os.Tcp.Buffer.{TcpBuffer}

abbrev pub tcp_max_sockets : ℕ
tcp_max_sockets = 16

abbrev pub tcp_max_time_wait_sockets : ℕ
tcp_max_time_wait_sockets = 32

abbrev pub tcp_default_mss : ℕ
tcp_default_mss = 536

abbrev pub tcp_default_window : ℕ
tcp_default_window = 4096

abbrev pub tcp_default_buffer_size : ℕ
tcp_default_buffer_size = 8192

abbrev pub tcp_retransmit_timeout : ℕ
tcp_retransmit_timeout = 500

abbrev pub tcp_msl : ℕ
tcp_msl = 120000

-- `tcp_state_t`
pub data TcpState : Type 0 where
  closed listen syn_sent syn_received established fin_wait_1 fin_wait_2 closing time_wait
        close_wait :
      TcpState
  last_ack : TcpState

abbrev pub is_closed : TcpState → Bool
is_closed closed = true
is_closed _ = false

abbrev pub is_listen : TcpState → Bool
is_listen listen = true
is_listen _ = false

abbrev pub is_syn_sent : TcpState → Bool
is_syn_sent syn_sent = true
is_syn_sent _ = false

abbrev pub flag_fin : ℕ
flag_fin = 1

abbrev pub flag_syn : ℕ
flag_syn = 2

abbrev pub flag_rst : ℕ
flag_rst = 4

abbrev pub flag_psh : ℕ
flag_psh = 8

abbrev pub flag_ack : ℕ
flag_ack = 16

-- flags & flag
abbrev pub has : ℕ → ℕ → Bool
has flags flag = not (bit_and flags flag == 0)

-- `tcp_connection_t`, with the two fields of `tcp_retransmit_t` that are set.
pub record Connection : Type 0 where
  pub snd_una : ℕ
  pub snd_nxt : ℕ
  pub snd_wnd : ℕ
  pub rcv_nxt : ℕ
  pub rcv_wnd : ℕ
  pub mss : ℕ
  pub rto : ℕ
  pub attempts : ℕ

-- `tcp_listener_t`
pub record Listener : Type 0 where
  pub backlog : ℕ
  pub pending_count : ℕ
  pub pending_connections : Option ℕ

-- `tcp_socket_t`; of a callback, whether it is set.
pub record Socket : Type 0 where
  pub state : TcpState
  pub local_port : ℕ
  pub remote_port : ℕ
  pub local_addr : ℕ
  pub remote_addr : ℕ
  pub options : ℕ
  pub conn : Connection
  pub listener : Option Listener
  pub next : Option ℕ
  pub rx_buffer : TcpBuffer
  pub connected_callback : Bool
  pub data_ready_callback : Bool
  pub sent_callback : Bool
  pub closed_callback : Bool

-- What the header and the data of a segment say.
pub record Segment : Type 0 where
  pub src_addr : ℕ
  pub dest_addr : ℕ
  pub src_port : ℕ
  pub dest_port : ℕ
  pub seq_num : ℕ
  pub ack_num : ℕ
  pub flags : ℕ
  pub window : ℕ
  pub data_bytes : List ℕ

pub data Event : Type 0 where
  connected_event closed_event : ℕ → Event
  data_ready_event sent_event : ℕ → ℕ → Event

-- `tcp_time_wait_t`
pub record TimeWait : Type 0 where
  pub socket : Option ℕ
  pub start_time : ℕ
  pub duration : ℕ

pub record Tcp : Type 0 where
  pub sockets : ℕ → Socket
  pub time_wait_sockets : ℕ → TimeWait
  pub last_dynamic_port : ℕ
  pub tcp_initial_seq : ℕ
  pub segments : List Segment
  pub events : List Event

-- What tcp.c calls: whether ip_alloc_packet finds memory for a segment, what ip_tx returns of it,
-- ip_addr_is_any, network_get_time_ms, the memory that malloc finds for a buffer and whether it
-- finds some for a listener, and the address of the default device.
pub record Net : Type 0 where
  pub has_packet : Segment → Bool
  pub ip_tx : Segment → ℤ
  pub ip_addr_is_any : ℕ → Bool
  pub time_ms : ℕ
  pub buffer_memory : Option (List ℕ)
  pub listener_memory : Bool
  pub default_device : Option ℕ

abbrev pub set_socket : Tcp → ℕ → Socket → Tcp
set_socket t i s = record t { sockets = update t.sockets i s }

abbrev pub set_state : Tcp → ℕ → TcpState → Tcp
set_state t i st = set_socket t i (record (t.sockets i) { state = st })

abbrev pub set_conn : Tcp → ℕ → Connection → Tcp
set_conn t i c = set_socket t i (record (t.sockets i) { conn = c })

-- A callback that is set is called.
abbrev pub notify : Bool → Event → Tcp → Tcp
notify registered e t = if registered then record t { events = e ∷ t.events } else t

-- The memset of a socket to zeros.
abbrev pub blank_socket : Socket
blank_socket = record {
  state = closed;
  local_port = 0;
  remote_port = 0;
  local_addr = 0;
  remote_addr = 0;
  options = 0;
  conn = record {
    snd_una = 0;
    snd_nxt = 0;
    snd_wnd = 0;
    rcv_nxt = 0;
    rcv_wnd = 0;
    mss = 0;
    rto = 0;
    attempts = 0;
  };
  listener = none;
  next = none;
  rx_buffer = record { bytes = none; size = 0; start = 0; end = 0; bytes_available = 0 };
  connected_callback = false;
  data_ready_callback = false;
  sent_callback = false;
  closed_callback = false;
}

-- The first closed socket: the rounds left, and i.
unfoldable pub find_closed : ℕ → ℕ → (ℕ → Socket) → Option ℕ
find_closed zero i sockets = none
find_closed (suc n) i sockets =
    let rest = find_closed n (i + 1) sockets in if is_closed (sockets i).state then some i else rest
