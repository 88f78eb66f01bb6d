-- ===== src/Tcp/Tests.antt =====
-- The theorems on network/src/tcp.c at a buffer of four bytes and a socket that has it.
use uint_os.Common.{
  ℕ, ◌≤◌, ◌<◌, ◌≡◌, ◌⊎◌, ◌%◌, ◌^◌, ◌-◌, refl, true, none, some, List, [], ◌∷◌, ◌==◌, if◌then◌else◌,
  arith,
}
use uint_os.Common.Int.{pos, negsuc}
use uint_os.Tcp.Checksum.{fold_sum, fold_sum_lem}
use uint_os.Tcp.Socket.{Tcp, Net, Socket, Segment, Listener, listen, established, blank_socket}
use uint_os.Tcp.Segment.{segment_bytes}
use uint_os.Tcp.Receive.{parse, tcp_rx}
use uint_os.Tcp.Wire.{parse-segment_bytes}
use uint_os.Tcp.Isolation.{Isolates, rx_isolation}
use uint_os.Tcp.Delivery.{Receives, deliver_all, joined, deliver_lem}
use uint_os.Tcp.Ports.{tcp_get_free_port}
use uint_os.Tcp.FreePort.{IsFirstFree, free_port_lem}
use uint_os.Common.Ring.{items}
use uint_os.Tcp.Buffer.{TcpBuffer, tcp_buffer_write, tcp_buffer_read}
use uint_os.Tcp.Stream.{Streams, write_lem, read_lem}

-- Two bytes, 7 and 8, that wrap round the end.
abbrev cells : List ℕ
cells = 8 ∷ 0 ∷ 0 ∷ 7 ∷ []

abbrev wrapped : TcpBuffer
wrapped = record { bytes = some cells; size = 4; start = 3; end = 1; bytes_available = 2 }

wrapped-Streams : Streams wrapped cells (7 ∷ 8 ∷ [])
unfolding items
wrapped-Streams = record {
  array_at = refl;
  room = refl;
  small = omega arith;
  start_in = omega arith;
  fits = omega arith;
  end_at = refl;
  content = refl;
}

write_lem_example :
    ((4 ≤ 4)
      × ((array : List ℕ) × Streams
            (tcp_buffer_write wrapped (some (5 ∷ 6 ∷ []))).0
            array
            (7 ∷ 8 ∷ 5 ∷ 6 ∷ []))
      × ((tcp_buffer_write wrapped (some (5 ∷ 6 ∷ []))).1 ≡ some 2))
    ⊎ ((4 < 4) × (tcp_buffer_write wrapped (some (5 ∷ 6 ∷ [])) ≡ (wrapped, none)))
write_lem_example = write_lem wrapped-Streams (5 ∷ 6 ∷ []) (omega arith)

read_lem_example :
    Streams (tcp_buffer_read wrapped true 1).0 cells (8 ∷ [])
    × ((tcp_buffer_read wrapped true 1).1 ≡ some (7 ∷ []))
read_lem_example = read_lem wrapped-Streams 1

-- A peer at address 1 and port 5000, this host at address 2 and port 80.
abbrev greeting : Segment
greeting = record {
  src_addr = 1;
  dest_addr = 2;
  src_port = 5000;
  dest_port = 80;
  seq_num = 4294967295;
  ack_num = 16909060;
  flags = 24;
  window = 4096;
  data_bytes = 104 ∷ 105 ∷ 33 ∷ [];
}

parse-segment_bytes_example : parse (segment_bytes greeting) 1 2 ≡ some greeting
parse-segment_bytes_example = parse-segment_bytes greeting (record {
  src_port_fits = omega arith;
  dest_port_fits = omega arith;
  seq_num_fits = omega arith;
  ack_num_fits = omega arith;
  window_fits = omega arith;
})

fold_sum_lem_example :
    (fold_sum 3 4294967295 < 2 ^ 16)
    × (fold_sum 3 4294967295 % (2 ^ 16 - 1) ≡ 4294967295 % (2 ^ 16 - 1))
    × (fold_sum 3 4294967295 ≡ 0 → ◌≡◌ {A = ℕ} 4294967295 0)
fold_sum_lem_example = fold_sum_lem 4294967295 (omega arith)

-- Every packet can be sent.
abbrev quiet : Net
quiet = record {
  has_packet = λ g. true;
  ip_tx = λ g. pos 0;
  ip_addr_is_any = λ a. a == 0;
  time_ms = 1000;
  buffer_memory = some cells;
  listener_memory = true;
  default_device = some 2;
}

-- Socket 3 has the connection of the peer, with two bytes received; the others are closed.
abbrev connected : Socket
connected = record blank_socket {
  state = established;
  local_port = 80;
  remote_port = 5000;
  local_addr = 2;
  remote_addr = 1;
  rx_buffer = wrapped;
  conn = record {
    snd_una = 16909059;
    snd_nxt = 16909060;
    snd_wnd = 4096;
    rcv_nxt = 4294967295;
    rcv_wnd = 4096;
    mss = 536;
    rto = 500;
    attempts = 0;
  };
}

abbrev host : Tcp
host = record {
  sockets = λ i. if i == 3 then connected else blank_socket;
  time_wait_sockets = λ i. record { socket = none; start_time = 0; duration = 0 };
  last_dynamic_port = 65535;
  tcp_initial_seq = 16909060;
  segments = [];
  events = [];
}

rx_isolation_example :
    (tcp_rx quiet host (segment_bytes greeting) 1 2 ≡ (host, negsuc 0))
    ⊎ ((g : Segment) × (parse (segment_bytes greeting) 1 2 ≡ some g)
        × Isolates quiet g host (tcp_rx quiet host (segment_bytes greeting) 1 2).0)
rx_isolation_example = rx_isolation quiet host (segment_bytes greeting) 1 2

host-Receives : Receives (host.sockets 3) (7 ∷ 8 ∷ []) 4 4294967295
host-Receives = record { array = cells; streams = wrapped-Streams; sized = refl; expects = refl }

deliver_lem_example :
    Receives
      ((deliver_all quiet host 3 4294967295 ((5 ∷ []) ∷ (6 ∷ []) ∷ [])).sockets 3)
      (7 ∷ 8 ∷ 5 ∷ 6 ∷ [])
      4
      1
unfolding joined
deliver_lem_example =
    deliver_lem ((5 ∷ []) ∷ (6 ∷ []) ∷ []) quiet host 3 host-Receives (omega arith) (omega arith)
      (omega arith)

free_port_lem_example :
    (p : ℕ) × (((tcp_get_free_port host).1 ≡ some p)
      × (IsFirstFree host p × (host.last_dynamic_port ≤ 65518 → (49152 ≤ p) × (p ≤ 65535))))
free_port_lem_example = free_port_lem host (omega arith)

-- A client whose socket 3 is bound to port 5000 at address 1, and a server whose socket 0 listens at
-- port 80.
abbrev client : Tcp
client = record host {
  sockets = λ i.
      if i == 3 then record blank_socket { local_port = 5000; local_addr = 1 } else blank_socket;
}

abbrev one_pending : Listener
one_pending = record { backlog = 1; pending_count = 0; pending_connections = none }

abbrev server : Tcp
server = record host {
  sockets = λ i.
      if i == 0
      then record blank_socket { state = listen; local_port = 80; listener = some one_pending }
      else blank_socket;
}
