-- ===== src/Tcp/Ports.antt =====
-- The choice of a port in network/src/tcp.c.
use uint_os.Common.{
  ℕ, zero, suc, ◌+◌, ◌%◌, ◌^◌, Bool, false, not, ◌||◌, ◌&&◌, Option, none, some, ◌==◌, ltb,
  if◌then◌else◌,
}
use uint_os.Tcp.Socket.{Tcp, Socket, is_closed, tcp_max_sockets}

abbrev pub port_start : ℕ
port_start = 49152

abbrev pub port_end : ℕ
port_end = 65535

-- The search for a port among the sockets: the rounds left, and i.
unfoldable pub port_in_use : ℕ → ℕ → (ℕ → Socket) → ℕ → Bool
port_in_use zero i sockets port = false
port_in_use (suc n) i sockets port =
    not (is_closed (sockets i).state) && (sockets i).local_port == port
    || port_in_use n (i + 1) sockets port

-- port++ of a uint16_t, which never exceeds 65535.
abbrev pub next_port : ℕ → ℕ
next_port port = (port + 1) % 2 ^ 16

-- The do-while loop of tcp_get_free_port: the rounds left, start_port and port.
unfoldable pub search_port : ℕ → ℕ → ℕ → (ℕ → Socket) → Option ℕ
unfolding port_in_use
search_port zero start port sockets = none
search_port (suc n) start port sockets =
    let rest = search_port n start (next_port port) sockets in
    if not (port_in_use tcp_max_sockets 0 sockets port)
    then some port
    else if next_port port == start
    then some 0
    else rest

-- last_dynamic_port goes up by one and wraps to the start of the range.
abbrev pub advance_port : ℕ → ℕ
advance_port last = if ltb (next_port last) port_start then port_start else next_port last

unfoldable pub tcp_get_free_port : Tcp → Tcp × Option ℕ
unfolding search_port
tcp_get_free_port t =
    let port = advance_port t.last_dynamic_port in
    (record t { last_dynamic_port = port }, search_port (2 ^ 16) t.last_dynamic_port port t.sockets)
