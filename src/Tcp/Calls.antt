-- ===== src/Tcp/Calls.antt =====
-- What a program calls in network/src/tcp.c. A call on a socket that is NULL returns -1 at once and
-- is left out.
use uint_os.Common.{
  ℕ, zero, suc, ◌+◌, ◌-◌, ◌%◌, ◌^◌, Bool, true, false, not, ◌||◌, ◌&&◌, Option, none, some, ◌==◌,
  ltb, if◌then◌else◌,
}
use uint_os.Common.Int.{ℤ, pos, negsuc, ◌==ℤ◌}
use uint_os.Tcp.Buffer.{tcp_buffer_init}
use uint_os.Tcp.Segment.{clear_slots}
use uint_os.Tcp.Socket.{
  Tcp, Net, Socket, TcpState, closed, listen, syn_received, established, is_closed, is_listen,
  set_socket, blank_socket, find_closed, tcp_max_sockets, tcp_max_time_wait_sockets,
  tcp_default_window, tcp_default_mss, tcp_default_buffer_size,
}
use uint_os.Tcp.Ports.{tcp_get_free_port}

-- The loop of tcp_init over the sockets.
unfoldable pub close_all : ℕ → (ℕ → Socket) → ℕ → Socket
close_all n sockets i = if ltb i n then record (sockets i) { state = closed } else sockets i

-- `registered`: what ip_register_protocol returns.
unfoldable pub tcp_init : Tcp → ℤ → Tcp × ℤ
unfolding close_all clear_slots
tcp_init t registered =
    let cleared = record t {
      sockets = close_all tcp_max_sockets t.sockets;
      time_wait_sockets = clear_slots tcp_max_time_wait_sockets t.time_wait_sockets;
    } in
    if registered ==ℤ pos 0
    then (record cleared { tcp_initial_seq = 16909060 }, pos 0)
    else (cleared, registered)

-- The test of a port against the other sockets: the rounds left, i, and whether the address of the
-- one that uses the port clashes.
unfoldable pub port_taken : ℕ → ℕ → (ℕ → Socket) → ℕ → ℕ → (ℕ → Bool) → Bool
port_taken zero i sockets self port clashes = false
port_taken (suc n) i sockets self port clashes =
    not (i == self)
      && (not (is_closed (sockets i).state)
          && ((sockets i).local_port == port && clashes (sockets i).local_addr))
    || port_taken n (i + 1) sockets self port clashes

-- A dynamic port; 0 and a search without end are no port.
abbrev pub dynamic_port : Tcp → ℕ → Tcp × Option ℕ
dynamic_port t i =
    let (t', port) = tcp_get_free_port t in
    elim port [
      | none ↦ (t', none)
      | some p ↦ (
        set_socket t' i (record (t'.sockets i) { local_port = p }),
        if p == 0 then none else some p,
      )
    ]

-- The connection parameters and the buffer of a new socket.
unfoldable pub finish_create : Net → Tcp → ℕ → Tcp × Option ℕ
finish_create net t i =
    let s = t.sockets i in
    let (buffer, result) = tcp_buffer_init s.rx_buffer tcp_default_buffer_size net.buffer_memory in
    let t' = set_socket t i (record s {
      conn = record s.conn { rcv_wnd = tcp_default_window; mss = tcp_default_mss };
      rx_buffer = buffer;
    }) in
    elim result [ none ↦ (t', none) | some ok ↦ (t', some i) ]

-- `local_addr` NULL is 0.0.0.0.
unfoldable pub tcp_socket_create : Net → Tcp → ℕ → ℕ → Tcp × Option ℕ
unfolding port_taken finish_create
tcp_socket_create net t local_addr local_port = elim (find_closed tcp_max_sockets 0 t.sockets) [
  | none ↦ (t, none)
  | some i ↦
      let fresh = set_socket t i (record blank_socket { local_addr = local_addr }) in
      let clashes : ℕ → Bool = λ other.
        net.ip_addr_is_any other || (net.ip_addr_is_any local_addr || other == local_addr) in
      if ltb 0 local_port
      then (if port_taken tcp_max_sockets 0 fresh.sockets i local_port clashes
          then (fresh, none)
          else finish_create net
              (set_socket fresh i (record (fresh.sockets i) { local_port = local_port })) i)
      else let (t', port) = dynamic_port fresh i in
        elim port [ none ↦ (t', none) | some p ↦ finish_create net t' i ]
]

abbrev pub set_address : Tcp → ℕ → Option ℕ → Tcp
set_address t i none = t
set_address t i (some addr) = set_socket t i (record (t.sockets i) { local_addr = addr })

-- Whether an address that is asked for clashes with that of another socket.
abbrev pub clashes_with : Net → Option ℕ → ℕ → Bool
clashes_with net none other = true
clashes_with net (some addr) other = net.ip_addr_is_any other || addr == other

unfoldable pub tcp_socket_bind : Net → Tcp → ℕ → Option ℕ → ℕ → Tcp × ℤ
unfolding port_taken
tcp_socket_bind net t i addr port =
    let s = t.sockets i in
    if not (is_closed s.state)
    then (t, negsuc 0)
    else if ltb 0 port
    then (if port_taken tcp_max_sockets 0 t.sockets i port (clashes_with net addr)
        then (t, negsuc 0)
        else (set_address (set_socket t i (record s { local_port = port })) i addr, pos 0))
    else if s.local_port == 0
    then (let (t', found) = dynamic_port t i in
        elim found [ none ↦ (t', negsuc 0) | some p ↦ (set_address t' i addr, pos 0) ])
    else (set_address t i addr, pos 0)

unfoldable pub tcp_socket_listen : Net → Tcp → ℕ → ℕ → Tcp × ℤ
tcp_socket_listen net t i backlog =
    let s = t.sockets i in
    if not (is_closed s.state)
    then (t, negsuc 0)
    else if net.listener_memory
    then (
      set_socket t i (record s {
        state = listen;
        listener = some (record {
          backlog = if ltb 0 backlog then backlog else 1;
          pending_count = 0;
          pending_connections = none;
        });
      }),
      pos 0,
    )
    else (t, negsuc 0)

-- SYN_RECEIVED becomes ESTABLISHED.
abbrev pub accepted_state : TcpState → TcpState
accepted_state syn_received = established
accepted_state st = st

unfoldable pub tcp_socket_accept : Tcp → ℕ → Tcp × Option ℕ
tcp_socket_accept t l =
    let s = t.sockets l in
    if not (is_listen s.state) then (t, none) else elim s.listener [
      | none ↦ (t, none)
      | some listener ↦ elim listener.pending_connections [
        | none ↦ (t, none)
        | some i ↦
            let taken = set_socket t l (record s {
              listener = some (record listener {
                pending_connections = (t.sockets i).next;
                pending_count = (listener.pending_count + 2 ^ 16 - 1) % 2 ^ 16;
              });
            }) in
            let a = taken.sockets i in
            (set_socket taken i (record a { next = none; state = accepted_state a.state }), some i)
      ]
    ]
