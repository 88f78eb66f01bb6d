-- ===== src/Net/Udp/Sockets.antt =====
-- The calls on sockets of network/src/udp.c. A socket is its place in udp_sockets; a call gives the
-- statics and its result.
pub mod Distinct
pub mod Found
pub mod FreePort
use uint_os.Common.{
  ℕ, zero, suc, ◌+◌, ◌^◌, Bool, true, false, not, ◌&&◌, ◌||◌, Option, none, some, List, [], ◌∷◌,
  ◌==◌, ltb, if◌then◌else◌, update,
}
use uint_os.Common.Int.{ℤ, pos, negsuc}
use uint_os.Net.Udp.{Below, Udp, UdpSocket, udp_max_sockets, udp_tx}
use uint_os.Tcp.Ports.{next_port, advance_port}

-- A loop over the sockets that ends at the first that passes a test: the rounds left, and i.
unfoldable pub any_socket : ℕ → ℕ → (ℕ → Bool) → Bool
any_socket zero i test = false
any_socket (suc n) i test = test i || any_socket n (i + 1) test

abbrev pub holds_port : (ℕ → UdpSocket) → ℕ → Bool
holds_port sockets port =
    any_socket udp_max_sockets 0 (λ i. (sockets i).is_open && (sockets i).local_port == port)

-- The do-while loop of udp_get_free_port: the rounds left, start_port and port.
unfoldable pub search_udp : ℕ → ℕ → ℕ → (ℕ → UdpSocket) → Option ℕ
unfolding any_socket
search_udp zero start port sockets = none
search_udp (suc n) start port sockets =
    let rest = search_udp n start (next_port port) sockets in
    if not (holds_port sockets port)
    then some port
    else if next_port port == start
    then some 0
    else rest

unfoldable pub udp_get_free_port : Udp → Udp × Option ℕ
unfolding search_udp
udp_get_free_port u =
    let port = advance_port u.last_dynamic_port in
    (record u { last_dynamic_port = port }, search_udp (2 ^ 16) u.last_dynamic_port port u.sockets)

-- The port found. The search has rounds for all ports, so it does not run out.
abbrev pub port_found : Option ℕ → ℕ
port_found none = 0
port_found (some port) = port

abbrev pub set_udp : Udp → ℕ → UdpSocket → Udp
set_udp u i s = record u { sockets = update u.sockets i s }

unfoldable pub find_closed_udp : ℕ → ℕ → (ℕ → UdpSocket) → Option ℕ
find_closed_udp zero i sockets = none
find_closed_udp (suc n) i sockets =
    let rest = find_closed_udp n (i + 1) sockets in if not (sockets i).is_open then some i else rest

-- memset to 0, and what udp_socket_create sets first.
abbrev pub fresh_udp : Option ℕ → UdpSocket
fresh_udp local_addr = record {
  is_open = true;
  local_port = 0;
  remote_port = 0;
  local_addr = elim local_addr [ none ↦ 0 | some a ↦ a ];
  remote_addr = 0;
  options = 0;
  receive_callback = false;
}

-- The test on another socket, of udp_socket_create.
abbrev pub clashes : Below → ℕ → ℕ → UdpSocket → Bool
clashes net addr port s =
    (s.is_open && s.local_port == port)
    && (net.ip_addr_is_any s.local_addr || (net.ip_addr_is_any addr || s.local_addr == addr))

-- The port is set, or the new socket is closed again.
abbrev pub finish_udp : Udp → ℕ → UdpSocket → Bool → ℕ → Udp × Option ℕ
finish_udp u i s refused port =
    if refused
    then (set_udp u i (record s { is_open = false }), none)
    else (set_udp u i (record s { local_port = port }), some i)

-- A dynamic port, from what udp_get_free_port gives.
abbrev pub finish_found : ℕ → UdpSocket → Udp × Option ℕ → Udp × Option ℕ
finish_found i s (v, port) = finish_udp v i s (port_found port == 0) (port_found port)

-- udp_socket_create with its slot.
unfoldable pub create_at : Below → Udp → Option ℕ → ℕ → ℕ → Udp × Option ℕ
create_at net u local_addr local_port i =
    let s = fresh_udp local_addr in
    if ltb 0 local_port
    then finish_udp u i s
        (any_socket udp_max_sockets 0
          (λ j. not (j == i) && clashes net s.local_addr local_port (u.sockets j)))
        local_port
    else finish_found i s (udp_get_free_port (set_udp u i s))

abbrev pub created : Below → Udp → Option ℕ → ℕ → Option ℕ → Udp × Option ℕ
created net u local_addr local_port none = (u, none)
created net u local_addr local_port (some i) = create_at net u local_addr local_port i

unfoldable pub udp_socket_create : Below → Udp → Option ℕ → ℕ → Udp × Option ℕ
udp_socket_create net u local_addr local_port =
    created net u local_addr local_port (find_closed_udp udp_max_sockets 0 u.sockets)

unfoldable pub udp_socket_close : Udp → Option ℕ → Udp × ℤ
udp_socket_close u none = (u, negsuc 0)
udp_socket_close u (some i) =
    if not (ltb i udp_max_sockets)
    then (u, negsuc 0)
    else if not (u.sockets i).is_open
    then (u, pos 0)
    else (set_udp u i (record (u.sockets i) { is_open = false }), pos 0)

-- The test on another socket, of udp_socket_bind.
abbrev pub clashes_bound : Below → Option ℕ → ℕ → UdpSocket → Bool
clashes_bound net none port s = s.is_open && s.local_port == port
clashes_bound net (some a) port s =
    (s.is_open && s.local_port == port) && (net.ip_addr_is_any s.local_addr || a == s.local_addr)

abbrev pub at_addr : UdpSocket → Option ℕ → UdpSocket
at_addr s none = s
at_addr s (some a) = record s { local_addr = a }

-- A dynamic port for udp_socket_bind, and the address.
abbrev pub bind_found : ℕ → UdpSocket → Option ℕ → Udp × Option ℕ → Udp × ℤ
bind_found i s addr (v, found) =
    if port_found found == 0
    then (set_udp v i (record s { local_port = 0 }), negsuc 0)
    else (set_udp v i (at_addr (record s { local_port = port_found found }) addr), pos 0)

-- udp_socket_bind on an open socket.
unfoldable pub bind_open : Below → Udp → ℕ → Option ℕ → ℕ → Udp × ℤ
bind_open net u i addr port =
    let s = u.sockets i in
    if ltb 0 port
    then (if any_socket udp_max_sockets 0
          (λ j. not (j == i) && clashes_bound net addr port (u.sockets j))
        then (u, negsuc 0)
        else (set_udp u i (at_addr (record s { local_port = port }) addr), pos 0))
    else if s.local_port == 0
    then bind_found i s addr (udp_get_free_port u)
    else (set_udp u i (at_addr s addr), pos 0)

unfoldable pub udp_socket_bind : Below → Udp → Option ℕ → Option ℕ → ℕ → Udp × ℤ
udp_socket_bind net u none addr port = (u, negsuc 0)
udp_socket_bind net u (some i) addr port =
    if not (u.sockets i).is_open then (u, negsuc 0) else bind_open net u i addr port

-- A call that writes one field of an open socket.
abbrev on_open : Udp → ℕ → UdpSocket → Udp × ℤ
on_open u i s = if not (u.sockets i).is_open then (u, negsuc 0) else (set_udp u i s, pos 0)

unfoldable udp_socket_connect : Udp → Option ℕ → Option ℕ → ℕ → Udp × ℤ
udp_socket_connect u none addr port = (u, negsuc 0)
udp_socket_connect u (some i) none port = (u, negsuc 0)
udp_socket_connect u (some i) (some a) port =
    on_open u i (record (u.sockets i) { remote_addr = a; remote_port = port })

unfoldable udp_socket_register_recv_callback : Udp → Option ℕ → Bool → Udp × ℤ
udp_socket_register_recv_callback u none callback = (u, negsuc 0)
udp_socket_register_recv_callback u (some i) callback =
    on_open u i (record (u.sockets i) { receive_callback = callback })

unfoldable udp_socket_set_options : Udp → Option ℕ → ℕ → Udp × ℤ
udp_socket_set_options u none options = (u, negsuc 0)
udp_socket_set_options u (some i) options = on_open u i (record (u.sockets i) { options = options })

unfoldable udp_socket_sendto : Below → Udp → Option ℕ → Option (List ℕ) → Option ℕ → ℕ → ℤ
udp_socket_sendto net u none payload addr port = negsuc 0
udp_socket_sendto net u (some i) none addr port = negsuc 0
udp_socket_sendto net u (some i) (some payload) none port = negsuc 0
udp_socket_sendto net u (some i) (some payload) (some a) port =
    if not (u.sockets i).is_open
    then negsuc 0
    else udp_tx net (some (u.sockets i)) (some payload) (some a) port

unfoldable udp_socket_send : Below → Udp → Option ℕ → Option (List ℕ) → ℤ
udp_socket_send net u none payload = negsuc 0
udp_socket_send net u (some i) none = negsuc 0
udp_socket_send net u (some i) (some payload) =
    let s = u.sockets i in
    if not s.is_open
    then negsuc 0
    else if s.remote_port == 0
    then negsuc 0
    else udp_tx net (some s) (some payload) (some s.remote_addr) s.remote_port
