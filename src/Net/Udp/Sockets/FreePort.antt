-- ===== src/Net/Udp/Sockets/FreePort.antt =====
-- The search for a free port of network/src/udp.c is the one of network/src/tcp.c, on its sockets.
use uint_os.Common.{
  ℕ, zero, suc, ◌+◌, ◌^◌, ◌<◌, ◌≡◌, refl, ap, Bool, true, false, not, ◌&&◌, ◌||◌, none, some, [],
  ◌∙◌, ◌==◌, if◌then◌else◌,
}
use uint_os.Tcp.Socket.{TcpState, Socket, blank_socket, closed, listen, is_closed, tcp_max_sockets}
use uint_os.Tcp.Ports.{port_in_use, next_port, advance_port, search_port, tcp_get_free_port}
use uint_os.Tcp.FreePort.{free_port_lem}
use uint_os.Net.Udp.{Udp, UdpSocket, udp_max_sockets}
use uint_os.Net.Udp.Sockets.{any_socket, search_udp, udp_get_free_port}

abbrev as_state : Bool → TcpState
as_state true = listen
as_state false = closed

abbrev as_tcp : (ℕ → UdpSocket) → ℕ → Socket
as_tcp sockets i = record blank_socket {
  state = as_state (sockets i).is_open;
  local_port = (sockets i).local_port;
}

same_holds :
    (n i : ℕ) (sockets : ℕ → UdpSocket) (port : ℕ)
    → any_socket n i (λ j. (sockets j).is_open && (sockets j).local_port == port)
      ≡ port_in_use n i (as_tcp sockets) port
unfolding any_socket port_in_use
same_holds zero i sockets port = refl
same_holds (suc n) i sockets port =
    ap (λ rest. (sockets i).is_open && (sockets i).local_port == port || rest)
      (same_holds n (i + 1) sockets port)
    ∙ ap (λ b. b && (sockets i).local_port == port || port_in_use n (i + 1) (as_tcp sockets) port)
        (same_open (sockets i).is_open)
  where
    same_open : (b : Bool) → b ≡ not (is_closed (as_state b))
    same_open true = refl
    same_open false = refl

same_search :
    (n start port : ℕ) (sockets : ℕ → UdpSocket)
    → search_udp n start port sockets ≡ search_port n start port (as_tcp sockets)
unfolding search_udp search_port
same_search zero start port sockets = refl
same_search (suc n) start port sockets = rw (same_holds udp_max_sockets 0 sockets port) (
    ap
      (λ rest.
        if not (port_in_use tcp_max_sockets 0 (as_tcp sockets) port)
        then some port
        else if next_port port == start
        then some 0
        else rest)
      (same_search n start (next_port port) sockets))

-- udp_get_free_port ends, from a last port of 16 bits: its loop has rounds enough to give a port.
pub free_udp_lem :
    (u : Udp) → u.last_dynamic_port < 2 ^ 16 → (p : ℕ) × ((udp_get_free_port u).1 ≡ some p)
unfolding udp_get_free_port tcp_get_free_port
free_udp_lem u h =
    let (p, (e, found)) =
      free_port_lem
        (record {
          sockets = as_tcp u.sockets;
          time_wait_sockets = λ i. record { socket = none; start_time = 0; duration = 0 };
          last_dynamic_port = u.last_dynamic_port;
          tcp_initial_seq = 0;
          segments = [];
          events = [];
        })
        h in
    (p, same_search (2 ^ 16) u.last_dynamic_port (advance_port u.last_dynamic_port) u.sockets ∙ e)
