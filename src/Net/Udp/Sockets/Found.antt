-- ===== src/Net/Udp/Sockets/Found.antt =====
-- The socket of network/src/udp.c that gets a datagram, after any calls.
use uint_os.Common.{
  ℕ, ◌<◌, ◌≡◌, ◌↔◌, inl, inr, ap, sym, ◌∙◌, Bool, true, false, not, ◌&&◌, ◌||◌, Option, none, some,
  List, [], ◌∷◌, ◌==◌, ltb, Bool-cases, arith, ℕ_discrete,
}
use uint_os.Net.Udp.{Below, Udp, UdpSocket, udp_max_sockets, takes, find_udp}
use uint_os.Net.Udp.Sockets.{
  any_socket, set_udp, clashes, clashes_bound, at_addr, bind_open, udp_socket_bind,
  udp_socket_create, udp_socket_close,
}
use uint_os.Net.Udp.Sockets.Distinct.{
  Distinct, set_udp-Distinct, at_others, create-Distinct, close-Distinct, find_udp_lem,
}

pub data SocketCall : Type 0 where
  create : Option ℕ → ℕ → SocketCall
  close : Option ℕ → SocketCall
  bind : Option ℕ → Option ℕ → ℕ → SocketCall

abbrev pub call : Below → Udp → SocketCall → Udp
call net u (create addr port) = (udp_socket_create net u addr port).0
call net u (close socket) = (udp_socket_close u socket).0
call net u (bind socket addr port) = (udp_socket_bind net u socket addr port).0

abbrev pub calls_made : Below → Udp → List SocketCall → Udp
calls_made net u [] = u
calls_made net u (c ∷ rest) = calls_made net (call net u c) rest

-- A bind to a port, and to a specific address or none.
abbrev pub is_specific : Below → SocketCall → Bool
is_specific net (create addr port) = true
is_specific net (close socket) = true
is_specific net (bind socket none port) = ltb 0 port
is_specific net (bind socket (some a) port) = ltb 0 port && not (net.ip_addr_is_any a)

abbrev pub all_specific : Below → List SocketCall → Bool
all_specific net [] = true
all_specific net (c ∷ rest) = is_specific net c && all_specific net rest

-- The test of udp_socket_bind finds every clash, except for an address that is any.
no_clash :
    (net : Below) (s t : UdpSocket) (addr : Option ℕ) (port : ℕ)
    → is_specific net (bind none addr port) ≡ true
    → clashes_bound net addr port t ≡ false
    → clashes net (at_addr s addr).local_addr port t ≡ false
no_clash net s t none port h e =
    ap
      (λ b.
        b
        && (net.ip_addr_is_any t.local_addr
            || (net.ip_addr_is_any s.local_addr || t.local_addr == s.local_addr)))
      e
no_clash net s t (some a) port h e =
    compared (t.is_open && t.local_port == port) (net.ip_addr_is_any t.local_addr)
      (net.ip_addr_is_any a) (ltb 0 port) a t.local_addr h e
  where
    compared :
        (b t_any a_any positive : Bool) (a x : ℕ)
        → (positive && not a_any) ≡ true
        → (b && (t_any || a == x)) ≡ false
        → (b && (t_any || (a_any || x == a))) ≡ false
    compared b t_any a_any positive a x h e = ground (arith, h, e)

bind_open-Distinct :
    (net : Below) (u : Udp) (i : ℕ) (addr : Option ℕ) (port : ℕ)
    → is_specific net (bind (some i) addr port) ≡ true
    → Distinct net u
    → Distinct net (bind_open net u i addr port).0
unfolding bind_open
bind_open-Distinct net u i addr port h apart =
    rw (given_port addr h)
      (elim (Bool-cases (
        any_socket udp_max_sockets 0
          (λ j. not (j == i) && clashes_bound net addr port (u.sockets j)))) [
            | inl refused ↦ rw refused apart
            | inr free ↦ rw free (bound addr h free)
          ])
  where
    given_port :
        (addr : Option ℕ) → is_specific net (bind (some i) addr port) ≡ true → ltb 0 port ≡ true
    given_port none h = h
    given_port (some a) h = ground (arith, h)

    bound :
        (addr : Option ℕ)
        → is_specific net (bind (some i) addr port) ≡ true
        → any_socket udp_max_sockets 0
            (λ j. not (j == i) && clashes_bound net addr port (u.sockets j))
          ≡ false
        → Distinct net (set_udp u i (at_addr (record (u.sockets i) { local_port = port }) addr))
    bound none h free =
        set_udp-Distinct net u i _ (λ j k jl kl ne off_j off_k. apart j k jl kl ne)
          (λ j jl off e.
            no_clash net (u.sockets i) (u.sockets j) none port h
              (at_others i j (λ j. clashes_bound net none port (u.sockets j)) free jl off))
    bound (some a) h free =
        set_udp-Distinct net u i _ (λ j k jl kl ne off_j off_k. apart j k jl kl ne)
          (λ j jl off e.
            no_clash net (u.sockets i) (u.sockets j) (some a) port h
              (at_others i j (λ j. clashes_bound net (some a) port (u.sockets j)) free jl off))

bind-Distinct :
    (net : Below) (u : Udp) (socket addr : Option ℕ) (port : ℕ)
    → is_specific net (bind socket addr port) ≡ true
    → Distinct net u
    → Distinct net (udp_socket_bind net u socket addr port).0
unfolding udp_socket_bind
bind-Distinct net u none addr port h apart = apart
bind-Distinct net u (some i) addr port h apart = elim (Bool-cases (u.sockets i).is_open) [
  | inl open_ ↦ rw open_ (bind_open-Distinct net u i addr port h apart)
  | inr closed_ ↦ rw closed_ apart
]

call-Distinct :
    (net : Below) (u : Udp) (c : SocketCall)
    → is_specific net c ≡ true
    → Distinct net u
    → Distinct net (call net u c)
call-Distinct net u (create addr port) h apart = create-Distinct net u addr port apart
call-Distinct net u (close socket) h apart = close-Distinct net u socket apart
call-Distinct net u (bind socket addr port) h apart = bind-Distinct net u socket addr port h apart

calls-Distinct :
    (net : Below) (u : Udp) (calls : List SocketCall)
    → all_specific net calls ≡ true
    → Distinct net u
    → Distinct net (calls_made net u calls)
calls-Distinct net u [] h apart = apart
calls-Distinct net u (c ∷ rest) h apart =
    let (first, others) = and_true (is_specific net c) (all_specific net rest) h in
    calls-Distinct net (call net u c) rest others (call-Distinct net u c first apart)
  where
    and_true : (a b : Bool) → (a && b) ≡ true → (a ≡ true) × (b ≡ true)
    and_true a b h = ground (arith, h)

-- Two sockets that take one datagram clash.
takers_clash :
    (net : Below) (s t : UdpSocket) (port addr : ℕ)
    → takes net s port addr ≡ true
    → takes net t port addr ≡ true
    → (t.is_open ≡ true) × (clashes net t.local_addr t.local_port s ≡ true)
takers_clash net s t port addr =
    both s.is_open t.is_open (net.ip_addr_is_any s.local_addr) (net.ip_addr_is_any t.local_addr)
      s.local_port t.local_port s.local_addr t.local_addr
  where
    both :
        (s_open t_open s_any t_any : Bool) (p q a b : ℕ)
        → (s_open && (p == port && (s_any || a == addr))) ≡ true
        → (t_open && (q == port && (t_any || b == addr))) ≡ true
        → (t_open ≡ true) × (((s_open && p == q) && (s_any || (t_any || a == b))) ≡ true)
    both s_open t_open s_any t_any p q a b h k = ground (arith, h, k)

same_some : (a b : ℕ) → some a ≡ some b → a ≡ b
same_some a b e = cc e

-- From closed sockets, after any udp_socket_create, udp_socket_close and udp_socket_bind in any
-- order, where every bind names a port, and a specific address or none: udp_find_socket gives a
-- socket exactly when it is one of the table that takes the destination, so at most one does.
pub find_socket_iff :
    (net : Below) (u : Udp) (calls : List SocketCall) (port addr i : ℕ)
    → ((j : ℕ) → (u.sockets j).is_open ≡ false)
    → all_specific net calls ≡ true
    → let v = calls_made net u calls in
      (find_udp udp_max_sockets 0 net v.sockets port addr ≡ some i)
      ↔ ((i < udp_max_sockets) × (takes net (v.sockets i) port addr ≡ true))
find_socket_iff net u calls port addr i all_closed specific =
    only (calls_made net u calls)
      (calls-Distinct net u calls specific (λ j k jl kl ne e. cc (e, all_closed k)))
  where
    only :
        (v : Udp)
        → Distinct net v
        → (find_udp udp_max_sockets 0 net v.sockets port addr ≡ some i)
          ↔ ((i < udp_max_sockets) × (takes net (v.sockets i) port addr ≡ true))
    only v apart = elim (find_udp_lem udp_max_sockets 0 net v.sockets port addr) [
      | inl (k, (e, ((above, below), t))) ↦ (
        (λ found. rw (← same_some k i (sym e ∙ found)) (below, t)),
        (λ (il, ti). elim (ℕ_discrete k i) [
          | yes same ↦ e ∙ ap some same
          | no other ↦
              let (i_open, clash) = takers_clash net (v.sockets k) (v.sockets i) port addr t ti in
              absurd (cc (clash, apart k i below il other i_open))
        ]),
      )
      | inr (e, others) ↦
          ((λ found. cc (e, found)), (λ (il, ti). absurd (cc (ti, others i (omega arith) il))))
    ]
