-- ===== src/Net/Udp/Sockets/Distinct.antt =====
-- Which socket of network/src/udp.c gets a datagram.
use uint_os.Common.{
  ℕ, zero, suc, ◌+◌, ◌^◌, ◌≤◌, ◌<◌, ◌≡◌, ◌≢◌, ◌⊎◌, inl, inr, refl, ap, sym, ◌∙◌, Bool, true, false,
  not, ◌&&◌, ◌||◌, Option, none, some, ◌==◌, ltb, update, update_self, update_ne, Bool-cases, arith,
  ℕ_discrete,
}
use uint_os.Net.Udp.{Below, Udp, UdpSocket, udp_max_sockets, takes, find_udp}
use uint_os.Tcp.Ports.{next_port, advance_port}
use uint_os.Net.Udp.Sockets.{
  any_socket, holds_port, udp_get_free_port, port_found, set_udp, find_closed_udp, search_udp,
  fresh_udp, clashes, finish_found, create_at, created, udp_socket_create, udp_socket_close,
}

-- No open socket clashes with another.
abbrev pub Distinct : Below → Udp → Type 0
Distinct net u =
    (i j : ℕ)
    → i < udp_max_sockets
    → j < udp_max_sockets
    → i ≢ j
    → (u.sockets j).is_open ≡ true
    → clashes net (u.sockets j).local_addr (u.sockets j).local_port (u.sockets i) ≡ false

none_passes :
    (n i : ℕ) (test : ℕ → Bool)
    → any_socket n i test ≡ false
    → (j : ℕ) → i ≤ j
    → j < i + n
    → test j ≡ false
unfolding any_socket
none_passes zero i test e j above below = absurd (omega arith)
none_passes (suc n) i test e j above below = elim (ℕ_discrete i j) [
  | yes same ↦ ap test (sym same) ∙ (or_false (test i) _ e).0
  | no other ↦ none_passes n (i + 1) test (or_false (test i) _ e).1 j (omega arith) (omega arith)
]
  where
    or_false : (a b : Bool) → (a || b) ≡ false → (a ≡ false) × (b ≡ false)
    or_false a b h = ground arith

-- The first that takes a datagram is found.
pub find_udp_lem :
    (n i : ℕ) (net : Below) (sockets : ℕ → UdpSocket) (port addr : ℕ)
    → ((k : ℕ) × ((find_udp n i net sockets port addr ≡ some k)
          × (((i ≤ k) × (k < i + n)) × (takes net (sockets k) port addr ≡ true))))
      ⊎ ((find_udp n i net sockets port addr ≡ none)
          × ((j : ℕ) → i ≤ j → j < i + n → takes net (sockets j) port addr ≡ false))
unfolding find_udp
find_udp_lem zero i net sockets port addr = inr (refl, λ j above below. absurd (omega arith))
find_udp_lem (suc n) i net sockets port addr = elim (Bool-cases (takes net (sockets i) port addr)) [
  | inl yes_ ↦ inl (i, (rw (yes_, find_udp) refl, ((omega arith, omega arith), yes_)))
  | inr no_ ↦ elim (find_udp_lem n (i + 1) net sockets port addr) [
    | inl (k, (e, ((above, below), t))) ↦
        inl (k, (rw (no_, find_udp) e, ((omega arith, omega arith), t)))
    | inr (e, others) ↦ inr (
      rw (no_, find_udp) e,
      λ j above below. elim (ℕ_discrete i j) [
        | yes same ↦ ap (λ x. takes net (sockets x) port addr) (sym same) ∙ no_
        | no other ↦ others j (omega arith) (omega arith)
      ],
    )
  ]
]

clash_sym :
    (net : Below) (s t : UdpSocket)
    → (s.is_open ≡ true → clashes net s.local_addr s.local_port t ≡ false)
    → t.is_open ≡ true
    → clashes net t.local_addr t.local_port s ≡ false
clash_sym net s t apart t_open =
    symmetric s.is_open t.is_open (net.ip_addr_is_any s.local_addr)
      (net.ip_addr_is_any t.local_addr) s.local_port t.local_port s.local_addr t.local_addr apart
      t_open
  where
    symmetric :
        (s_open t_open s_any t_any : Bool) (p q a b : ℕ)
        → (s_open ≡ true → ((t_open && q == p) && (t_any || (s_any || b == a))) ≡ false)
        → t_open ≡ true
        → ((s_open && p == q) && (s_any || (t_any || a == b))) ≡ false
    symmetric false t_open s_any t_any p q a b h e = refl
    symmetric true t_open s_any t_any p q a b h e = ground (arith, h refl)

-- A socket that clashes with no other is written among sockets that do not clash.
pub set_udp-Distinct :
    (net : Below) (u : Udp) (i : ℕ) (s : UdpSocket)
    → ((j k : ℕ)
        → j < udp_max_sockets
        → k < udp_max_sockets
        → j ≢ k
        → i ≢ j
        → i ≢ k
        → (u.sockets k).is_open ≡ true
        → clashes net (u.sockets k).local_addr (u.sockets k).local_port (u.sockets j) ≡ false)
    → ((j : ℕ)
        → j < udp_max_sockets
        → i ≢ j
        → s.is_open ≡ true
        → clashes net s.local_addr s.local_port (u.sockets j) ≡ false)
    → Distinct net (set_udp u i s)
set_udp-Distinct net u i s old new j k jl kl ne = elim (ℕ_discrete i k) [
  | yes at_k ↦ elim (ℕ_discrete i j) [
    | yes at_j ↦ absurd (ne (sym at_j ∙ at_k))
    | no off_j ↦
        rw (← at_k, update_self u.sockets i s, update_ne u.sockets i j s off_j) (new j jl off_j)
  ]
  | no off_k ↦ elim (ℕ_discrete i j) [
    | yes at_j ↦
        rw (← at_j, update_self u.sockets i s, update_ne u.sockets i k s off_k)
          (clash_sym net s (u.sockets k) (new k kl off_k))
    | no off_j ↦
        rw (update_ne u.sockets i j s off_j, update_ne u.sockets i k s off_k)
          (old j k jl kl ne off_j off_k)
  ]
]

-- The search gives 0 or a port that no open socket holds.
search_udp_lem :
    (n start port : ℕ) (sockets : ℕ → UdpSocket)
    → (port_found (search_udp n start port sockets) == 0) ≡ false
    → holds_port sockets (port_found (search_udp n start port sockets)) ≡ false
unfolding search_udp
search_udp_lem zero start port sockets = λ e. cc e
search_udp_lem (suc n) start port sockets = elim (Bool-cases (holds_port sockets port)) [
  | inl used ↦ elim (Bool-cases (next_port port == start)) [
    | inl around ↦ rw (used, around) (λ e. cc e)
    | inr further ↦ rw (used, further) (search_udp_lem n start (next_port port) sockets)
  ]
  | inr free ↦ rw free (λ e. free)
]

-- A port that is held by no socket clashes with none.
unheld :
    (net : Below) (sockets : ℕ → UdpSocket) (addr port j : ℕ)
    → holds_port sockets port ≡ false
    → j < udp_max_sockets
    → clashes net addr port (sockets j) ≡ false
unheld net sockets addr port j free jl =
    ap
      (λ t.
        t
        && (net.ip_addr_is_any (sockets j).local_addr
            || (net.ip_addr_is_any addr || (sockets j).local_addr == addr)))
      (none_passes udp_max_sockets 0 (λ i. (sockets i).is_open && (sockets i).local_port == port)
        free j (omega arith) jl)

-- The others of a table are apart, whatever stands at i.
others_apart :
    (net : Below) (u : Udp) (i : ℕ) (s : UdpSocket)
    → Distinct net u
    → (j k : ℕ) → j < udp_max_sockets
    → k < udp_max_sockets
    → j ≢ k
    → i ≢ j
    → i ≢ k
    → (update u.sockets i s k).is_open ≡ true
    → clashes net
        (update u.sockets i s k).local_addr
        (update u.sockets i s k).local_port
        (update u.sockets i s j)
      ≡ false
others_apart net u i s apart j k jl kl ne off_j off_k =
    rw (update_ne u.sockets i j s off_j, update_ne u.sockets i k s off_k) (apart j k jl kl ne)

-- A test on all sockets but i.
pub at_others :
    (i j : ℕ) (test : ℕ → Bool)
    → any_socket udp_max_sockets 0 (λ j. not (j == i) && test j) ≡ false
    → j < udp_max_sockets
    → i ≢ j
    → test j ≡ false
at_others i j test e jl off =
    skips i j (test j) off
      (none_passes udp_max_sockets 0 (λ j. not (j == i) && test j) e j (omega arith) jl)
  where
    skips : (i j : ℕ) (b : Bool) → i ≢ j → (not (j == i) && b) ≡ false → b ≡ false
    skips i j b off h = ground (arith, h)

free_port_sockets : (v : Udp) → (udp_get_free_port v).0.sockets ≡ v.sockets
unfolding udp_get_free_port
free_port_sockets v = refl

free_port_unheld :
    (v : Udp)
    → (port_found (udp_get_free_port v).1 == 0) ≡ false
    → holds_port v.sockets (port_found (udp_get_free_port v).1) ≡ false
unfolding udp_get_free_port
free_port_unheld v =
    search_udp_lem (2 ^ 16) v.last_dynamic_port (advance_port v.last_dynamic_port) v.sockets

create_at-Distinct :
    (net : Below) (u : Udp) (addr : Option ℕ) (port i : ℕ)
    → Distinct net u
    → Distinct net (create_at net u addr port i).0
unfolding create_at
create_at-Distinct net u addr port i apart = elim (Bool-cases (ltb 0 port)) [
  | inl given ↦
      rw given
        (elim (Bool-cases (
          any_socket udp_max_sockets 0
            (λ j. not (j == i) && clashes net (fresh_udp addr).local_addr port (u.sockets j)))) [
              | inl refused ↦ rw refused (
                  set_udp-Distinct net u i _ (λ j k jl kl ne off_j off_k. apart j k jl kl ne)
                    (λ j jl off e. cc e))
              | inr free ↦ rw free (
                  set_udp-Distinct net u i _ (λ j k jl kl ne off_j off_k. apart j k jl kl ne)
                    (λ j jl off e.
                      at_others i j
                        (λ j. clashes net (fresh_udp addr).local_addr port (u.sockets j)) free jl
                        off))
            ])
  | inr dynamic ↦
      let v = set_udp u i (fresh_udp addr) in
      rw dynamic (chosen (udp_get_free_port v) (free_port_sockets v) (free_port_unheld v))
]
  where
    chosen :
        (r : Udp × Option ℕ)
        → r.0.sockets ≡ update u.sockets i (fresh_udp addr)
        → ((port_found r.1 == 0) ≡ false
            → holds_port (update u.sockets i (fresh_udp addr)) (port_found r.1) ≡ false)
        → Distinct net (finish_found i (fresh_udp addr) r).0
    chosen (v, found) e free = elim (Bool-cases (port_found found == 0)) [
      | inl none_left ↦ rw none_left (
          set_udp-Distinct net v i _ (rw e (others_apart net u i (fresh_udp addr) apart))
            (λ j jl off o. cc o))
      | inr some_left ↦ rw some_left (
          set_udp-Distinct net v i _ (rw e (others_apart net u i (fresh_udp addr) apart))
            (λ j jl off o. rw e (
              unheld net (update u.sockets i (fresh_udp addr)) (fresh_udp addr).local_addr
                (port_found found) j (free some_left) jl)))
    ]

pub create-Distinct :
    (net : Below) (u : Udp) (addr : Option ℕ) (port : ℕ)
    → Distinct net u
    → Distinct net (udp_socket_create net u addr port).0
unfolding udp_socket_create
create-Distinct net u addr port apart = at_slot (find_closed_udp udp_max_sockets 0 u.sockets)
  where
    at_slot : (slot : Option ℕ) → Distinct net (created net u addr port slot).0
    at_slot none = apart
    at_slot (some i) = create_at-Distinct net u addr port i apart

pub close-Distinct :
    (net : Below) (u : Udp) (socket : Option ℕ)
    → Distinct net u
    → Distinct net (udp_socket_close u socket).0
unfolding udp_socket_close
close-Distinct net u none apart = apart
close-Distinct net u (some i) apart = elim (Bool-cases (ltb i udp_max_sockets)) [
  | inl inside ↦ elim (Bool-cases (u.sockets i).is_open) [
    | inl open_ ↦
        rw (inside, open_)
          (set_udp-Distinct net u i _ (λ j k jl kl ne off_j off_k. apart j k jl kl ne)
            (λ j jl off e. cc e))
    | inr closed_ ↦ rw (inside, closed_) apart
  ]
  | inr outside ↦ rw outside apart
]
