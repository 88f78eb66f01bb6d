-- ===== src/Tcp/Isolation.antt =====
-- Which sockets an incoming segment touches in network/src/tcp.c, and what becomes of their states.
use uint_os.Common.{
  ℕ, zero, suc, ◌+◌, ◌≡◌, ◌≢◌, ◌⊎◌, refl, sym, ap, ◌∙◌, Bool, true, false, ◌&&◌, none, some, List,
  [], leb, if◌then◌else◌, arith, Bool-cases, Option-cases, inl, inr, ℕ_discrete,
}
use mathlib.Core.Path.{subst}
use uint_os.Common.Int.{ℤ, negsuc}
use uint_os.Tcp.Buffer.{tcp_buffer_init}
use uint_os.Tcp.Socket.{
  Tcp, Net, Socket, Segment, Listener, TcpState, closed, syn_received, is_closed, is_listen,
  is_syn_sent, flag_syn, flag_rst, flag_ack, has, find_closed, tcp_max_sockets,
  tcp_default_buffer_size, closed_event,
}
use uint_os.Tcp.Process.{accept_request, tcp_process_syn, received_socket}
use uint_os.Tcp.Receive.{
  matches, find_from, tcp_find_socket, receive_rst, receive_syn, receive_other, receive_segment,
  parse, tcp_rx,
}
use uint_os.Tcp.Moves.{Moves, stay, set-Moves, turned, notified, sent, Steps}
use uint_os.Tcp.Steps.{
  RxStep, rx_same, rx_closed, rx_request, receive_other-Steps, receive_syn_ack-Steps,
}

find_from_lem :
    (n i : ℕ) (net : Net) (sockets : ℕ → Socket) (lp la rp ra : ℕ)
    → (find_from n i net sockets lp la rp ra ≡ none)
      ⊎ ((k : ℕ) × (find_from n i net sockets lp la rp ra ≡ some k)
          × (matches net (sockets k) lp la rp ra ≡ true))
unfolding find_from
find_from_lem zero i net sockets lp la rp ra = inl refl
find_from_lem (suc n) i net sockets lp la rp ra =
    elim (Bool-cases (matches net (sockets i) lp la rp ra)) [
      | inl here ↦ inr (i, rw (here, find_from) refl, here)
      | inr later ↦ rw (later, find_from) (find_from_lem n (i + 1) net sockets lp la rp ra)
    ]

find_closed_lem :
    (n i : ℕ) (sockets : ℕ → Socket)
    → (find_closed n i sockets ≡ none)
      ⊎ ((k : ℕ) × (find_closed n i sockets ≡ some k) × (is_closed (sockets k).state ≡ true))
unfolding find_closed
find_closed_lem zero i sockets = inl refl
find_closed_lem (suc n) i sockets = elim (Bool-cases (is_closed (sockets i).state)) [
  | inl here ↦ inr (i, rw (here, find_closed) refl, here)
  | inr later ↦ rw (later, find_closed) (find_closed_lem n (i + 1) sockets)
]

-- The socket is the same, or it is the segment's own or was closed, and its state makes a step.
abbrev pub Touched : Net → Segment → Socket → Socket → Type 0
Touched net g s s' =
    (s' ≡ s)
    ⊎ (((matches net s g.dest_port g.dest_addr g.src_port g.src_addr ≡ true)
          ⊎ (is_closed s.state ≡ true))
        × RxStep s.state s'.state)

abbrev pub Isolates : Net → Segment → Tcp → Tcp → Type 0
Isolates net g t t' = (j : ℕ) → Touched net g (t.sockets j) (t'.sockets j)

untouched : (net : Net) (g : Segment) (t : Tcp) → Isolates net g t t
untouched net g t j = inl refl

own_socket :
    (net : Net) (g : Segment) (i : ℕ) {t t' : Tcp}
    → matches net (t.sockets i) g.dest_port g.dest_addr g.src_port g.src_addr ≡ true
    → Steps RxStep i t t'
    → Isolates net g t t'
own_socket net g i {t} {t'} own (st, step, moves) j = elim (ℕ_discrete i j) [
  | yes same ↦
      subst (λ j. Touched net g (t.sockets j) (t'.sockets j)) same
        (inr (inl own, subst (λ st. RxStep (t.sockets i).state st) (sym moves.reached) step))
  | no other ↦ inl (moves.kept j other)
]

was_closed : (st : TcpState) → is_closed st ≡ true → st ≡ closed
was_closed st h = ground arith

not_both : (st : TcpState) → is_closed st ≡ true → is_listen st ≢ true
not_both st h k = ground arith

closed_ne_listen :
    (t : Tcp) (i l : ℕ)
    → is_closed (t.sockets i).state ≡ true
    → is_listen (t.sockets l).state ≡ true
    → i ≢ l
closed_ne_listen t i l h k e =
    not_both (t.sockets i).state h (subst (λ j. is_listen (t.sockets j).state ≡ true) (sym e) k)

-- A request fills the closed socket i, and l keeps its state.
requested :
    (net : Net) (g : Segment) (i l : ℕ) {t u v w : Tcp}
    → matches net (t.sockets l) g.dest_port g.dest_addr g.src_port g.src_addr ≡ true
    → is_closed (t.sockets i).state ≡ true
    → i ≢ l
    → Moves i t u syn_received
    → Moves l u v (u.sockets l).state
    → Moves i v w (v.sockets i).state
    → Isolates net g t w
requested net g i l {t} {u} {v} {w} own free ne first link last j = elim (ℕ_discrete i j) [
  | yes same ↦
      subst (λ j. Touched net g (t.sockets j) (w.sockets j)) same
        (inr (
          inr free,
          subst (λ st. RxStep (t.sockets i).state st)
              (sym (
                last.reached ∙ (ap (λ s. s.state) (link.kept i (λ e. ne (sym e))) ∙ first.reached)))
              (subst (λ st. RxStep st syn_received) (sym (was_closed (t.sockets i).state free))
                rx_request),
        ))
  | no other ↦ elim (ℕ_discrete l j) [
    | yes same ↦
        subst (λ j. Touched net g (t.sockets j) (w.sockets j)) same
          (inr (
            inl own,
            subst (λ st. RxStep (t.sockets l).state st)
                (sym (
                  ap (λ s. s.state) (last.kept l ne)
                  ∙ (link.reached ∙ ap (λ s. s.state) (first.kept l ne))))
                rx_same,
          ))
    | no third ↦ inl (last.kept j other ∙ (link.kept j third ∙ first.kept j other))
  ]
]

accept_request-Isolates :
    (net : Net) (t : Tcp) (l : ℕ) (listener : Listener) (i : ℕ) (g : Segment)
    → matches net (t.sockets l) g.dest_port g.dest_addr g.src_port g.src_addr ≡ true
    → is_closed (t.sockets i).state ≡ true
    → i ≢ l
    → Isolates net g t (accept_request net t l listener i g).0
unfolding accept_request
accept_request-Isolates net t l listener i g own free ne =
    elim (Option-cases
      (tcp_buffer_init (received_socket t g).rx_buffer tcp_default_buffer_size
        net.buffer_memory).1) [
          | inl nothing ↦
              rw (nothing, accept_request)
                (requested net g i l own free ne (set-Moves i t (_)) (stay refl) (stay refl))
          | inr (ok, found) ↦
              rw (found, accept_request)
                (requested net g i l own free ne (set-Moves i t (_)) (set-Moves l (_) (_))
                  (sent net (flag_syn + flag_ack) [] (stay refl)))
        ]

process_syn-Isolates :
    (net : Net) (t : Tcp) (l : ℕ) (g : Segment)
    → matches net (t.sockets l) g.dest_port g.dest_addr g.src_port g.src_addr ≡ true
    → Isolates net g t (tcp_process_syn net t l g).0
unfolding tcp_process_syn
process_syn-Isolates net t l g own = elim (Bool-cases (is_listen (t.sockets l).state)) [
  | inr other ↦ rw (other, tcp_process_syn) (untouched net g t)
  | inl listens ↦ elim (Option-cases (t.sockets l).listener) [
    | inl missing ↦ rw (listens, tcp_process_syn, missing) (untouched net g t)
    | inr (listener, has_listener) ↦
        elim (Bool-cases (leb listener.backlog listener.pending_count)) [
          | inl full ↦ rw (listens, tcp_process_syn, has_listener, full) (untouched net g t)
          | inr room ↦ elim (find_closed_lem tcp_max_sockets 0 t.sockets) [
            | inl all_used ↦
                rw (listens, tcp_process_syn, has_listener, room, all_used) (untouched net g t)
            | inr (i, found, free) ↦
                rw (listens, tcp_process_syn, has_listener, room, found)
                  (accept_request-Isolates net t l listener i g own free
                    (closed_ne_listen t i l free listens))
          ]
        ]
  ]
]

either :
    (net : Net) (g : Segment) (t : Tcp) (b : Bool) (u v : Tcp × ℤ)
    → Isolates net g t u.0
    → Isolates net g t v.0
    → Isolates net g t (if b then u else v).0
either net g t true u v hu hv = hu
either net g t false u v hu hv = hv

receive_syn-Isolates :
    (net : Net) (t : Tcp) (l : ℕ) (g : Segment)
    → matches net (t.sockets l) g.dest_port g.dest_addr g.src_port g.src_addr ≡ true
    → Isolates net g t (receive_syn net t (some l) g).0
unfolding receive_syn
receive_syn-Isolates net t l g own =
    elim (Bool-cases (has g.flags flag_ack && is_syn_sent (t.sockets l).state)) [
      | inl answers ↦
          rw answers
            (own_socket net g l own (receive_syn_ack-Steps net g l t (ground (arith, answers))))
      | inr no_answer ↦ rw no_answer (
          either net g t (is_listen (t.sockets l).state) (tcp_process_syn net t l g) (t, negsuc 0)
            (process_syn-Isolates net t l g own) (untouched net g t))
    ]

-- The segment of a reset, of a SYN and of any other kind.
segment-Isolates :
    (net : Net) (t : Tcp) (l : ℕ) (g : Segment)
    → matches net (t.sockets l) g.dest_port g.dest_addr g.src_port g.src_addr ≡ true
    → tcp_find_socket net t g.dest_port g.dest_addr g.src_port g.src_addr ≡ some l
    → Isolates net g t (receive_segment net t g).0
unfolding receive_segment receive_rst receive_other
segment-Isolates net t l g own found = elim (Bool-cases (has g.flags flag_rst)) [
  | inl rst ↦
      rw (found, rst, receive_segment)
        (own_socket net g l own (
          closed,
          rx_closed,
          notified (t.sockets l).closed_callback (closed_event l) (turned l t closed),
        ))
  | inr no_rst ↦ elim (Bool-cases (has g.flags flag_syn)) [
    | inl syn ↦ rw (found, no_rst, syn, receive_segment) (receive_syn-Isolates net t l g own)
    | inr no_syn ↦
        rw (found, no_rst, no_syn, receive_segment)
          (own_socket net g l own (receive_other-Steps net g l t))
  ]
]

no_socket-Isolates :
    (net : Net) (t : Tcp) (g : Segment)
    → tcp_find_socket net t g.dest_port g.dest_addr g.src_port g.src_addr ≡ none
    → Isolates net g t (receive_segment net t g).0
unfolding receive_segment receive_rst receive_syn receive_other
no_socket-Isolates net t g nobody = elim (Bool-cases (has g.flags flag_rst)) [
  | inl rst ↦ rw (nobody, rst, receive_segment) (untouched net g t)
  | inr no_rst ↦ elim (Bool-cases (has g.flags flag_syn)) [
    | inl syn ↦ rw (nobody, no_rst, syn, receive_segment) (untouched net g t)
    | inr no_syn ↦ rw (nobody, no_rst, no_syn, receive_segment) (untouched net g t)
  ]
]

segment_isolation :
    (net : Net) (t : Tcp) (g : Segment) → Isolates net g t (receive_segment net t g).0
unfolding tcp_find_socket
segment_isolation net t g =
    elim (find_from_lem tcp_max_sockets 0 net t.sockets g.dest_port g.dest_addr g.src_port
      g.src_addr) [
        | inr (l, found, own) ↦ segment-Isolates net t l g own found
        | inl nobody ↦ no_socket-Isolates net t g nobody
      ]

-- tcp_rx refuses a packet and changes nothing, or it is a segment that touches no socket but those
-- that it matches and, to open a connection, a closed one; the state of a touched socket makes one
-- of the twelve steps of `RxStep`.
pub rx_isolation :
    (net : Net) (t : Tcp) (packet : List ℕ) (src dest : ℕ)
    → (tcp_rx net t packet src dest ≡ (t, negsuc 0))
      ⊎ ((g : Segment) × (parse packet src dest ≡ some g)
          × Isolates net g t (tcp_rx net t packet src dest).0)
unfolding tcp_rx
rx_isolation net t packet src dest = elim (Option-cases (parse packet src dest)) [
  | inl bad ↦ inl (rw (bad, tcp_rx) refl)
  | inr (g, good) ↦ inr (g, good, rw (good, tcp_rx) (segment_isolation net t g))
]
