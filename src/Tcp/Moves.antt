-- ===== src/Tcp/Moves.antt =====
-- What sending, acknowledgement and FIN do to the sockets of network/src/tcp.c and their states.
use uint_os.Common.{
  ℕ, ◌≡◌, ◌≢◌, ◌⊎◌, refl, ap, ◌∙◌, Bool, true, false, List, [], update_self, update_ne, Bool-cases,
  Option-cases, inl, inr,
}
use uint_os.Tcp.Socket.{
  Tcp, Net, Socket, Event, TcpState, closed, listen, syn_sent, syn_received, established,
  fin_wait_1, fin_wait_2, closing, time_wait, close_wait, last_ack, flag_rst, flag_ack, notify,
  tcp_max_time_wait_sockets, set_socket, set_state, connected_event, closed_event,
}
use uint_os.Tcp.Segment.{tcp_send_segment, segment_of, find_slot, tcp_start_time_wait}
use uint_os.Tcp.Process.{ack_transition, fin_transition}

-- No socket but i is changed, and the state of i is that one.
pub record Moves (i : ℕ) (t t' : Tcp) (st : TcpState) : Type 0 where
  pub kept : (j : ℕ) → i ≢ j → t'.sockets j ≡ t.sockets j
  pub reached : (t'.sockets i).state ≡ st

pub then_moves :
    {i : ℕ} {t u v : Tcp} {a b : TcpState} → Moves i t u a → Moves i u v b → Moves i t v b
then_moves h k = record { kept = λ j ne. k.kept j ne ∙ h.kept j ne; reached = k.reached }

pub stay : {i : ℕ} {t : Tcp} {st : TcpState} → (t.sockets i).state ≡ st → Moves i t t st
stay e = record { kept = λ j ne. refl; reached = e }

pub set-Moves : (i : ℕ) (t : Tcp) (s : Socket) → Moves i t (set_socket t i s) s.state
set-Moves i t s = record {
  kept = λ j ne. update_ne t.sockets i j s ne;
  reached = ap (λ s. s.state) (update_self t.sockets i s);
}

pub turned : (i : ℕ) (t : Tcp) (st : TcpState) → Moves i t (set_state t i st) st
turned i t st = set-Moves i t (record (t.sockets i) { state = st })

-- What leaves the state alone, after a move to it.
pub notified :
    {i : ℕ} {t u : Tcp} {st : TcpState} (registered : Bool) (e : Event)
    → Moves i t u st
    → Moves i t (notify registered e u) st
notified true e h = record { kept = h.kept; reached = h.reached }
notified false e h = h

pub sent :
    (net : Net) {i : ℕ} {t u : Tcp} {st : TcpState} (flags : ℕ) (payload : List ℕ)
    → Moves i t u st
    → Moves i t (tcp_send_segment net u i flags payload).0 st
unfolding tcp_send_segment
sent net {i} {t} {u} {st} flags payload h =
    elim (Bool-cases (net.has_packet (segment_of (u.sockets i) flags payload))) [
      | inl found ↦
          rw (found, tcp_send_segment)
            (record {
              kept = λ j ne. update_ne u.sockets i j _ ne ∙ h.kept j ne;
              reached = ap (λ s. s.state) (update_self u.sockets i _) ∙ h.reached;
            })
      | inr failed ↦ rw (failed, tcp_send_segment) (record { kept = h.kept; reached = h.reached })
    ]

timed :
    (net : Net) {i : ℕ} {t u : Tcp} {st : TcpState}
    → Moves i t u st
    → Moves i t (tcp_start_time_wait net u i) st ⊎ Moves i t (tcp_start_time_wait net u i) closed
unfolding tcp_start_time_wait
timed net {i} {t} {u} {st} h =
    elim (Option-cases (find_slot tcp_max_time_wait_sockets 0 u.time_wait_sockets)) [
      | inl full ↦ inr (rw (full, tcp_start_time_wait) (then_moves h (set-Moves i u _)))
      | inr (slot, found) ↦
          inl (rw (found, tcp_start_time_wait) (record { kept = h.kept; reached = h.reached }))
    ]

-- What an acknowledgement does to a state, and what a FIN does.
pub data AckStep : TcpState → TcpState → Type 0 where
  ack_same : {s : TcpState} → AckStep s s
  ack_reset : AckStep syn_sent closed
  ack_open : AckStep syn_received established
  ack_fin : AckStep fin_wait_1 fin_wait_2
  ack_both : AckStep closing time_wait
  ack_late : AckStep closing closed
  ack_last : AckStep last_ack closed

pub data FinStep : TcpState → TcpState → Type 0 where
  fin_same : {s : TcpState} → FinStep s s
  fin_peer : FinStep established close_wait
  fin_both : FinStep fin_wait_1 closing
  fin_done : FinStep fin_wait_2 time_wait
  fin_late : FinStep fin_wait_2 closed

-- No socket but i is changed, and the state of i makes a step.
abbrev pub Steps : (TcpState → TcpState → Type 0) → ℕ → Tcp → Tcp → Type 0
Steps R i t t' = (st : TcpState) × R (t.sockets i).state st × Moves i t t' st

pub ack_transition-Steps :
    (net : Net) (i : ℕ) (t : Tcp) (st : TcpState)
    → (t.sockets i).state ≡ st
    → (st' : TcpState) × AckStep st st' × Moves i t (ack_transition net t i st).0 st'
unfolding ack_transition
ack_transition-Steps net i t closed e = (closed, ack_same, stay e)
ack_transition-Steps net i t listen e = (listen, ack_same, stay e)
ack_transition-Steps net i t syn_sent e =
    (closed, ack_reset, sent net flag_rst [] (turned i t closed))
ack_transition-Steps net i t syn_received e = (
  established,
  ack_open,
  notified (t.sockets i).connected_callback (connected_event i) (turned i t established),
)
ack_transition-Steps net i t established e = (established, ack_same, stay e)
ack_transition-Steps net i t fin_wait_1 e = (fin_wait_2, ack_fin, turned i t fin_wait_2)
ack_transition-Steps net i t fin_wait_2 e = (fin_wait_2, ack_same, stay e)
ack_transition-Steps net i t closing e = elim (timed net (turned i t time_wait)) [
  | inl waits ↦ (time_wait, ack_both, waits)
  | inr ends ↦ (closed, ack_late, ends)
]
ack_transition-Steps net i t time_wait e = (time_wait, ack_same, stay e)
ack_transition-Steps net i t close_wait e = (close_wait, ack_same, stay e)
ack_transition-Steps net i t last_ack e =
    (closed, ack_last, notified (t.sockets i).closed_callback (closed_event i) (turned i t closed))

pub fin_transition-Steps :
    (net : Net) (i : ℕ) (t : Tcp) (st : TcpState)
    → (t.sockets i).state ≡ st
    → (st' : TcpState) × FinStep st st' × Moves i t (fin_transition net t i st).0 st'
unfolding fin_transition
fin_transition-Steps net i t closed e = (closed, fin_same, sent net flag_ack [] (stay e))
fin_transition-Steps net i t listen e = (listen, fin_same, sent net flag_ack [] (stay e))
fin_transition-Steps net i t syn_sent e = (syn_sent, fin_same, sent net flag_ack [] (stay e))
fin_transition-Steps net i t syn_received e =
    (syn_received, fin_same, sent net flag_ack [] (stay e))
fin_transition-Steps net i t established e = (
  close_wait,
  fin_peer,
  notified (t.sockets i).closed_callback (closed_event i)
      (sent net flag_ack [] (turned i t close_wait)),
)
fin_transition-Steps net i t fin_wait_1 e =
    (closing, fin_both, sent net flag_ack [] (turned i t closing))
fin_transition-Steps net i t fin_wait_2 e =
    elim (timed net (sent net flag_ack [] (turned i t time_wait))) [
      | inl waits ↦ (time_wait, fin_done, waits)
      | inr ends ↦ (closed, fin_late, ends)
    ]
fin_transition-Steps net i t closing e = (closing, fin_same, sent net flag_ack [] (stay e))
fin_transition-Steps net i t time_wait e = (time_wait, fin_same, sent net flag_ack [] (stay e))
fin_transition-Steps net i t close_wait e = (close_wait, fin_same, sent net flag_ack [] (stay e))
fin_transition-Steps net i t last_ack e = (last_ack, fin_same, sent net flag_ack [] (stay e))
