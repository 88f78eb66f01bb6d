-- ===== src/Tcp/Steps.antt =====
-- The steps that a segment makes a socket of network/src/tcp.c take.
use uint_os.Common.{
  ℕ, ◌+◌, ◌≡◌, refl, sym, ◌∙◌, true, ◌||◌, some, [], ◌==◌, ltb, leb, length, arith, Bool-cases, inl,
  inr,
}
use mathlib.Core.Path.{subst}
use uint_os.Tcp.Buffer.{u32, tcp_buffer_write}
use uint_os.Tcp.Socket.{
  Tcp, Net, Segment, TcpState, closed, syn_sent, syn_received, established, fin_wait_1, fin_wait_2,
  closing, time_wait, close_wait, is_syn_sent, flag_fin, flag_ack, has, set_conn, connected_event,
  data_ready_event, Connection,
}
use uint_os.Tcp.Process.{
  ack_transition, tcp_process_ack, wrote_all, tcp_process_data, tcp_process_fin,
}
use uint_os.Tcp.Receive.{receive_syn_ack, take_ack, take_data, take_fin}
use uint_os.Tcp.Moves.{
  Moves, then_moves, stay, set-Moves, notified, sent, AckStep, ack_same, ack_reset, ack_open,
  ack_fin, ack_both, ack_late, ack_last, FinStep, fin_same, fin_peer, fin_both, fin_done, fin_late,
  Steps, ack_transition-Steps, fin_transition-Steps,
}

-- What one segment does to a state.
pub data RxStep : TcpState → TcpState → Type 0 where
  rx_same : {s : TcpState} → RxStep s s
  rx_closed : {s : TcpState} → RxStep s closed
  rx_request : RxStep closed syn_received
  rx_answer : RxStep syn_sent established
  rx_open : RxStep syn_received established
  rx_open_fin : RxStep syn_received close_wait
  rx_peer : RxStep established close_wait
  rx_fin_acked : RxStep fin_wait_1 fin_wait_2
  rx_fin_both : RxStep fin_wait_1 closing
  rx_fin_all : RxStep fin_wait_1 time_wait
  rx_done : RxStep fin_wait_2 time_wait
  rx_both_acked : RxStep closing time_wait

from_fin : {a b : TcpState} → FinStep a b → RxStep a b
from_fin fin_same = rx_same
from_fin fin_peer = rx_peer
from_fin fin_both = rx_fin_both
from_fin fin_done = rx_done
from_fin fin_late = rx_closed

both : {a b c : TcpState} → AckStep a b → FinStep b c → RxStep a c
both ack_same f = from_fin f
both ack_reset fin_same = rx_closed
both ack_open fin_same = rx_open
both ack_open fin_peer = rx_open_fin
both ack_fin fin_same = rx_fin_acked
both ack_fin fin_done = rx_fin_all
both ack_fin fin_late = rx_closed
both ack_both fin_same = rx_both_acked
both ack_late fin_same = rx_closed
both ack_last fin_same = rx_closed

-- A transition that follows a change of the connection's numbers.
with_conn :
    (R : TcpState → TcpState → Type 0) (i : ℕ) (t : Tcp) (c : Connection) {t' : Tcp}
    → ((st : TcpState) × R (t.sockets i).state st × Moves i (set_conn t i c) t' st)
    → Steps R i t t'
with_conn R i t c (st, step, moves) =
    (st, step, then_moves (set-Moves i t (record (t.sockets i) { conn = c })) moves)

same_state :
    (i : ℕ) (t : Tcp) (c : Connection) → ((set_conn t i c).sockets i).state ≡ (t.sockets i).state
same_state i t c = (set-Moves i t (record (t.sockets i) { conn = c })).reached

acked :
    (net : Net) (g : Segment) (i : ℕ) (t : Tcp)
    → let c : Connection = record (t.sockets i).conn { snd_wnd = g.window; snd_una = g.ack_num } in
      Steps AckStep i t (ack_transition net (set_conn t i c) i (t.sockets i).state).0
acked net g i t =
    let c : Connection = record (t.sockets i).conn { snd_wnd = g.window; snd_una = g.ack_num } in
    with_conn AckStep i t c
      (ack_transition-Steps net i (set_conn t i c) (t.sockets i).state (same_state i t c))

take_ack-Steps :
    (net : Net) (g : Segment) (i : ℕ) (t : Tcp) → Steps AckStep i t (take_ack net g i t)
unfolding tcp_process_ack
take_ack-Steps net g i t = elim (Bool-cases (has g.flags flag_ack)) [
  | inr without ↦ rw without ((t.sockets i).state, ack_same, stay refl)
  | inl with_ack ↦
      rw with_ack
        (elim (Bool-cases
          (leb g.ack_num (t.sockets i).conn.snd_una || ltb (t.sockets i).conn.snd_nxt g.ack_num)) [
            | inl stale ↦
                rw (stale, tcp_process_ack) ((t.sockets i).state, ack_same, set-Moves i t (_))
            | inr fresh ↦ rw (fresh, tcp_process_ack) (acked net g i t)
          ])
]

take_fin-Steps :
    (net : Net) (g : Segment) (i : ℕ) (t : Tcp) → Steps FinStep i t (take_fin net g i t)
unfolding tcp_process_fin
take_fin-Steps net g i t = elim (Bool-cases (has g.flags flag_fin)) [
  | inr without ↦ rw without ((t.sockets i).state, fin_same, stay refl)
  | inl with_fin ↦
      let c : Connection = record (t.sockets i).conn {
        rcv_nxt = u32 (u32 (g.seq_num + length g.data_bytes) + 1);
      } in
      rw with_fin (
        with_conn FinStep i t c
          (fin_transition-Steps net i (set_conn t i c) (t.sockets i).state (same_state i t c)))
]

take_data-Moves :
    (net : Net) (g : Segment) (i : ℕ) (t : Tcp)
    → Moves i t (take_data net g i t) (t.sockets i).state
unfolding tcp_process_data
take_data-Moves net g i t = elim (Bool-cases (ltb 0 (length g.data_bytes))) [
  | inr nothing ↦ rw nothing (stay refl)
  | inl some_data ↦ rw some_data (elim (Bool-cases (g.seq_num == (t.sockets i).conn.rcv_nxt)) [
    | inr out ↦ rw (out, tcp_process_data) (sent net flag_ack [] (stay refl))
    | inl next ↦
        let written = tcp_buffer_write (t.sockets i).rx_buffer (some g.data_bytes) in
        elim (Bool-cases (wrote_all written.1 (length g.data_bytes))) [
          | inr failed ↦ rw (next, tcp_process_data, failed) (set-Moves i t (_))
          | inl ok ↦
              rw (next, tcp_process_data, ok)
                (sent net flag_ack [] (
                  notified (t.sockets i).data_ready_callback
                    (data_ready_event i (length g.data_bytes)) (set-Moves i t (_))))
        ]
  ])
]

pub receive_other-Steps :
    (net : Net) (g : Segment) (i : ℕ) (t : Tcp)
    → Steps RxStep i t (take_fin net g i (take_data net g i (take_ack net g i t)))
receive_other-Steps net g i t =
    let (a, ack_step, acking) = take_ack-Steps net g i t in
    let filling = take_data-Moves net g i (take_ack net g i t) in
    let (b, fin_step, ending) = take_fin-Steps net g i (take_data net g i (take_ack net g i t)) in
    (
      b,
      both ack_step (subst (λ st. FinStep st b) (filling.reached ∙ acking.reached) fin_step),
      then_moves acking (then_moves filling ending),
    )

was_syn_sent : (st : TcpState) → is_syn_sent st ≡ true → st ≡ syn_sent
was_syn_sent st h = ground arith

pub receive_syn_ack-Steps :
    (net : Net) (g : Segment) (i : ℕ) (t : Tcp)
    → is_syn_sent (t.sockets i).state ≡ true
    → Steps RxStep i t (receive_syn_ack net t i g).0
unfolding receive_syn_ack
receive_syn_ack-Steps net g i t opening =
    elim (Bool-cases (g.ack_num == (t.sockets i).conn.snd_nxt)) [
      | inr wrong ↦ rw (wrong, receive_syn_ack) ((t.sockets i).state, rx_same, stay refl)
      | inl right ↦
          rw (right, receive_syn_ack)
            (
              established,
              subst (λ st. RxStep st established) (sym (was_syn_sent (t.sockets i).state opening))
                  rx_answer,
              notified (t.sockets i).connected_callback (connected_event i)
                  (sent net flag_ack [] (set-Moves i t (_))),
            )
    ]
