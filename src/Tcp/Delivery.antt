-- ===== src/Tcp/Delivery.antt =====
-- What segments in sequence leave in the receive buffer of a socket of network/src/tcp.c.
use uint_os.Common.{
  ℕ, ◌+◌, ◌^◌, ◌≤◌, ◌<◌, ◌≡◌, refl, sym, ap, ◌∙◌, Bool, true, false, some, List, [], ◌∷◌, ◌++◌,
  ◌==◌, length, length-append, append_assoc, append-nil, arith, update_self, Bool-cases,
  Option-cases, ltb, inl, inr,
}
use mathlib.Core.Path.{subst}
use uint_os.Tcp.Buffer.{TcpBuffer, u32, tcp_buffer_write}
use uint_os.Tcp.Stream.{Streams, write_lem}
use uint_os.Tcp.Socket.{Tcp, Net, Socket, Event, flag_ack, notify, data_ready_event, set_socket}
use uint_os.Tcp.Segment.{tcp_send_segment, segment_of}
use uint_os.Tcp.Process.{tcp_process_data}

-- What a socket has received: its buffer holds a stream, and the next sequence number is n.
pub record Receives (s : Socket) (held : List ℕ) (size n : ℕ) : Type 0 where
  pub array : List ℕ
  pub streams : Streams s.rx_buffer array held
  pub sized : s.rx_buffer.size ≡ size
  pub expects : s.conn.rcv_nxt ≡ n

sent-Receives :
    (net : Net) (t : Tcp) (i flags : ℕ) (payload : List ℕ) {held : List ℕ} {size n : ℕ}
    → Receives (t.sockets i) held size n
    → Receives ((tcp_send_segment net t i flags payload).0.sockets i) held size n
unfolding tcp_send_segment
sent-Receives net t i flags payload {held} {size} {n} h =
    elim (Bool-cases (net.has_packet (segment_of (t.sockets i) flags payload))) [
      | inl found ↦
          rw (found, tcp_send_segment)
            (subst (λ s. Receives s held size n) (sym (update_self t.sockets i _))
              (record {
                array = h.array;
                streams = h.streams;
                sized = h.sized;
                expects = h.expects;
              }))
      | inr failed ↦ rw (failed, tcp_send_segment) h
    ]

notified-Receives :
    (registered : Bool) (e : Event) (t : Tcp) (i : ℕ) {held : List ℕ} {size n : ℕ}
    → Receives (t.sockets i) held size n
    → Receives ((notify registered e t).sockets i) held size n
notified-Receives true e t i h = h
notified-Receives false e t i h = h

write-size : (b : TcpBuffer) (source : List ℕ) → (tcp_buffer_write b (some source)).0.size ≡ b.size
unfolding tcp_buffer_write
write-size b source = elim (Option-cases b.bytes) [
  | inl missing ↦ rw (missing, tcp_buffer_write) refl
  | inr (array, found) ↦ elim (Bool-cases (ltb b.size (u32 (b.bytes_available + length source)))) [
    | inl full ↦ rw (found, tcp_buffer_write, full) refl
    | inr room ↦ rw (found, tcp_buffer_write, room) refl
  ]
]

expected : (n m : ℕ) → m ≡ n → (n == m) ≡ true
expected n m e = ground arith

all_written : (n : ℕ) → (n == n) ≡ true
all_written n = ground arith

-- The socket with the payload in its buffer.
abbrev filled : Tcp → ℕ → List ℕ → Socket
filled t i payload =
    let s = t.sockets i in
    record s {
      conn = record s.conn { rcv_nxt = u32 (s.conn.rcv_nxt + length payload) };
      rx_buffer = (tcp_buffer_write s.rx_buffer (some payload)).0;
    }

data_step :
    (net : Net) (t : Tcp) (i : ℕ) (payload : List ℕ) {held : List ℕ} {size n : ℕ}
    → Receives (t.sockets i) held size n
    → length payload < 2 ^ 31
    → length held + length payload ≤ size
    → Receives
        ((tcp_process_data net t i payload n).0.sockets i)
        (held ++ payload)
        size
        (u32 (n + length payload))
unfolding tcp_process_data
data_step net t i payload {held} {size} {n} h small room =
    elim (write_lem h.streams payload small) [
      | inr (full, e) ↦ absurd (omega (arith, h.sized))
      | inl (fits, (array', streams), written) ↦
          rw
            (
              expected n (t.sockets i).conn.rcv_nxt h.expects,
              tcp_process_data,
              written,
              all_written (length payload),
            )
            (sent-Receives net
              (notify (t.sockets i).data_ready_callback (data_ready_event i (length payload))
                (set_socket t i (filled t i payload)))
              i flag_ack []
              (notified-Receives (t.sockets i).data_ready_callback
                (data_ready_event i (length payload)) (set_socket t i (filled t i payload)) i
                (subst (λ s. Receives s (held ++ payload) size (u32 (n + length payload)))
                  (sym (update_self t.sockets i (filled t i payload)))
                  (record {
                    array = array';
                    streams = streams;
                    sized = write-size (t.sockets i).rx_buffer payload ∙ h.sized;
                    expects = ap (λ m. u32 (m + length payload)) h.expects;
                  }))))
    ]

-- The payloads arrive one after the other, each at the number that is expected.
unfoldable pub deliver_all : Net → Tcp → ℕ → ℕ → List (List ℕ) → Tcp
unfolding tcp_process_data
deliver_all net t i n [] = t
deliver_all net t i n (p ∷ ps) =
    deliver_all net (tcp_process_data net t i p n).0 i (u32 (n + length p)) ps

unfoldable pub joined : List (List ℕ) → List ℕ
joined [] = []
joined (p ∷ ps) = p ++ joined ps

u32_add : (n k m : ℕ) → u32 (u32 (n + k) + m) ≡ u32 (n + (k + m))
u32_add n k m = omega arith

-- Segments that arrive in sequence, and together fit into the free part of the receive buffer, are
-- all in it in their order behind what it held, and the next number that the socket expects has
-- gone up by their length, modulo 2^32.
pub deliver_lem :
    (ps : List (List ℕ)) (net : Net) (t : Tcp) (i : ℕ) {held : List ℕ} {size n : ℕ}
    → Receives (t.sockets i) held size n
    → length held + length (joined ps) ≤ size
    → size < 2 ^ 31
    → n < 2 ^ 32
    → Receives
        ((deliver_all net t i n ps).sockets i)
        (held ++ joined ps)
        size
        (u32 (n + length (joined ps)))
unfolding deliver_all joined
deliver_lem [] net t i {held} {size} {n} h room small below =
    subst (λ l. Receives (t.sockets i) l size (u32 (n + 0))) (sym (append-nil held))
      (subst (λ m. Receives (t.sockets i) held size m) (omega arith) h)
deliver_lem (p ∷ ps) net t i {held} {size} {n} h room small below =
    subst
      (λ l.
        Receives ((deliver_all net t i n (p ∷ ps)).sockets i) l size
          (u32 (n + length (joined (p ∷ ps)))))
      (append_assoc held p (joined ps))
      (subst
        (λ m.
          Receives ((deliver_all net t i n (p ∷ ps)).sockets i) ((held ++ p) ++ joined ps) size m)
        (u32_add n (length p) (length (joined ps))
          ∙ ap (λ k. u32 (n + k)) (sym (length-append p (joined ps))))
        (deliver_lem ps net (tcp_process_data net t i p n).0 i
          (data_step net t i p h (omega (arith, length-append p (joined ps)))
            (omega (arith, length-append p (joined ps))))
          (omega (arith, length-append p (joined ps), length-append held p)) small (omega arith)))
