-- ===== src/Tcp/Segment.antt =====
-- tcp_send_segment, the bytes of a segment, and the TIME_WAIT timers of network/src/tcp.c.
use uint_os.Common.{
  ℕ, zero, suc, ◌+◌, ◌-◌, ◌*◌, ◌/◌, ◌%◌, ◌^◌, Bool, Option, none, some, List, [], ◌∷◌, ◌++◌, ltb,
  leb, if◌then◌else◌, length, update,
}
use uint_os.Common.Int.{ℤ, negsuc}
use uint_os.Tcp.Buffer.{u32}
use uint_os.Tcp.Checksum.{tcp_checksum}
use uint_os.Tcp.Socket.{
  Tcp, Net, Socket, Segment, Connection, TimeWait, flag_fin, flag_syn, flag_ack, has, set_state,
  closed, tcp_max_time_wait_sockets, tcp_msl,
}

abbrev pub bit : Bool → ℕ
bit b = if b then 1 else 0

-- The header that tcp_send_segment fills, and the data.
abbrev pub segment_of : Socket → ℕ → List ℕ → Segment
segment_of s flags payload = record {
  src_addr = s.local_addr;
  dest_addr = s.remote_addr;
  src_port = s.local_port;
  dest_port = s.remote_port;
  seq_num = s.conn.snd_nxt;
  ack_num = if has flags flag_ack then s.conn.rcv_nxt else 0;
  flags = flags;
  window = s.conn.rcv_wnd % 2 ^ 16;
  data_bytes = payload;
}

-- Data, SYN and FIN take up sequence numbers.
abbrev pub after_send : Connection → ℕ → ℕ → Connection
after_send c flags len = record c {
  snd_nxt = u32 (c.snd_nxt + len + bit (has flags flag_syn) + bit (has flags flag_fin));
}

unfoldable pub tcp_send_segment : Net → Tcp → ℕ → ℕ → List ℕ → Tcp × ℤ
tcp_send_segment net t i flags payload =
    let s = t.sockets i in
    let seg = segment_of s flags payload in
    if net.has_packet seg
    then (
      record t {
        sockets = update t.sockets i (record s { conn = after_send s.conn flags (length payload) });
        segments = seg ∷ t.segments;
      },
      net.ip_tx seg,
    )
    else (t, negsuc 0)

-- htons and htonl, as bytes.
abbrev pub bytes16 : ℕ → List ℕ
bytes16 n = n / 256 % 256 ∷ n % 256 ∷ []

abbrev pub bytes32 : ℕ → List ℕ
bytes32 n = n / 2 ^ 24 % 256 ∷ n / 2 ^ 16 % 256 ∷ n / 2 ^ 8 % 256 ∷ n % 256 ∷ []

-- The 20 bytes of the header with that checksum, which is stored as it is.
abbrev pub header_with : Segment → ℕ → List ℕ
header_with g checksum =
    bytes16 g.src_port
    ++ (bytes16 g.dest_port
        ++ (bytes32 g.seq_num
            ++ (bytes32 g.ack_num
                ++ (5 * 16
                    ∷ g.flags
                    ∷ (bytes16 g.window ++ (checksum % 256 ∷ checksum / 256 % 256 ∷ 0 ∷ 0 ∷ []))))))

unfoldable pub segment_bytes : Segment → List ℕ
unfolding tcp_checksum
segment_bytes g =
    header_with g (tcp_checksum (header_with g 0) g.data_bytes g.src_addr g.dest_addr)
    ++ g.data_bytes

-- The first free slot: the rounds left, and i.
unfoldable pub find_slot : ℕ → ℕ → (ℕ → TimeWait) → Option ℕ
find_slot zero i slots = none
find_slot (suc n) i slots =
    let rest = find_slot n (i + 1) slots in elim (slots i).socket [ none ↦ some i | some s ↦ rest ]

unfoldable pub tcp_start_time_wait : Net → Tcp → ℕ → Tcp
unfolding find_slot
tcp_start_time_wait net t i = elim (find_slot tcp_max_time_wait_sockets 0 t.time_wait_sockets) [
  | none ↦ set_state t i closed
  | some slot ↦ record t {
    time_wait_sockets =
        update t.time_wait_sockets slot
          (record { socket = some i; start_time = net.time_ms; duration = 2 * tcp_msl });
  }
]

-- A slot is free at first.
unfoldable pub clear_slots : ℕ → (ℕ → TimeWait) → ℕ → TimeWait
clear_slots n slots i = if ltb i n then record (slots i) { socket = none } else slots i

-- The loop over the timers in tcp_timer: the rounds left, and i.
unfoldable pub expire_time_waits : ℕ → ℕ → ℕ → Tcp → Tcp
expire_time_waits zero i now t = t
expire_time_waits (suc n) i now t =
    let slot = t.time_wait_sockets i in
    expire_time_waits n (i + 1) now (elim slot.socket [
      | none ↦ t
      | some s ↦
          if leb slot.duration (u32 (now + 2 ^ 32 - slot.start_time))
          then record (set_state t s closed) {
            time_wait_sockets = update t.time_wait_sockets i (record slot { socket = none });
          }
          else t
    ])

-- The timers in TIME_WAIT of tcp_timer.
unfoldable pub time_wait_timers : Net → Tcp → Tcp
unfolding expire_time_waits
time_wait_timers net t = expire_time_waits tcp_max_time_wait_sockets 0 net.time_ms t
