-- ===== src/Tcp/Handshake.antt =====
-- The opening of a connection between two hosts that run network/src/tcp.c.
use uint_os.Common.{◌≡◌}
use uint_os.Tcp.Socket.{Tcp, Socket, established}

-- The two ends of one connection, open and with nothing under way.
abbrev pub Paired : Socket → Socket → Type 0
Paired a b =
    (a.state ≡ established)
    × (b.state ≡ established)
    × (a.remote_port ≡ b.local_port)
    × (b.remote_port ≡ a.local_port)
    × (a.conn.rcv_nxt ≡ b.conn.snd_nxt)
    × (b.conn.rcv_nxt ≡ a.conn.snd_nxt)
    × (a.conn.snd_una ≡ a.conn.snd_nxt)
    × (b.conn.snd_una ≡ b.conn.snd_nxt)
