-- ===== src/Tcp/Wire.antt =====
-- The bytes that tcp_send_segment writes, and what tcp_rx reads from them, in network/src/tcp.c.
use uint_os.Common.{
  ℕ, ◌+◌, ◌*◌, ◌/◌, ◌%◌, ◌^◌, ◌<◌, ◌≡◌, refl, true, false, some, List, ◌==◌, ltb, ◌||◌, length,
  arith,
}
use uint_os.Tcp.Checksum.{tcp_checksum}
use uint_os.Tcp.Socket.{Segment}
use uint_os.Tcp.Segment.{header_with, segment_bytes}
use uint_os.Tcp.Receive.{header_size, parse}

-- The fields fit their places in the header.
pub record Fits (g : Segment) : Type 0 where
  pub src_port_fits : g.src_port < 2 ^ 16
  pub dest_port_fits : g.dest_port < 2 ^ 16
  pub seq_num_fits : g.seq_num < 2 ^ 32
  pub ack_num_fits : g.ack_num < 2 ^ 32
  pub window_fits : g.window < 2 ^ 16

checksum-small :
    (header data_bytes : List ℕ) (src dest : ℕ) → tcp_checksum header data_bytes src dest < 2 ^ 16
unfolding tcp_checksum
checksum-small header data_bytes src dest = omega arith

pack16 : (n : ℕ) → n < 2 ^ 16 → n / 256 % 256 * 256 + n % 256 ≡ n
pack16 n h = omega arith

pack32 :
    (n : ℕ)
    → n < 2 ^ 32
    → (n / 2 ^ 24 % 256 * 256 + n / 2 ^ 16 % 256) * 2 ^ 16 + (n / 2 ^ 8 % 256 * 256 + n % 256) ≡ n
pack32 n h = omega arith

-- The two bytes of a checksum, the low one first.
pack_checksum : (n : ℕ) → n < 2 ^ 16 → (n % 256 + n / 256 % 256 * 256 == n) ≡ true
pack_checksum n h = ground arith

-- tcp_rx reads from the bytes of a segment, whose fields fit their places, the segment that was
-- sent: sizes and checksum are right, and every field and the data are as they were.
pub parse-segment_bytes :
    (g : Segment) → Fits g → parse (segment_bytes g) g.src_addr g.dest_addr ≡ some g
unfolding parse segment_bytes
parse-segment_bytes g h =
    rw
      (
        sizes,
        parse,
        pack_checksum (tcp_checksum (header_with g 0) g.data_bytes g.src_addr g.dest_addr)
            (checksum-small (header_with g 0) g.data_bytes g.src_addr g.dest_addr),
        pack16 g.src_port h.src_port_fits,
        pack16 g.dest_port h.dest_port_fits,
        pack16 g.window h.window_fits,
        pack32 g.seq_num h.seq_num_fits,
        pack32 g.ack_num h.ack_num_fits,
      )
      refl
  where
    sizes :
        (ltb (length (segment_bytes g)) 20
          || (ltb (header_size (segment_bytes g)) 20
              || ltb (length (segment_bytes g)) (header_size (segment_bytes g))))
        ≡ false
    sizes = ground arith
