-- ===== src/Tcp/Stream.antt =====
-- A receive buffer of network/src/tcp.c behaves as a bounded stream of bytes.
use uint_os.Common.{
  ℕ, ◌+◌, ◌-◌, ◌%◌, ◌^◌, ◌≤◌, ◌<◌, ◌≡◌, ◌⊎◌, dec_lt, refl, sym, ap, ◌∙◌, true, false, none, some,
  List, [], ◌++◌, arith, ◌==◌, ltb, length, take, drop, take-all, Bool-cases, inl, inr, ==_iff,
}
use native.Mathlib.Nat.{mod-add-mod}
use uint_os.Common.Ring.{items, length-items}
use uint_os.Tcp.Buffer.{
  u32, TcpBuffer, tcp_buffer_init, write_bytes, tcp_buffer_write, read_bytes, read_len,
  tcp_buffer_read, tcp_buffer_peek,
}
use uint_os.Tcp.Loops.{stream, write_bytes_lem, read_bytes_lem, stream_split, split_at}

-- A buffer over `array` that holds the bytes `held`.
pub record Streams (b : TcpBuffer) (array held : List ℕ) : Type 0 where
  pub array_at : b.bytes ≡ some array
  pub room : length array ≡ b.size
  pub small : b.size ≤ 2 ^ 31
  pub start_in : b.start < b.size
  pub fits : b.bytes_available ≤ b.size
  pub end_at : b.end ≡ (b.start + b.bytes_available) % b.size
  pub content : stream b.size array b.start b.bytes_available ≡ held

module _ {b : TcpBuffer} {array held : List ℕ} (st : Streams b array held) where
  open st use {array_at, room, small, start_in, fits, end_at, content}

  available : length held ≡ b.bytes_available
  available = ap length (sym content) ∙ length-items 0 b.size array b.start b.bytes_available

  -- The stream behind a read of `len` bytes.
  left_of : ℕ → List ℕ
  left_of len =
      stream b.size array ((b.start + read_len b len) % b.size) (b.bytes_available - read_len b len)

  parts : (len : ℕ) → held ≡ stream b.size array b.start (read_len b len) ++ left_of len
  unfolding left_of
  parts len =
      sym content
      ∙ (ap (stream b.size array b.start) (whole len)
          ∙ stream_split b.size array b.start (read_len b len) (b.bytes_available - read_len b len))
    where
      whole : (len : ℕ) → b.bytes_available ≡ read_len b len + (b.bytes_available - read_len b len)
      whole len = ground arith

  cut :
      (len : ℕ)
      → (take len held ≡ stream b.size array b.start (read_len b len))
        × (drop len held ≡ left_of len)
  unfolding left_of items
  cut len =
      split_at len held (stream b.size array b.start (read_len b len)) (left_of len) (parts len)
        (elim (dec_lt b.bytes_available len) [
          | yes more ↦ inr (
            ground (arith, length-items 0 b.size array b.start (read_len b len)),
            ap (stream b.size array ((b.start + read_len b len) % b.size)) (none_over more),
          )
          | no enough ↦ inl (ground (arith, length-items 0 b.size array b.start (read_len b len)))
        ])
    where
      none_over : b.bytes_available < len → b.bytes_available - read_len b len ≡ 0
      none_over more = ground arith

  -- Nothing to read: the stream is the one behind the read.
  nothing : (len : ℕ) → read_len b len ≡ 0 → (take len held ≡ []) × (held ≡ drop len held)
  unfolding items
  nothing len z = (
    (cut len).0 ∙ ap (stream b.size array b.start) z,
    parts len
        ∙ (ap (λ xs. xs ++ left_of len) (ap (stream b.size array b.start) z) ∙ sym (cut len).1),
  )

  -- tcp_buffer_write appends the whole source to the stream and returns its length, or, exactly
  -- when there is no room for all of it, changes nothing and fails.
  pub write_lem :
      (source : List ℕ)
      → length source < 2 ^ 31
      → ((length held + length source ≤ b.size)
          × ((array' : List ℕ) × Streams
                (tcp_buffer_write b (some source)).0
                array'
                (held ++ source))
          × ((tcp_buffer_write b (some source)).1 ≡ some (length source)))
        ⊎ ((b.size < length held + length source) × (tcp_buffer_write b (some source) ≡ (b, none)))
  unfolding tcp_buffer_write
  write_lem source hs = elim (Bool-cases (ltb b.size (u32 (b.bytes_available + length source)))) [
    | inl full ↦ inr (ground (arith, available), rw (array_at, full) refl)
    | inr ok ↦ inl (
      ground (arith, available),
      rw (array_at, ok)
          (
            (write_bytes b.size source array b.end).0,
            record {
              array_at = refl;
              room = (loop ok).0;
              small = small;
              start_in = start_in;
              fits = ground arith;
              end_at = (loop ok).1 ∙ ap (λ k. (b.start + k) % b.size) (no_wrap ok);
              content =
                  ap (stream b.size (write_bytes b.size source array b.end).0 b.start)
                    (sym (no_wrap ok))
                  ∙ ((loop ok).2 ∙ ap (λ xs. xs ++ source) content);
            },
          ),
      rw (array_at, ok) refl,
    )
  ]
    where
      no_wrap :
          ltb b.size (u32 (b.bytes_available + length source)) ≡ false
          → b.bytes_available + length source ≡ u32 (b.bytes_available + length source)
      no_wrap ok = omega arith

      loop :
          ltb b.size (u32 (b.bytes_available + length source)) ≡ false
          → (length (write_bytes b.size source array b.end).0 ≡ b.size)
            × ((write_bytes b.size source array b.end).1
                ≡ (b.start + (b.bytes_available + length source)) % b.size)
            × (stream b.size
                  (write_bytes b.size source array b.end).0
                  b.start
                  (b.bytes_available + length source)
                ≡ stream b.size array b.start b.bytes_available ++ source)
      loop ok =
          write_bytes_lem b.size source array b.start b.bytes_available b.end room start_in
            (ground arith) end_at

  -- tcp_buffer_read takes the first `len` bytes off the stream, or all if it holds fewer.
  pub read_lem :
      (len : ℕ)
      → Streams (tcp_buffer_read b true len).0 array (drop len held)
        × ((tcp_buffer_read b true len).1 ≡ some (take len held))
  unfolding tcp_buffer_read left_of
  read_lem len = elim (Bool-cases (read_len b len == 0)) [
    | inl none_left ↦
        rw (array_at, none_left)
          (
            record {
              array_at = array_at;
              room = room;
              small = small;
              start_in = start_in;
              fits = fits;
              end_at = end_at;
              content = content ∙ (nothing len ((==_iff _ 0).0 none_left)).1;
            },
            ap some (sym (nothing len ((==_iff _ 0).0 none_left)).0),
          )
    | inr some_left ↦
        rw (array_at, some_left)
          (
            record {
              array_at = array_at;
              room = room;
              small = small;
              start_in = rw moved.1 (omega arith);
              fits = omega arith;
              end_at = rw moved.1 (end_at ∙ rw mod-add-mod (ap (λ k. k % b.size) same_end));
              content = rw moved.1 (sym (cut len).1);
            },
            ap some (moved.0 ∙ sym (cut len).0),
          )
  ]
    where
      same_end :
          b.start + b.bytes_available
          ≡ b.start + read_len b len + (b.bytes_available - read_len b len)
      same_end = ground arith

      moved :
          ((read_bytes b.size (read_len b len) array b.start).0
            ≡ stream b.size array b.start (read_len b len))
          × ((read_bytes b.size (read_len b len) array b.start).1
              ≡ (b.start + read_len b len) % b.size)
      moved = read_bytes_lem b.size (read_len b len) array b.start start_in

  -- tcp_buffer_peek gives the bytes that tcp_buffer_read would take.
  peek_lem : (len : ℕ) → tcp_buffer_peek b true len ≡ some (take len held)
  unfolding tcp_buffer_peek
  peek_lem len = elim (Bool-cases (read_len b len == 0)) [
    | inl none_left ↦
        rw (array_at, none_left) (ap some (sym (nothing len ((==_iff _ 0).0 none_left)).0))
    | inr some_left ↦
        rw (array_at, some_left)
          (ap some
            ((read_bytes_lem b.size (read_len b len) array b.start start_in).0 ∙ sym (cut len).0))
  ]

-- A new buffer holds nothing.
init-Streams :
    (b : TcpBuffer) (memory : List ℕ)
    → 0 < length memory
    → length memory ≤ 2 ^ 31
    → Streams (tcp_buffer_init b (length memory) (some memory)).0 memory []
unfolding tcp_buffer_init items
init-Streams b memory some_room few = record {
  array_at = refl;
  room = refl;
  small = few;
  start_in = some_room;
  fits = omega arith;
  end_at = omega arith;
  content = refl;
}

-- What is written into a new buffer, if it fits, is what the next read of its length gives.
round_trip :
    (b : TcpBuffer) (memory source : List ℕ)
    → 0 < length memory
    → length memory ≤ 2 ^ 31
    → length source ≤ length memory
    → length source < 2 ^ 31
    → (tcp_buffer_read
        (tcp_buffer_write (tcp_buffer_init b (length memory) (some memory)).0 (some source)).0
        true
        (length source)).1
      ≡ some source
unfolding tcp_buffer_init
round_trip b memory source some_room few fits small =
    elim (write_lem (init-Streams b memory some_room few) source small) [
      | inl (room, (array, st), written) ↦
          (read_lem st (length source)).1 ∙ ap some (take-all (length source) source (omega arith))
      | inr (full, same) ↦ absurd (omega arith)
    ]
