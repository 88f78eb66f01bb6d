-- ===== src/Tcp/Buffer.antt =====
-- The tcp_buffer_... functions of network/src/tcp.c on a socket that is not NULL. A byte array
-- that is passed with its length is a list; NULL is `none`. `malloc` is the argument `memory`:
-- NULL, or the bytes that the new array holds. The -1 of a refused call is `none`.
use uint_os.Common.{
  ℕ, zero, suc, ◌+◌, ◌-◌, ◌%◌, ◌^◌, Bool, Option, none, some, List, [], ◌∷◌, ◌==◌, ltb, length,
  get_or, set, if◌then◌else◌,
}

abbrev pub u32 : ℕ → ℕ
u32 n = n % 2 ^ 32

-- `tcp_buffer_t`
pub record TcpBuffer : Type 0 where
  pub bytes : Option (List ℕ)
  pub size : ℕ
  pub start : ℕ
  pub end : ℕ
  pub bytes_available : ℕ

unfoldable pub tcp_buffer_init : TcpBuffer → ℕ → Option (List ℕ) → TcpBuffer × Option ℕ
tcp_buffer_init b size none = (record b { bytes = none }, none)
tcp_buffer_init b size (some memory) =
    (record { bytes = some memory; size = size; start = 0; end = 0; bytes_available = 0 }, some 0)

-- The copying loop of tcp_buffer_write: the array and `end` after it.
unfoldable pub write_bytes : ℕ → List ℕ → List ℕ → ℕ → List ℕ × ℕ
write_bytes size [] array end = (array, end)
write_bytes size (x ∷ xs) array end = write_bytes size xs (set array end x) ((end + 1) % size)

unfoldable pub write_array : TcpBuffer → List ℕ → List ℕ → TcpBuffer × Option ℕ
unfolding write_bytes
write_array b array source =
    if ltb b.size (u32 (b.bytes_available + length source))
    then (b, none)
    else (let (array', end') = write_bytes b.size source array b.end in
        (
          record b {
            bytes = some array';
            end = end';
            bytes_available = u32 (b.bytes_available + length source);
          },
          some (length source),
        ))

unfoldable pub tcp_buffer_write : TcpBuffer → Option (List ℕ) → TcpBuffer × Option ℕ
unfolding write_array
tcp_buffer_write b none = (b, none)
tcp_buffer_write b (some source) = elim b.bytes [
  | none ↦ (b, none)
  | some array ↦ write_array b array source
]

-- The copying loop of tcp_buffer_read and tcp_buffer_peek: the bytes, and the position after them.
unfoldable pub read_bytes : ℕ → ℕ → List ℕ → ℕ → List ℕ × ℕ
read_bytes size zero array pos = ([], pos)
read_bytes size (suc n) array pos =
    let (rest, pos') = read_bytes size n array ((pos + 1) % size) in
    (get_or array pos 0 ∷ rest, pos')

abbrev pub read_len : TcpBuffer → ℕ → ℕ
read_len b len = if ltb b.bytes_available len then b.bytes_available else len

unfoldable pub read_array : TcpBuffer → List ℕ → ℕ → TcpBuffer × Option (List ℕ)
unfolding read_bytes
read_array b array len =
    let n = read_len b len in
    if n == 0
    then (b, some [])
    else (let (out, start') = read_bytes b.size n array b.start in
        (record b { start = start'; bytes_available = b.bytes_available - n }, some out))

-- What is read is the list; its length is the number that the function returns. `room` says that
-- the caller's array is not NULL.
unfoldable pub tcp_buffer_read : TcpBuffer → Bool → ℕ → TcpBuffer × Option (List ℕ)
unfolding read_array
tcp_buffer_read b room len =
    if room
    then elim b.bytes [ none ↦ (b, none) | some array ↦ read_array b array len ]
    else (b, none)

unfoldable pub peek_array : TcpBuffer → List ℕ → ℕ → Option (List ℕ)
unfolding read_bytes
peek_array b array len =
    let n = read_len b len in if n == 0 then some [] else some (read_bytes b.size n array b.start).0

unfoldable pub tcp_buffer_peek : TcpBuffer → Bool → ℕ → Option (List ℕ)
unfolding peek_array
tcp_buffer_peek b room len =
    if room then elim b.bytes [ none ↦ none | some array ↦ peek_array b array len ] else none

unfoldable pub tcp_buffer_free : TcpBuffer → TcpBuffer
tcp_buffer_free b = elim b.bytes [
  | none ↦ b
  | some array ↦ record { bytes = none; size = 0; start = 0; end = 0; bytes_available = 0 }
]
