-- ===== src/Net/Buffer.antt =====
-- The network buffers of network/src/network.c. Pointers into the block that a buffer was given are
-- distances from its start; a size_t has 32 bits.
pub mod Splice
pub mod Spec
pub mod Refine
use uint_os.Common.{
  ℕ, ◌+◌, ◌-◌, ◌%◌, ◌^◌, ◌≤◌, ◌≡◌, ◌≢◌, Bool, Option, none, some, List, ◌++◌, ◌==◌, ltb,
  if◌then◌else◌, length, take, drop, bit_and,
}
use uint_os.Common.Int.{ℤ, pos, negsuc}

abbrev pub net_err_invalid : ℤ
net_err_invalid = negsuc 0

abbrev pub net_err_nomem : ℤ
net_err_nomem = negsuc 1

abbrev pub net_buf_flag_alloc : ℕ
net_buf_flag_alloc = 0x01

-- net_buffer_t; `device` is the number of a device. `protocol_data` and `next` stay NULL.
pub record NetBuffer : Type 0 where
  pub memory : List ℕ
  pub data_at : ℕ
  pub len : ℕ
  pub offset : ℕ
  pub flags : ℕ
  pub protocol : ℕ
  pub device : Option ℕ

-- buffer->size
abbrev pub size : NetBuffer → ℕ
size b = length b.memory

-- The `len` bytes at `data`.
abbrev pub content : NetBuffer → List ℕ
content b = take b.len (drop b.data_at b.memory)

-- Bytes written over a block from i on.
abbrev pub splice : List ℕ → ℕ → List ℕ → List ℕ
splice memory i bytes = take i memory ++ (bytes ++ drop (i + length bytes) memory)

-- A buffer as net_buffer_alloc sets it up on a block.
abbrev pub fresh : List ℕ → ℕ → NetBuffer
fresh block reserve_header = record {
  memory = block;
  data_at = reserve_header;
  len = 0;
  offset = reserve_header;
  flags = net_buf_flag_alloc;
  protocol = 0;
  device = none;
}

-- Whether heap_alloc finds the structure, and the block of `size` bytes that it finds.
unfoldable pub net_buffer_alloc : Bool → Option (List ℕ) → ℕ → ℕ → Option NetBuffer
net_buffer_alloc found none size reserve_header = none
net_buffer_alloc found (some block) size reserve_header =
    if size == 0 then none else if found then some (fresh block reserve_header) else none

-- `none` stands for NULL, where the buffer stays as it is.
unfoldable pub net_buffer_push : NetBuffer → ℕ → Option NetBuffer
net_buffer_push b n =
    if ltb b.offset n
    then none
    else some (record b { data_at = b.data_at - n; offset = b.offset - n; len = b.len + n })

unfoldable pub net_buffer_pull : NetBuffer → ℕ → Option NetBuffer
net_buffer_pull b n =
    if ltb b.len n
    then none
    else some (record b { data_at = b.data_at + n; offset = b.offset + n; len = b.len - n })

abbrev restored : NetBuffer → ℕ
restored b = if bit_and b.flags net_buf_flag_alloc == 0 then b.data_at else b.data_at - b.offset

unfoldable pub net_buffer_reserve : NetBuffer → ℕ → NetBuffer × ℤ
net_buffer_reserve b n =
    if ltb 0 b.len
    then (b, net_err_invalid)
    else if ltb (size b) n
    then (b, net_err_nomem)
    else (record b { offset = n; data_at = restored b + n }, pos 0)

unfoldable pub net_buffer_append : NetBuffer → Option (List ℕ) → NetBuffer × ℤ
net_buffer_append b none = (b, net_err_invalid)
net_buffer_append b (some bytes) =
    if ltb (size b) ((b.offset + b.len + length bytes) % 2 ^ 32) then (b, net_err_nomem) else (
      record b { memory = splice b.memory (b.data_at + b.len) bytes; len = b.len + length bytes },
      pos 0,
    )

-- What a caller writes at `data`: a header over the bytes that it has pushed.
abbrev pub fill : NetBuffer → List ℕ → NetBuffer
fill b bytes = record b { memory = splice b.memory b.data_at bytes }
