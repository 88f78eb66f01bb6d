-- ===== src/Tcp/Checksum.antt =====
-- tcp_checksum of network/src/tcp.c, on a little-endian machine.
use uint_os.Common.{
  ℕ, zero, suc, ◌+◌, ◌-◌, ◌*◌, ◌/◌, ◌%◌, ◌^◌, ◌<◌, ◌≡◌, List, [], ◌∷◌, ltb, if◌then◌else◌, length,
  arith,
}

abbrev pub tcp_header_size : ℕ
tcp_header_size = 20

abbrev pub ip_proto_tcp : ℕ
ip_proto_tcp = 6

-- htons and ntohs
abbrev pub swap16 : ℕ → ℕ
swap16 n = n / 256 % 256 + n % 256 * 256

-- The 16-bit words of a byte array, with a byte left over at its end.
unfoldable pub sum_words : List ℕ → ℕ
sum_words [] = 0
sum_words (x ∷ []) = x
sum_words (x ∷ y ∷ rest) = x + y * 256 + sum_words rest

-- The five words of the pseudo-header, and tcp_length.
abbrev pub sum_pseudo : ℕ → ℕ → ℕ → ℕ
sum_pseudo src_addr dest_addr data_len =
    src_addr % 2 ^ 16
    + src_addr / 2 ^ 16
    + dest_addr % 2 ^ 16
    + dest_addr / 2 ^ 16
    + ip_proto_tcp * 256
    + swap16 (tcp_header_size + data_len)

-- The loop that folds the sum: the rounds left.
unfoldable pub fold_sum : ℕ → ℕ → ℕ
fold_sum zero sum = sum
fold_sum (suc n) sum =
    let rest = fold_sum n (sum % 2 ^ 16 + sum / 2 ^ 16) in
    if ltb 0 (sum / 2 ^ 16) then rest else sum

-- Three rounds are enough for 32 bits.
unfoldable pub tcp_checksum : List ℕ → List ℕ → ℕ → ℕ → ℕ
unfolding fold_sum sum_words
tcp_checksum header data_bytes src_addr dest_addr =
    2 ^ 16
    - 1
    - fold_sum 3 (
        (sum_pseudo src_addr dest_addr (length data_bytes)
          + sum_words header
          + sum_words data_bytes)
        % 2 ^ 32)

-- Three rounds of the loop bring any 32-bit sum below 2^16, where the loop stops, and keep its
-- remainder by 2^16 - 1; only 0 gives 0.
pub fold_sum_lem :
    (sum : ℕ)
    → sum < 2 ^ 32
    → (fold_sum 3 sum < 2 ^ 16)
      × (fold_sum 3 sum % (2 ^ 16 - 1) ≡ sum % (2 ^ 16 - 1))
      × (fold_sum 3 sum ≡ 0 → sum ≡ 0)
unfolding fold_sum
fold_sum_lem sum h = ground arith
