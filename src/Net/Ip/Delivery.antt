-- ===== src/Net/Ip/Delivery.antt =====
-- Packets from ip_tx to ip_rx of network/src/ip.c.
use uint_os.Common.{
  ℕ, ◌+◌, ◌^◌, ◌<◌, ◌≡◌, refl, ap, ◌∙◌, Bool, true, false, ◌||◌, some, List, ◌++◌, if◌then◌else◌,
  length, append_assoc, arith, Option-cases, inl, inr,
}
use uint_os.Net.Buffer.{NetBuffer, content, fill}
use uint_os.Net.Ip.Address.{
  Ip, IpAddr, find_handler, ip_is_broadcast, ip_is_local_address, ip_is_on_local_subnet,
  ip_is_zero_address,
}
use uint_os.Net.Ip.Packet.{
  NetBuf, Header, refused, header_bytes, header_of, handed, ip_rx, Sent, transmit, ip_tx,
}
use uint_os.Net.Ip.Wire.{IsSound, Works, rx_lem}

sent_lem :
    (local none_given : Bool) (filled buffer : NetBuffer) (dest gateway hop : IpAddr)
    → (if local
        then transmit filled dest
        else if none_given
        then Sent.no_route filled
        else transmit filled gateway)
      ≡ transmit buffer hop
    → buffer ≡ filled
sent_lem true none_given filled buffer dest gateway hop e = cc e
sent_lem false true filled buffer dest gateway hop e = cc e
sent_lem false false filled buffer dest gateway hop e = cc e

length_20 : (h : Header) → length (header_bytes h) ≡ 20
unfolding header_bytes
length_20 h = refl

module _ {ℓ} {H : Type ℓ} (net : NetBuf) (works : Works net) (here : Ip H) where
  -- What ip_tx hands to Ethernet.
  tx_content :
      (buffer sent : NetBuffer) (dest hop : IpAddr) (protocol : ℕ)
      → IsSound buffer
      → ip_tx net here buffer dest protocol ≡ transmit sent hop
      → content sent
        ≡ header_bytes (header_of here (buffer.len + 20) dest protocol) ++ content buffer
  unfolding ip_tx
  tx_content buffer sent dest hop protocol sound e =
      elim (Option-cases (net.netbuf_push buffer 20)) [
        | inl full ↦ absurd (refused_ne (rw (ip_tx, full) at e))
        | inr (b, pushed) ↦
            let (len, filled) = works.push_lem buffer b 20 sound pushed in
            let h = header_of here b.len dest protocol in
            ap content (
              sent_lem (ip_is_on_local_subnet here dest) (ip_is_zero_address here.default_gateway)
                (fill b (header_bytes h)) sent dest here.default_gateway hop
                (rw (ip_tx, pushed) at e))
            ∙ (filled (header_bytes h) (length_20 h)
                ∙ ap (λ n. header_bytes (header_of here n dest protocol) ++ content buffer) len)
      ]
    where
      refused_ne : refused ≡ transmit sent hop → ⊥
      refused_ne r = cc r

  -- A packet that ip_tx has given to Ethernet, of less than 2^16 bytes, reaches the handler of its
  -- protocol on a host that has its destination or takes it for a broadcast: ip_rx there hands over
  -- the very payload and both addresses, whatever padding stands behind the packet.
  pub rx-tx :
      (there : Ip H) (buffer sent received : NetBuffer) (dest hop : IpAddr) (protocol : ℕ)
      (padding : List ℕ) (handler : H)
      → IsSound buffer
      → ip_tx net here buffer dest protocol ≡ transmit sent hop
      → buffer.len + 20 < 2 ^ 16
      → IsSound received
      → content received ≡ content sent ++ padding
      → (ip_is_local_address there dest || ip_is_broadcast there dest) ≡ true
      → find_handler there.handlers protocol ≡ some handler
      → (rest : NetBuffer) × ((ip_rx net there (some received)
            ≡ handed handler rest here.local_ip dest)
          × (content rest ≡ content buffer))
  rx-tx there buffer sent received dest hop protocol padding handler sound e small sound' is ours
        found =
      rx_lem net works there received (header_of here (buffer.len + 20) dest protocol)
        (content buffer) padding handler (record { length_fits = small; flags_fit = omega arith })
        sound'
        (is
          ∙ (ap (λ t. t ++ padding) (tx_content buffer sent dest hop protocol sound e)
              ∙ append_assoc (header_bytes (header_of here (buffer.len + 20) dest protocol))
                  (content buffer) padding))
        (omega (arith, sound.len_at)) refl ours found
