-- ===== src/Net/Ip/Address.antt =====
-- The addresses and the configuration of network/src/ip.c.
use uint_os.Common.{
  ℕ, ◌-◌, Bool, false, ◌&&◌, ◌||◌, Option, none, some, List, [], ◌∷◌, ◌++◌, ◌==◌, leb,
  if◌then◌else◌, length, bit_and, bit_or,
}
use uint_os.Common.Int.{ℤ, pos, negsuc}

-- ip_addr_t
pub record IpAddr : Type 0 where
  pub b0 : ℕ
  pub b1 : ℕ
  pub b2 : ℕ
  pub b3 : ℕ

abbrev pub addr : ℕ → ℕ → ℕ → ℕ → IpAddr
addr a b c d = record { b0 = a; b1 = b; b2 = c; b3 = d }

-- The statics: the addresses, and the entries of ip_protocol_handlers in use, each a protocol and
-- its handler.
pub record Ip {ℓ} (H : Type ℓ) : Type ℓ where
  pub local_ip : IpAddr
  pub subnet_mask : IpAddr
  pub default_gateway : IpAddr
  pub handlers : List (ℕ × H)

-- ip_addr_cmp(a, b) == 0
unfoldable pub same_addr : IpAddr → IpAddr → Bool
same_addr x y = (x.b0 == y.b0) && ((x.b1 == y.b1) && ((x.b2 == y.b2) && (x.b3 == y.b3)))

abbrev pub ip_is_zero_address : IpAddr → Bool
ip_is_zero_address a = (a.b0 == 0) && ((a.b1 == 0) && ((a.b2 == 0) && (a.b3 == 0)))

abbrev is_all_ones : IpAddr → Bool
is_all_ones a = (a.b0 == 255) && ((a.b1 == 255) && ((a.b2 == 255) && (a.b3 == 255)))

abbrev pub ip_is_multicast : IpAddr → Bool
ip_is_multicast a = leb 224 a.b0 && leb a.b0 239

module _ {ℓ} {H : Type ℓ} (s : Ip H) where
  -- local_ip | ~subnet_mask
  abbrev subnet_broadcast : IpAddr
  subnet_broadcast = record {
    b0 = bit_or s.local_ip.b0 (255 - s.subnet_mask.b0);
    b1 = bit_or s.local_ip.b1 (255 - s.subnet_mask.b1);
    b2 = bit_or s.local_ip.b2 (255 - s.subnet_mask.b2);
    b3 = bit_or s.local_ip.b3 (255 - s.subnet_mask.b3);
  }

  unfoldable pub ip_is_broadcast : IpAddr → Bool
  unfolding same_addr
  ip_is_broadcast a = is_all_ones a || same_addr a subnet_broadcast

  -- The local address, or 127.x.x.x.
  unfoldable pub ip_is_local_address : IpAddr → Bool
  unfolding same_addr
  ip_is_local_address a = same_addr a s.local_ip || (a.b0 == 127)

  -- A byte of the address under the mask is as the local one.
  abbrev same_masked : ℕ → ℕ → ℕ → Bool
  same_masked a mask own = bit_and a mask == bit_and own mask

  unfoldable pub ip_is_on_local_subnet : IpAddr → Bool
  ip_is_on_local_subnet a =
      ip_is_zero_address s.subnet_mask
      || (same_masked a.b0 s.subnet_mask.b0 s.local_ip.b0
          && (same_masked a.b1 s.subnet_mask.b1 s.local_ip.b1
              && (same_masked a.b2 s.subnet_mask.b2 s.local_ip.b2
                  && same_masked a.b3 s.subnet_mask.b3 s.local_ip.b3)))

-- An address that was given, or the old one where it is NULL.
abbrev given : Option IpAddr → IpAddr → IpAddr
given none old = old
given (some a) old = a

unfoldable pub ip_configure {ℓ} :
    {H : Type ℓ} → Ip H → Option IpAddr → Option IpAddr → Option IpAddr → Ip H
ip_configure s ip mask gateway = record s {
  local_ip = given ip s.local_ip;
  subnet_mask = given mask s.subnet_mask;
  default_gateway = given gateway s.default_gateway;
}

-- ip_init. The table of handlers is emptied.
abbrev pub ip_init {ℓ} : {H : Type ℓ} → Ip H
ip_init = record {
  local_ip = addr 0 0 0 0;
  subnet_mask = addr 0 0 0 0;
  default_gateway = addr 0 0 0 0;
  handlers = [];
}

module _ {ℓ} {H : Type ℓ} where
  -- The loop of ip_find_protocol_handler over the entries in use.
  unfoldable pub find_handler : List (ℕ × H) → ℕ → Option H
  find_handler [] protocol = none
  find_handler (entry ∷ rest) protocol =
      let later = find_handler rest protocol in if entry.0 == protocol then some entry.1 else later

  -- The loop of ip_register_protocol that looks for the protocol.
  abbrev pub is_registered : List (ℕ × H) → ℕ → Bool
  is_registered [] protocol = false
  is_registered (entry ∷ rest) protocol = (entry.0 == protocol) || is_registered rest protocol

  unfoldable pub ip_register_protocol : Ip H → ℕ → Option H → Ip H × ℤ
  ip_register_protocol s protocol none = (s, negsuc 0)
  ip_register_protocol s protocol (some handler) =
      if leb 8 (length s.handlers)
      then (s, negsuc 0)
      else if is_registered s.handlers protocol
      then (s, negsuc 0)
      else (record s { handlers = s.handlers ++ ((protocol, handler) ∷ []) }, pos 0)
