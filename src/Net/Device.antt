-- ===== src/Net/Device.antt =====
-- The table of devices of network/src/network.c.
pub mod Names
use uint_os.Common.{
  ℕ, zero, suc, ◌+◌, ◌≤◌, Bool, true, false, not, ◌&&◌, ◌||◌, Option, none, some, List, [], ◌∷◌,
  ◌++◌, ◌==◌, leb, if◌then◌else◌, length,
}
use uint_os.Common.Int.{ℤ, pos}
use uint_os.Net.Buffer.{net_err_invalid}
use uint_os.Net.Ip.Address.{IpAddr, same_addr}

pub record NetStats : Type 0 where
  pub tx_packets : ℕ
  pub tx_bytes : ℕ
  pub tx_errors : ℕ

-- net_device_t, as far as these functions read it. `transmit` is the driver's, on the bytes of a
-- frame.
pub record NetDevice : Type 0 where
  pub name : List ℕ
  pub flags : ℕ
  pub mac : List ℕ
  pub ip : IpAddr
  pub netmask : IpAddr
  pub transmit : Option (List ℕ → ℤ)
  pub stats : NetStats

-- net_state, and the devices that its pointers reach, by number.
pub record NetState : Type 0 where
  pub devices : List ℕ
  pub default_device : Option ℕ
  pub initialized : Bool
  pub device_at : ℕ → NetDevice

-- strcmp(a, b) == 0
abbrev pub same_text : List ℕ → List ℕ → Bool
same_text [] [] = true
same_text [] (y ∷ ys) = false
same_text (x ∷ xs) [] = false
same_text (x ∷ xs) (y ∷ ys) = (x == y) && same_text xs ys

unfoldable pub network_init : NetState → NetState
network_init s = record s { devices = []; default_device = none; initialized = true }

-- The first of some devices that passes a test.
abbrev pub find_device : (ℕ → Bool) → List ℕ → Option ℕ
find_device test [] = none
find_device test (d ∷ rest) = let later = find_device test rest in if test d then some d else later

unfoldable pub network_find_device_by_name : NetState → Option (List ℕ) → Option ℕ
network_find_device_by_name s none = none
network_find_device_by_name s (some name) =
    if not s.initialized
    then none
    else find_device (λ d. same_text (s.device_at d).name name) s.devices

unfoldable pub network_find_device_by_ip : NetState → Option IpAddr → Option ℕ
unfolding same_addr
network_find_device_by_ip s none = none
network_find_device_by_ip s (some ip) =
    if not s.initialized then none else find_device (λ d. same_addr (s.device_at d).ip ip) s.devices

-- The loop of network_register_device that looks for the name.
abbrev pub is_taken : (ℕ → NetDevice) → List ℕ → List ℕ → Bool
is_taken device_at name [] = false
is_taken device_at name (d ∷ rest) =
    same_text (device_at d).name name || is_taken device_at name rest

abbrev net_max_devices : ℕ
net_max_devices = 8

-- The first device becomes the default one.
unfoldable pub network_register_device : NetState → Option ℕ → NetState × ℤ
network_register_device s none = (s, net_err_invalid)
network_register_device s (some dev) =
    if not s.initialized
    then (s, net_err_invalid)
    else if leb net_max_devices (length s.devices)
    then (s, net_err_invalid)
    else if is_taken s.device_at (s.device_at dev).name s.devices
    then (s, net_err_invalid)
    else (
      record s {
        devices = s.devices ++ (dev ∷ []);
        default_device = if length s.devices == 0 then some dev else s.default_device;
      },
      pos 0,
    )

unfoldable pub network_get_default_device : NetState → Option ℕ
network_get_default_device s = if not s.initialized then none else s.default_device

abbrev pub is_listed : ℕ → List ℕ → Bool
is_listed dev [] = false
is_listed dev (d ∷ rest) = (d == dev) || is_listed dev rest

unfoldable pub network_set_default_device : NetState → ℕ → NetState
network_set_default_device s dev =
    if not s.initialized
    then s
    else if is_listed dev s.devices
    then record s { default_device = some dev }
    else s
