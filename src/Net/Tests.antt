-- ===== src/Net/Tests.antt =====
-- The theorems on network/src at small buffers, devices and packets.
use uint_os.Common.{
  ℕ, ◌≡◌, ◌≢◌, ◌⊎◌, ◌↔◌, ◌<◌, ◌^◌, refl, true, false, if◌then◌else◌, ◌==◌, none, some, List, [],
  ◌∷◌, ◌++◌, length, arith, replicate,
}
use uint_os.Common.Int.{pos, negsuc}
use uint_os.Net.Buffer.{NetBuffer, content, fill, fresh, net_buffer_push}
use uint_os.Net.Buffer.Spec.{Packet, Represents, Step, push, pull, append}
use uint_os.Net.Buffer.Refine.{run, packet_run, run_buffer_refines, alloc-Represents}
use uint_os.Net.Device.{NetState, NetDevice, network_register_device}
use uint_os.Net.Device.Names.{Registers, register_device_lem}
use uint_os.Net.Ip.Address.{Ip, addr, find_handler, ip_register_protocol, ip_is_local_address}
use uint_os.Net.Ip.Packet.{Header, handed, ip_rx, ip_tx, transmit, header_bytes, header_of}
use uint_os.Net.Ip.Wire.{IsSound, first_fragment_handed}
use uint_os.Net.Ip.Delivery.{rx-tx}
use uint_os.Net.Ip.Functions.{functions, functions-Works}
use uint_os.Net.Ip.Registry.{IsTable, register_lem}
use uint_os.Net.Udp.{Below, UdpSocket, Udp, udp_max_sockets, takes, find_udp, udp_rx, datagram}
use uint_os.Net.Udp.Datagram.{datagram_delivered}
use uint_os.Net.Udp.Sockets.Found.{SocketCall, create, close, bind, calls_made, find_socket_iff}
use uint_os.Tcp.Socket.{Segment}
use uint_os.Tcp.Segment.{segment_bytes}

-- Six bytes, two of them for headers.
abbrev block : List ℕ
block = 0 ∷ 0 ∷ 0 ∷ 0 ∷ 0 ∷ 0 ∷ []

abbrev steps : List Step
steps = append (1 ∷ 2 ∷ 3 ∷ []) ∷ push (9 ∷ 8 ∷ []) ∷ push (7 ∷ []) ∷ pull 3 ∷ []

abbrev empty_packet : Packet
empty_packet = record { headroom = 2; held = []; tailroom = 4 }

run_buffer_refines_example :
    Represents (run (fresh block 2) steps).0 (packet_run empty_packet steps).0
    × ((run (fresh block 2) steps).1 ≡ (packet_run empty_packet steps).1)
run_buffer_refines_example =
    run_buffer_refines steps (fresh block 2) empty_packet
      (alloc-Represents block 2 (λ e. omega arith) (omega arith)).1
      (omega arith, (tt, (tt, (tt, tt))))

-- Two hosts of one subnet, the second with handler 77 for TCP.
abbrev here : Ip ℕ
here = record {
  local_ip = addr 10 0 0 1;
  subnet_mask = addr 255 255 255 0;
  default_gateway = addr 10 0 0 254;
  handlers = [];
}

abbrev there : Ip ℕ
there = record here { local_ip = addr 10 0 0 2; handlers = (6, 77) ∷ [] }

abbrev greeting : Segment
greeting = record {
  src_addr = 16777226;
  dest_addr = 33554442;
  src_port = 5000;
  dest_port = 80;
  seq_num = 7;
  ack_num = 8;
  flags = 24;
  window = 4096;
  data_bytes = 104 ∷ 105 ∷ 33 ∷ [];
}

-- A buffer with room for the header of IP.
abbrev outgoing : NetBuffer
outgoing = record {
  memory = replicate 20 0 ++ segment_bytes greeting;
  data_at = 20;
  len = 23;
  offset = 20;
  flags = 1;
  protocol = 0;
  device = none;
}

outgoing-IsSound : IsSound outgoing
unfolding segment_bytes
outgoing-IsSound = record { start_at = refl; inside = omega arith; len_at = refl }

abbrev sent : NetBuffer
sent =
    fill (record outgoing { data_at = 0; len = 43; offset = 0 })
      (header_bytes (header_of here 43 (addr 10 0 0 2) 6))

-- The packet as it arrives, with three bytes of padding.
abbrev received : NetBuffer
received = record outgoing {
  memory = content sent ++ (0 ∷ 0 ∷ 0 ∷ []);
  data_at = 0;
  len = 46;
  offset = 0;
}

received-IsSound : IsSound received
unfolding segment_bytes header_bytes
received-IsSound = record { start_at = refl; inside = omega arith; len_at = refl }

sent_transmitted : ip_tx functions here outgoing (addr 10 0 0 2) 6 ≡ transmit sent (addr 10 0 0 2)
unfolding ip_tx net_buffer_push
sent_transmitted = refl

padding_behind : content received ≡ content sent ++ (0 ∷ 0 ∷ 0 ∷ [])
unfolding segment_bytes header_bytes
padding_behind = refl

rx-tx_example :
    (rest : NetBuffer) × ((ip_rx functions there (some received)
        ≡ handed 77 rest (addr 10 0 0 1) (addr 10 0 0 2))
      × (content rest ≡ content outgoing))
unfolding ip_is_local_address find_handler
rx-tx_example =
    rx-tx functions functions-Works here there outgoing sent received (addr 10 0 0 2)
      (addr 10 0 0 2) 6 (0 ∷ 0 ∷ 0 ∷ []) 77 outgoing-IsSound sent_transmitted (omega arith)
      received-IsSound padding_behind refl refl

abbrev fragment : Header
fragment = record (header_of here 23 (addr 10 0 0 2) 6) { flags_and_offset = 2 ^ 13 }

abbrev first_part : NetBuffer
first_part = record outgoing {
  memory = header_bytes fragment ++ (1 ∷ 2 ∷ 3 ∷ []);
  data_at = 0;
  len = 23;
  offset = 0;
}

first_part-IsSound : IsSound first_part
unfolding header_bytes
first_part-IsSound = record { start_at = refl; inside = omega arith; len_at = refl }

first_fragment_handed_example :
    (rest : NetBuffer) × ((ip_rx functions there (some first_part)
        ≡ handed 77 rest (addr 10 0 0 1) (addr 10 0 0 2))
      × (content rest ≡ 1 ∷ 2 ∷ 3 ∷ []))
unfolding ip_is_local_address find_handler header_bytes
first_fragment_handed_example =
    first_fragment_handed functions functions-Works there first_part fragment (1 ∷ 2 ∷ 3 ∷ []) [] 77
      refl first_part-IsSound refl refl (omega arith) refl refl

register_lem_example :
    IsTable (ip_register_protocol there 17 (some 88)).0.handlers
    × (((find_handler (ip_register_protocol there 17 (some 88)).0.handlers 17 ≡ some 88)
          × (((q : ℕ)
                → 17 ≢ q
                → find_handler (ip_register_protocol there 17 (some 88)).0.handlers q
                  ≡ find_handler there.handlers q)
              × ((ip_register_protocol there 17 (some 88)).1 ≡ pos 0)))
        ⊎ ((ip_register_protocol there 17 (some 88) ≡ (there, negsuc 0))
            × ((length there.handlers ≡ 8) ⊎ (find_handler there.handlers 17 ≢ none))))
register_lem_example =
    register_lem there 17 88 (record { distinct = (refl, tt); fits = omega arith })

-- The device eth0, and no device registered yet.
abbrev nic : NetDevice
nic = record {
  name = 101 ∷ 116 ∷ 104 ∷ 48 ∷ [];
  flags = 1;
  mac = 2 ∷ 0 ∷ 0 ∷ 0 ∷ 0 ∷ 1 ∷ [];
  ip = addr 10 0 0 1;
  netmask = addr 255 255 255 0;
  transmit = none;
  stats = record { tx_packets = 0; tx_bytes = 0; tx_errors = 0 };
}

abbrev network : NetState
network = record { devices = []; default_device = none; initialized = true; device_at = λ d. nic }

register_device_lem_example : Registers network 3 (network_register_device network (some 3))
register_device_lem_example = register_device_lem network 3 (record {
  ready = refl;
  distinct = tt;
  fits = omega arith;
  has_default = λ some_device. absurd (some_device refl);
})

-- Socket 2 listens at port 53 on all addresses; the others are closed.
abbrev closed_udp : UdpSocket
closed_udp = record {
  is_open = false;
  local_port = 0;
  remote_port = 0;
  local_addr = 0;
  remote_addr = 0;
  options = 0;
  receive_callback = false;
}

abbrev names_udp : UdpSocket
names_udp = record closed_udp { is_open = true; local_port = 53; receive_callback = true }

abbrev listening : Udp
listening = record {
  sockets = λ i. if i == 2 then names_udp else closed_udp;
  last_dynamic_port = 49152;
  calls = [];
}

abbrev below : Below
below = record {
  ip_addr_is_any = λ a. a == 0;
  has_packet = true;
  default_addr = some 16777226;
  ip_tx = λ _ _ _. pos 0;
}

datagram_delivered_example :
    udp_rx below listening
      (some (datagram 5000 53 (104 ∷ 105 ∷ 33 ∷ []) 16777226 33554442 ++ (0 ∷ 0 ∷ [])))
      16777226
      33554442
    ≡ (
      record listening {
        calls =
            record {
              socket = 2;
              src_addr = 16777226;
              src_port = 5000;
              payload = 104 ∷ 105 ∷ 33 ∷ [];
            }
            ∷ [];
      },
      pos 0,
    )
unfolding find_udp
datagram_delivered_example =
    datagram_delivered below listening 5000 53 (104 ∷ 105 ∷ 33 ∷ []) (0 ∷ 0 ∷ []) 16777226 33554442
      2 (omega arith) (omega arith) (omega arith) refl refl

abbrev unused : Udp
unused = record { sockets = λ _. closed_udp; last_dynamic_port = 49152; calls = [] }

-- Socket 1 moves from port 53 of one address to port 80 of another, and socket 0 is closed.
abbrev socket_calls : List SocketCall
socket_calls =
    create (some 16777226) 53
    ∷ create (some 33554442) 53
    ∷ create none 53
    ∷ bind (some 1) (some 50331658) 80
    ∷ close (some 0)
    ∷ []

find_socket_iff_example :
    (find_udp udp_max_sockets 0 below (calls_made below unused socket_calls).sockets 80 50331658
      ≡ some 1)
    ↔ ((1 < udp_max_sockets)
        × (takes below ((calls_made below unused socket_calls).sockets 1) 80 50331658 ≡ true))
find_socket_iff_example = find_socket_iff below unused socket_calls 80 50331658 1 (λ j. refl) refl
