-- ===== src/Socket/Tests.antt =====
-- Two buffers that the kernel holds.
use dubuframework.Base.{
  ℕ, ◌+◌, ◌≡◌, refl, true, false, Option, none, some, List, [], ◌∷◌, digit, arith, ◌&&◌, ltb,
}
use dubuframework.Packet.{Packet, packet_header_check}
use dubuframework.PacketManager.{PacketManager}
use dubuframework.PacketManager.Count.{count}
use dubuframework.PacketManager.Invariant.{IsPool}
use dubuframework.Wire.{header_bytes, crc32}
use dubuframework.Socket.{Addr, Net, SocketHandler, no_flags, drain, recv_from_complete}
use dubuframework.Socket.Leave.{completed, AreHeld, drain-IsPool}
use dubuframework.Socket.Receive.{Again, is_sound, recv_from_complete-refused}

abbrev packet : Packet
packet = record {
  header = record {
    total_size = 24;
    packet_code = 1;
    flags = 1;
    session_id = 7;
    sequence_no = 3;
    timestamp = 10;
    checksum = 99;
    chunk_info = record { size = 0; flag = 0 };
  };
  body = [];
  size = 1024;
}

-- Buffer 0 is free; buffers 1 and 2 are with the kernel.
abbrev manager : PacketManager
manager = record {
  list = 0 ∷ [];
  use_list = λ a. ltb a 3 && ltb 0 a;
  next = 3;
  buffers = λ a. record { obj_type = record no_flags { recvefrom = true }; packet = packet };
}

manager-IsPool : IsPool manager
manager-IsPool = record { once = λ a. ground arith }

abbrev net : Net ℕ
net = record { packets = manager; requests = []; host = 5 }

abbrev completions : List (Option ℕ)
completions = some 2 ∷ none ∷ some 1 ∷ []

completions-AreHeld : AreHeld completions manager
completions-AreHeld b = ground arith

drain-IsPool_example :
    let n' = drain completions net in
    IsPool n'.packets
    × ((b : ℕ)
        → digit (n'.packets.use_list b) + count b (completed completions)
          ≡ digit (net.packets.use_list b))
drain-IsPool_example = drain-IsPool completions net manager-IsPool completions-AreHeld

-- What stands for the intrinsics gives 0 for every word, so the checksum of the packet is wrong.
abbrev zero_crc : ℕ → ℕ → ℕ
zero_crc crc a = 0

abbrev sender : Addr
sender = record { ip = 1; port = 2 }

abbrev counting : Option (SocketHandler ℕ)
counting = some (record {
  on_recv_from = λ addr a size n. record n { host = n.host + 1 };
  on_send_to = λ addr a size n. n;
})

wrong : is_sound zero_crc zero_crc counting sender 1 net (some 24) ≡ false
unfolding packet_header_check crc32 header_bytes
wrong = refl

recv_from_complete-refused_example :
    Again 1 net (recv_from_complete zero_crc zero_crc counting sender 1 (some 24) net)
recv_from_complete-refused_example =
    recv_from_complete-refused zero_crc zero_crc counting sender 1 net (some 24) refl wrong
