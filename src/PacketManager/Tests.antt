-- ===== src/PacketManager/Tests.antt =====
-- A manager with one free buffer and one in use.
use dubuframework.Base.{◌≡◌, refl, false, [], ◌∷◌, arith, ◌==◌}
use dubuframework.Packet.{Packet}
use dubuframework.PacketManager.{PacketManager, pop_packet_buffer}
use dubuframework.PacketManager.Invariant.{IsPool}

abbrev blank : Packet
blank = record {
  header = record {
    total_size = 0;
    packet_code = 0;
    flags = 0;
    session_id = 0;
    sequence_no = 0;
    timestamp = 0;
    checksum = 0;
    chunk_info = record { size = 0; flag = 0 };
  };
  body = [];
  size = 0;
}

abbrev manager : PacketManager
manager = record {
  list = 0 ∷ [];
  use_list = λ a. a == 1;
  next = 2;
  buffers = λ a. record {
    obj_type = record { recvefrom = false; sendto = false; sending = false; reliable = false };
    packet = blank;
  };
}

manager-IsPool : IsPool manager
manager-IsPool = record { once = λ a. ground arith }

pop_runs : (pop_packet_buffer (pop_packet_buffer manager).0).1 ≡ 2
unfolding pop_packet_buffer
pop_runs = refl
