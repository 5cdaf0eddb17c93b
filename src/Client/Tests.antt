-- ===== src/Client/Tests.antt =====
-- A client with one free buffer and one that carries a datagram.
use dubuframework.Base.{ℕ, ◌+◌, ◌*◌, ◌%◌, ◌≡◌, refl, true, [], ◌∷◌, ◌==◌}
use dubuframework.Packet.{Packet}
use dubuframework.PacketManager.{PacketManager}
use dubuframework.Socket.{Net, no_flags}
use dubuframework.Client.{Client, connect, connect_message}
use dubuframework.Messages.{send_header}
use dubuframework.Socket.{send_to}
use dubuframework.Client.Connect.{connects}

abbrev ping : Packet
ping = record {
  header = record {
    total_size = 24;
    packet_code = 0;
    flags = 0b11000000;
    session_id = 7;
    sequence_no = 3;
    timestamp = 10;
    checksum = 0;
    chunk_info = record { size = 0; flag = 0 };
  };
  body = [];
  size = 24;
}

abbrev manager : PacketManager
manager = record {
  list = 0 ∷ [];
  use_list = λ a. a == 1;
  next = 2;
  buffers = λ a. record { obj_type = record no_flags { recvefrom = true }; packet = ping };
}

abbrev net : Net ℕ
net = record { packets = manager; requests = []; host = 5 }

-- A client that has answered ping 8
abbrev client : Client
client = record {
  client_id = 7;
  is_connect = true;
  timestamp = 0;
  last_pong_seq = 8;
  conn_no = 1;
  addr = record { ip = 5; port = 80 };
}

abbrev sum_crc : ℕ → ℕ → ℕ
sum_crc crc a = (crc * 31 + a) % 4294967296

abbrev tick : ℕ → ℕ × ℕ
tick n = (n, n + 1)

connects_run : (connects sum_crc sum_crc tick 20 (client, net)).0.conn_no ≡ 10
unfolding connect connect_message send_header send_to
connects_run = refl
