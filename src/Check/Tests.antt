-- ===== src/Check/Tests.antt =====
-- A worker with one job, and a server with one session that is silent.
use dubuframework.Base.{
  ℕ, ◌+◌, ◌*◌, ◌%◌, ◌≤◌, ◌≡◌, refl, true, false, none, some, List, [], ◌∷◌, arith, ◌==◌, ltb,
  if◌then◌else◌, take, length,
}
use dubuframework.Packet.{Packet}
use dubuframework.PacketState.{window_count}
use dubuframework.Socket.{Net, no_flags}
use dubuframework.Socket.Leave.{AreHeld}
use dubuframework.Server.{Connection, Server}
use dubuframework.Server.Paired.{sessions_of}
use dubuframework.Check.{SessionJob, check_all}
use dubuframework.Check.Expired.{expired, check_all-bounded}
use dubuframework.Check.Queue.{IsQueue, opbs}

abbrev packet : Packet
packet = record {
  header = record {
    total_size = 24;
    packet_code = 1;
    flags = 1;
    session_id = 7;
    sequence_no = 3;
    timestamp = 10;
    checksum = 0;
    chunk_info = record { size = 0; flag = 0 };
  };
  body = [];
  size = 24;
}

-- Buffers 0 and 1 are in use.
abbrev net : Net ℕ
net = record {
  packets = record {
    list = [];
    use_list = λ a. ltb a 2;
    next = 2;
    buffers = λ a. record { obj_type = no_flags; packet = packet };
  };
  requests = [];
  host = 0;
}

abbrev job : ℕ → SessionJob
job a = record { key = 7; opb = some a }

abbrev queue : List SessionJob
queue = job 0 ∷ []

queue-IsQueue : IsQueue queue net
queue-IsQueue = record {
  fits = omega arith;
  pool = record { once = λ a. ground arith };
  held = λ b. ground arith;
}

job-AreHeld : AreHeld (opbs (job 1 ∷ queue)) net.packets
job-AreHeld b = ground arith

abbrev silent : Connection
silent = record {
  session_id = 7;
  addr = record { ip = 5; port = 80 };
  is_connect = true;
  timestamp = 10;
  last_ping_sent_time = 0;
  last_pong_seq = 0;
  ping_count = 0;
  aways_connect = false;
  ready_disconnect = false;
}

abbrev server : Server ℕ
server = record {
  sessions = record {
    session_map = λ id. if id == 7 then some silent else none;
    session_count = 1;
    drawn = 1;
  };
  peer_map = λ k. none;
  net = net;
}

abbrev sum_crc : ℕ → ℕ → ℕ
sum_crc crc a = (crc * 31 + a) % 4294967296

check_all-bounded_example :
    let removes =
      (check_all sum_crc sum_crc 50000 30000 3000 2 1 (λ id w. w) (7 ∷ []) ([], server)).0 in
    (removes ≡ take window_count (expired 50000 30000 2 1 (sessions_of server) (7 ∷ [])))
    × (length removes ≤ window_count)
check_all-bounded_example =
    check_all-bounded sum_crc sum_crc 50000 30000 3000 2 1 (λ id w. w) (λ id w. refl) (7 ∷ [])
      server
