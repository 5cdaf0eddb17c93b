-- ===== src/Worker/Tests.antt =====
-- A worker whose host logs the packets parsed and the acknowledgements sent.
use dubuframework.Base.{
  ℕ, ◌≡◌, refl, true, false, none, some, List, [], ◌∷◌, ◌++◌, arith, ltb, if◌then◌else◌, u32,
  bit-zero,
}
use dubuframework.Packet.{Packet, PacketOpctions}
use dubuframework.Host.{Host}
use dubuframework.Sequence.{IsStream}
use dubuframework.Window.{in_window}
use dubuframework.Pending.{SendState}
use dubuframework.Chunk.{Chunks, recv_chunck_packet}
use dubuframework.Unordered.Spec.{Spec, spec_step}
use dubuframework.Unordered.Paths.{Refines, handle}
use dubuframework.Session.{Session, World, chunks_host, dispatch_unordered}
use dubuframework.Worker.{process_known}
use dubuframework.Worker.Acks.{loose, entered, replied, process_known-acks}

record Log : Type 0 where
  parsed : List ℕ
  acks : List ℕ

abbrev logging : Host Log
logging = record {
  packet_parse = λ p s. record s { parsed = s.parsed ++ p.header.sequence_no ∷ [] };
  clock = λ s. (9, s);
}

abbrev send : ℕ → PacketOpctions → Log → Log
send n opt s = record s { acks = s.acks ++ n ∷ [] }

abbrev smooth : ℕ → ℕ → ℕ
smooth old new = old

abbrev message : ℕ → Packet
message n = record {
  header = record {
    total_size = 24;
    packet_code = 1;
    flags = 1;
    session_id = 7;
    sequence_no = u32 n;
    timestamp = 0;
    checksum = 0;
    chunk_info = record { size = 0; flag = 0 };
  };
  body = [];
  size = 24;
}

message-IsStream : IsStream message
message-IsStream = record { numbered = λ n. refl }

abbrev no_window : SendState
no_window = record {
  send_repeat_seq = 0;
  pending_packets = λ _. record { buffer = none; time_stamp = 0; sequence_no = 0; is_sent = false };
  local_window_start = 0;
  local_seqence = 0;
}

abbrev session : Session
session = record {
  is_connect = true;
  timestamp = 0;
  rtt_millisec = 100;
  last_pong_seq = 0;
  pong_count = 0;
  r_nops_no = record { recv_repeat_seq = 0; last_repeat_seq = 0; cache_repeat_count = 0 };
  rps_no = record {
    recv = record { recv_repeat_seq = 0; last_repeat_seq = 0; cache_repeat_count = 0 };
    send = no_window;
  };
  cache_already_packets = λ _. record {
    rps = record { recv_repeat_seq = 0; last_repeat_seq = 0; cache_repeat_count = 0 };
    cache_packets = λ _. record { buffer = none; time_stamp = 0; sequence_no = 0; is_keep = false };
  };
  cache_sends = λ _. no_window;
  chunck_pakcet_inj = λ _. none;
}

abbrev world : World Log
world = record {
  packets = record {
    list = [];
    use_list = λ _. false;
    next = 0;
    buffers = λ _. record {
      obj_type = record { recvefrom = false; sendto = false; sending = false; reliable = false };
      packet = message 0;
    };
  };
  caches = record { list = 0; use_list = 0 };
  host = record { parsed = []; acks = [] };
}

abbrev spec : Spec (Chunks Log)
spec = record {
  upto = 0;
  got = λ n. if ltb 0 n then false else true;
  host = (loose (entered logging session world).0 (entered logging session world).1).host;
}

start-Refines :
    Refines
      (chunks_host logging)
      (recv_chunck_packet logging)
      message
      message-IsStream
      spec
      (loose (entered logging session world).0 (entered logging session world).1)
start-Refines = record {
  mask = record {
    recv_at = refl;
    digits = λ j. rw (bit-zero j) (ground arith);
    done = λ n le. ground arith;
    beyond = λ n le. ground arith;
  };
  gap = refl;
  same_host = refl;
}

process_known-acks_example :
    let (s', w', ok) =
      dispatch_unordered logging
        (message 2)
        (entered logging session world).0
        (entered logging session world).1 in
    (process_known logging send smooth 3 20 (message 2) session world
      ≡ some (s', replied send (in_window 0 2) (message 2) w'))
    × Refines
        (chunks_host logging)
        (recv_chunck_packet logging)
        message
        message-IsStream
        (spec_step
          (handle (chunks_host logging) (recv_chunck_packet logging) message message-IsStream)
          2
          spec)
        (loose s' w')
process_known-acks_example =
    process_known-acks logging send smooth 3 20 message message-IsStream spec 2 session world refl
      refl start-Refines (omega arith)
