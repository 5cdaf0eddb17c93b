-- ===== src/Session/Tests.antt =====
-- A session with one packet on channel 1, and its acknowledgement.
use dubuframework.Base.{
  ℕ, ◌+◌, ◌*◌, ◌/◌, update, ◌≡◌, ◌≢◌, refl, ap, true, false, none, some, List, [], ◌∷◌, ◌++◌, arith,
  ◌==◌, if◌then◌else◌,
}
use dubuframework.Packet.{Packet}
use dubuframework.Host.{Host}
use dubuframework.PacketManager.{PacketManager}
use dubuframework.CachePool.{push_packet_buffer}
use dubuframework.Pending.{
  SendState, update_send_sequence_no, ack_process, advance_start, is_repeat,
}
use dubuframework.Session.{Session, World, recv_dispatch_ack}
use dubuframework.Session.Isolation.{Stream, Isolated}
use dubuframework.Session.Whole.{Talking, recv_dispatch_whole, recv_dispatch_whole-Isolated}
use dubuframework.Session.Reset.{reset, reset_slot, reset_slots, reset_channel, reset_channels}
use dubuframework.Session.Reset.Fresh.{IsReset, reset-IsReset}

abbrev logging : Host (List Packet)
logging = record { packet_parse = λ p s. s ++ p ∷ []; clock = λ s. (9, s) }

-- REPEAT, CHANNEL and channel 1
abbrev packet : Packet
packet = record {
  header = record {
    total_size = 24;
    packet_code = 1;
    flags = 0b00001101;
    session_id = 7;
    sequence_no = 1;
    timestamp = 0;
    checksum = 0;
    chunk_info = record { size = 0; flag = 0 };
  };
  body = [];
  size = 24;
}

abbrev no_window : SendState
no_window = record {
  send_repeat_seq = 0;
  pending_packets = λ _. record { buffer = none; time_stamp = 0; sequence_no = 0; is_sent = false };
  local_window_start = 0;
  local_seqence = 0;
}

-- Packet 1 waits, in buffer 0.
abbrev one_waits : SendState
one_waits = record {
  send_repeat_seq = 1;
  pending_packets = λ i. record {
    buffer = if i == 1 then some 0 else none;
    time_stamp = 5;
    sequence_no = 1;
    is_sent = false;
  };
  local_window_start = 1;
  local_seqence = 2;
}

abbrev session : Session
session = record {
  is_connect = true;
  timestamp = 0;
  rtt_millisec = 100;
  last_pong_seq = 0;
  pong_count = 0;
  r_nops_no = record { recv_repeat_seq = 0; last_repeat_seq = 0; cache_repeat_count = 0 };
  rps_no = record {
    recv = record { recv_repeat_seq = 0; last_repeat_seq = 0; cache_repeat_count = 0 };
    send = no_window;
  };
  cache_already_packets = λ _. record {
    rps = record { recv_repeat_seq = 0; last_repeat_seq = 0; cache_repeat_count = 0 };
    cache_packets = λ _. record { buffer = none; time_stamp = 0; sequence_no = 0; is_keep = false };
  };
  cache_sends = λ id. if id == 1 then one_waits else no_window;
  chunck_pakcet_inj = λ _. none;
}

abbrev world : World (List Packet)
world = record {
  packets = record {
    list = [];
    use_list = λ a. a == 0;
    next = 1;
    buffers = λ _. record {
      obj_type = record { recvefrom = false; sendto = false; sending = false; reliable = false };
      packet = packet;
    };
  };
  caches = record { list = 0; use_list = 0 };
  host = [];
}

abbrev channel_number : Stream → ℕ
channel_number (Stream.channel id) = id
channel_number Stream.unordered = 8
channel_number Stream.unreliable = 9

other_channel : Stream.channel 0 ≢ Stream.channel 1
other_channel e = omega (arith, ap channel_number e)

-- PacketParse sends a packet, under the next number of channel 3.
abbrev echoing : Host (Talking (List Packet))
echoing = record {
  packet_parse = λ p t. record t {
    cache_sends = update t.cache_sends 3 (update_send_sequence_no (t.cache_sends 3)).0;
    host = t.host ++ p ∷ [];
  };
  clock = λ t. (9, t);
}

recv_dispatch_whole-Isolated_example :
    Isolated (Stream.channel 0) session (recv_dispatch_whole echoing 3 packet session world).0
recv_dispatch_whole-Isolated_example =
    recv_dispatch_whole-Isolated echoing 3 packet (Stream.channel 0) session world other_channel

abbrev smooth : ℕ → ℕ → ℕ
smooth old new = (old * 4 + new) / 5

abbrev acked : SendState × ℕ × PacketManager
acked = ack_process smooth 20 1 one_waits 100 world.packets

abbrev after_ack : Session
after_ack = record session {
  cache_sends = update session.cache_sends 1 acked.0;
  rtt_millisec = acked.1;
}

ack_runs :
    recv_dispatch_ack smooth 3 20 packet session world
    ≡ some (after_ack, record world { packets = acked.2 }, true)
unfolding recv_dispatch_ack
ack_runs = refl

ack_ends_waiting : is_repeat (after_ack.cache_sends 1) ≡ false
unfolding is_repeat ack_process advance_start
ack_ends_waiting = refl

-- A session that keeps packet 3 of channel 2, ahead of its turn
abbrev keeping : Session
keeping = record session {
  cache_already_packets = update session.cache_already_packets 2 (record {
    rps = record { recv_repeat_seq = 1; last_repeat_seq = 3; cache_repeat_count = 2 };
    cache_packets = λ i. record {
      buffer = if i == 3 then some packet else none;
      time_stamp = 9;
      sequence_no = 3;
      is_keep = i == 3;
    };
  });
}

abbrev one_kept : World (List Packet)
one_kept = record world { caches = record { list = 0; use_list = 1 } }

reset_runs : (reset 3 500 30 keeping one_kept).1.caches ≡ record { list = 1; use_list = 0 }
unfolding reset reset_channels reset_channel reset_slots reset_slot push_packet_buffer
reset_runs = refl

reset-IsReset_example :
    let (s', w') = reset 3 500 30 keeping one_kept in IsReset 3 keeping one_kept s' w'
reset-IsReset_example = reset-IsReset 3 500 30 keeping one_kept
