-- ===== src/Client/Receive/Tests.antt =====
-- A client whose buffer 1 carries what the server sent.
use dubuframework.Base.{
  ℕ, ◌+◌, ◌*◌, ◌/◌, ◌%◌, ◌≡◌, ◌≢◌, refl, true, false, Option, none, some, List, [], ◌∷◌, ◌++◌,
  arith, ltb, ◌==◌, if◌then◌else◌, u32, update,
}
use dubuframework.Packet.{Packet}
use dubuframework.Host.{Host, IsLog}
use dubuframework.Pending.{SendState}
use dubuframework.Sequence.{IsStream}
use dubuframework.Window.{in_window}
use dubuframework.Channel.{receive}
use dubuframework.Channel.Next.{Outcome}
use dubuframework.Session.{Session}
use dubuframework.Session.Parse.{PacketHandler, packet_parse, run_handler, find_handler}
use dubuframework.Session.Reset.Fresh.{IsReset}
use dubuframework.Socket.{Net, no_flags, push}
use dubuframework.Client.{Client}
use dubuframework.Client.Receive.{
  Inside, world_of, reset_inside, client_on_recv_from, client_parse, internal_parse,
}
use dubuframework.Client.Receive.Answer.{receiving, received, answered, on_recv_from-answers}
use dubuframework.Client.Receive.Close.{said, on_recv_from-IsReset}

abbrev with_flags : ℕ → ℕ → Packet
with_flags flags n = record {
  header = record {
    total_size = 25;
    packet_code = 1;
    flags = flags;
    session_id = 7;
    sequence_no = u32 n;
    timestamp = 0;
    checksum = 0;
    chunk_info = record { size = 0; flag = 0 };
  };
  body = n ∷ [];
  size = 25;
}

-- REPEAT and CHANNEL, of channel 0
abbrev message : ℕ → Packet
message n = with_flags 0b00000101 n

message-IsStream : IsStream message
message-IsStream = record { numbered = λ n. refl }

abbrev logging : Host (List Packet)
logging = record { packet_parse = λ p s. s ++ p ∷ []; clock = λ s. (9, s) }

logging-IsLog : IsLog logging (λ s. s)
logging-IsLog = record { seen-parse = λ p s. refl; seen-clock = λ s. refl }

abbrev smooth : ℕ → ℕ → ℕ
smooth old new = (old * 4 + new) / 5

abbrev sum_crc : ℕ → ℕ → ℕ
sum_crc crc a = (crc * 31 + a) % 4294967296

-- In the windows of channels: nothing, or packet 1 in buffer 2
abbrev window : Option ℕ → SendState
window b = record {
  send_repeat_seq = 1;
  pending_packets = λ i. record {
    buffer = if i == 1 then b else none;
    time_stamp = 5;
    sequence_no = 1;
    is_sent = false;
  };
  local_window_start = 1;
  local_seqence = 2;
}

abbrev session : Session
session = record {
  is_connect = true;
  timestamp = 0;
  rtt_millisec = 100;
  last_pong_seq = 0;
  pong_count = 0;
  r_nops_no = record { recv_repeat_seq = 4; last_repeat_seq = 4; cache_repeat_count = 0 };
  rps_no = record {
    recv = record { recv_repeat_seq = 0; last_repeat_seq = 0; cache_repeat_count = 0 };
    send = window none;
  };
  cache_already_packets = λ _. record {
    rps = record { recv_repeat_seq = 0; last_repeat_seq = 0; cache_repeat_count = 0 };
    cache_packets = λ _. record { buffer = none; time_stamp = 0; sequence_no = 0; is_keep = false };
  };
  cache_sends = λ id. window (if id == 1 then some 2 else none);
  chunck_pakcet_inj = λ _. none;
}

-- Buffer 1 carries the packet `p`.
abbrev net : Packet → Net (Inside (List Packet))
net p = record {
  packets = record {
    list = 0 ∷ [];
    use_list = λ a. if a == 1 then true else a == 2;
    next = 3;
    buffers = λ a. record { obj_type = no_flags; packet = p };
  };
  requests = [];
  host = record { members = session; caches = record { list = 0; use_list = 0 }; host = [] };
}

abbrev client : Client
client = record {
  client_id = 7;
  is_connect = true;
  timestamp = 0;
  last_pong_seq = 8;
  conn_no = 1;
  addr = record { ip = 5; port = 80 };
}

abbrev goodbye : Packet
goodbye = with_flags 0b11111111 3

on_recv_from-IsReset_example :
    let (c', n') = client_on_recv_from logging smooth 7 sum_crc sum_crc 1 (client, net goodbye) in
    let out = said logging smooth 7 sum_crc sum_crc (client, net goodbye) in
    let left = reset_inside 7 out in
    (c'.is_connect ≡ false)
    × (n' ≡ push 1 left)
    × IsReset 7 out.host.members (world_of out) left.host.members (world_of left)
on_recv_from-IsReset_example =
    on_recv_from-IsReset logging smooth 7 sum_crc sum_crc 1 client (net goodbye) refl

no_disconnect : (message 2).header.flags ≢ 0b11111111
no_disconnect e = omega (arith, e)

-- Message 2 is ahead of its turn.
on_recv_from-answers_example :
    let (r, ok) = receive logging (message 2) (receiving logging 0 client (net (message 2))) in
    let (c', n') =
      answered logging smooth 7 sum_crc sum_crc
        (in_window 0 2)
        (message 2)
        (received logging 0 client (net (message 2)) r) in
    (client_on_recv_from logging smooth 7 sum_crc sum_crc 1 (client, net (message 2))
      ≡ (c', push 1 n'))
    × Outcome message
        (λ s. s)
        (if in_window 0 2
          then update (λ n. if ltb 0 n then false else true) 2 true
          else (λ n. if ltb 0 n then false else true))
        0
        (receiving logging 0 client (net (message 2)))
        r
on_recv_from-answers_example =
    on_recv_from-answers logging smooth 7 sum_crc sum_crc message message-IsStream (λ s. s)
      logging-IsLog (λ n. if ltb 0 n then false else true) {k = 0} {w = 0} 0 1 2 client
      (net (message 2)) refl refl no_disconnect refl refl (omega arith)
      (record {
        recv_at = refl;
        last_at = refl;
        within = omega arith;
        slots = λ d lt le. ground arith;
        done = λ n le. ground arith;
        beyond = λ n le. ground arith;
      })
      (omega arith)

-- A packet of the code 0 is nothing to Client; InternalClient gives it to the handler of that code.
abbrev handlers : Option (ℕ → Option (PacketHandler ℕ))
handlers = some (λ code. some (record {
  verifier = λ bytes. true;
  handler = λ p s. s + 1;
  handler2 = λ p bytes type s. s + 2;
}))

abbrev code_0 : Packet
code_0 = record (message 2) { header = record (message 2).header { packet_code = 0 } }

client_parse_runs : client_parse handlers code_0 5 ≡ 5
unfolding packet_parse
client_parse_runs = refl

internal_parse_runs : internal_parse handlers code_0 5 ≡ 6
unfolding internal_parse run_handler find_handler
internal_parse_runs = refl
