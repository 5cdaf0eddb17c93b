-- ===== src/Server/Tests.antt =====
-- A server with one session, whose client has moved.
use dubuframework.Base.{
  ℕ, ◌+◌, ◌*◌, ◌%◌, ◌≡◌, refl, sym, true, false, none, some, [], arith, ◌==◌, if◌then◌else◌,
  Bool-cases, inl, inr, ==_iff,
}
use mathlib.Core.Option.{some-injective}
use dubuframework.Packet.{Packet}
use dubuframework.SessionManager.{get_session}
use dubuframework.Socket.{Addr, no_flags}
use dubuframework.Server.{Connection, Peer, Server, peer_key}
use dubuframework.Host.{Host}
use dubuframework.PacketState.{RecvState}
use dubuframework.Pending.{SendState}
use dubuframework.Session.{Session}
use dubuframework.Server.Whole.{Inside, process_whole, process_whole-Paired}
use dubuframework.Server.Tables.{Paired}

abbrev home : Addr
home = record { ip = 5; port = 80 }

abbrev away : Addr
away = record { ip = 6; port = 81 }

abbrev session : Connection
session = record {
  session_id = 7;
  addr = home;
  is_connect = true;
  timestamp = 10;
  last_ping_sent_time = 0;
  last_pong_seq = 0;
  ping_count = 0;
  aways_connect = false;
  ready_disconnect = false;
}

abbrev peer : Peer
peer = record { key = peer_key home; addr = home; session = 7 }

abbrev packet : Packet
packet = record {
  header = record {
    total_size = 24;
    packet_code = 1;
    flags = 1;
    session_id = 7;
    sequence_no = 3;
    timestamp = 10;
    checksum = 0;
    chunk_info = record { size = 0; flag = 0 };
  };
  body = [];
  size = 24;
}

abbrev server : Server ℕ
server = record {
  sessions = record {
    session_map = λ id. if id == 7 then some session else none;
    session_count = 1;
    drawn = 1;
  };
  peer_map = λ k. if k == peer_key home then some peer else none;
  net = record {
    packets = record {
      list = [];
      use_list = λ a. false;
      next = 0;
      buffers = λ a. record { obj_type = no_flags; packet = packet };
    };
    requests = [];
    host = 0;
  };
}

-- What is found in a table with one entry
only :
    {A : Type 0} (i j : ℕ) (x y : A)
    → (if j == i then some x else none) ≡ some y
    → (j ≡ i) × (x ≡ y)
only i j x y h = elim (Bool-cases (j == i)) [
  | inl on ↦ let t : some x ≡ some y = rw on at h in ((==_iff j i).0 on, some-injective _ _ t)
  | inr off ↦ let t : none ≡ some y = rw off at h in cc t
]

here : (k : ℕ) → (k == k) ≡ true
here k = (==_iff k k).1 refl

server-Paired : Paired server
server-Paired = record {
  named = λ id c h. let (e, is) = only 7 id session c h in rw (sym is) (sym e);
  peer = λ id c h.
      let (e, is) = only 7 id session c h in (peer, rw (sym is, here (peer_key home)) refl, sym e);
  keyed = λ k p h. let (e, is) = only (peer_key home) k peer p h in rw (sym is) (sym e, sym e);
  session =
      λ k p h. let (e, is) = only (peer_key home) k peer p h in (session, rw (sym is) refl, sym e);
}

abbrev draws : ℕ → ℕ
draws i = i + 8

abbrev sum_crc : ℕ → ℕ → ℕ
sum_crc crc a = (crc * 31 + a) % 4294967296

-- Packet 3, reliable and of no channel, arrives for session 7, whose members are as at the start.
abbrev idle : SendState
idle = record {
  send_repeat_seq = 0;
  pending_packets = λ i. record { buffer = none; time_stamp = 0; sequence_no = 0; is_sent = false };
  local_window_start = 0;
  local_seqence = 0;
}

abbrev unreceived : RecvState
unreceived = record { recv_repeat_seq = 0; last_repeat_seq = 0; cache_repeat_count = 0 }

abbrev members : Session
members = record {
  is_connect = true;
  timestamp = 0;
  rtt_millisec = 100;
  last_pong_seq = 0;
  pong_count = 0;
  r_nops_no = unreceived;
  rps_no = record { recv = unreceived; send = idle };
  cache_already_packets = λ id. record {
    rps = unreceived;
    cache_packets = λ i. record { buffer = none; time_stamp = 0; sequence_no = 0; is_keep = false };
  };
  cache_sends = λ id. idle;
  chunck_pakcet_inj = λ seq. none;
}

abbrev whole : Server (Inside ℕ)
whole = record {
  sessions = server.sessions;
  peer_map = server.peer_map;
  net = record {
    packets = server.net.packets;
    requests = [];
    host = record { members = λ id. members; caches = record { list = 0; use_list = 0 }; host = 0 };
  };
}

abbrev counting : Host ℕ
counting = record { packet_parse = λ p n. n + 1; clock = λ n. (20, n) }

process_whole-Paired_example : Paired (
    process_whole sum_crc sum_crc 20 counting
      (λ old new. new)
      7
      (λ c n. n)
      draws
      3
      session
      packet
      away
      whole)
unfolding get_session
process_whole-Paired_example =
    process_whole-Paired sum_crc sum_crc 20 counting (λ old new. new) 7 whole (λ c n. n) draws 3 0
      session packet away server-Paired (omega arith) refl
