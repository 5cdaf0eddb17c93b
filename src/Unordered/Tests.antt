-- ===== src/Unordered/Tests.antt =====
-- Arrivals at a concrete receiver that logs message numbers.
use dubuframework.Base.{
  ℕ, ◌+◌, ◌≡◌, refl, true, false, List, [], ◌∷◌, ◌++◌, map, arith, ltb, if◌then◌else◌, u32,
  bit-zero,
}
use dubuframework.Packet.{Packet}
use dubuframework.Host.{Host}
use dubuframework.Sequence.{IsStream}
use dubuframework.Window.{in_window, advance}
use dubuframework.Unordered.{
  Unordered, pass_received, deliver, receive_next, receive_ahead, receive,
}
use dubuframework.Unordered.Spec.{Spec, spec_step, spec_run}
use dubuframework.Unordered.Paths.{Refines, handle}
use dubuframework.Unordered.Exact.{receive-Exact}
use dubuframework.Unordered.Once.{receive_all, receive_all-once}

abbrev logging : Host (List ℕ)
logging = record {
  packet_parse = λ p log. log ++ p.header.sequence_no ∷ [];
  clock = λ log. (0, log);
}

-- The chunks are marked.
abbrev chunks : Packet → List ℕ → List ℕ
chunks p log = log ++ (p.header.sequence_no + 1000) ∷ []

-- Message 3 carries a chunk.
abbrev message : ℕ → Packet
message n = record {
  header = record {
    total_size = 24;
    packet_code = 1;
    flags = if ltb n 3 then 1 else 3;
    session_id = 7;
    sequence_no = u32 n;
    timestamp = 0;
    checksum = 0;
    chunk_info = record { size = 0; flag = 1 };
  };
  body = [];
  size = 24;
}

message-IsStream : IsStream message
message-IsStream = record { numbered = λ n. refl }

abbrev start : Unordered (List ℕ)
start = record {
  rps = record { recv_repeat_seq = 0; last_repeat_seq = 0; cache_repeat_count = 0 };
  host = [];
}

abbrev spec : Spec (List ℕ)
spec = record { upto = 0; got = λ n. if ltb 0 n then false else true; host = [] }

start-Refines : Refines logging chunks message message-IsStream spec start
start-Refines = record {
  mask = record {
    recv_at = refl;
    digits = λ j. rw (bit-zero j) (ground arith);
    done = λ n le. ground arith;
    beyond = λ n le. ground arith;
  };
  gap = refl;
  same_host = refl;
}

receive_all_once_runs :
    (receive_all logging chunks (map message (2 ∷ 1 ∷ 2 ∷ 3 ∷ 1 ∷ [])) start).host
    ≡ 2 ∷ 1 ∷ 1003 ∷ []
unfolding receive_all receive receive_next receive_ahead deliver pass_received
receive_all_once_runs = refl

receive_all-once_example :
    Refines logging chunks message message-IsStream
      (spec_run (handle logging chunks message message-IsStream) (2 ∷ 1 ∷ 2 ∷ []) spec)
      (receive_all logging chunks (map message (2 ∷ 1 ∷ 2 ∷ [])) start)
unfolding spec_step advance
receive_all-once_example =
    receive_all-once logging chunks message message-IsStream (2 ∷ 1 ∷ 2 ∷ []) spec start
      (omega arith) start-Refines

-- Message 2 is the first to arrive.
receive-Exact_example :
    ((receive logging chunks (message 2) start).1 ≡ in_window 0 2)
    × Refines logging chunks message message-IsStream
        (spec_step (handle logging chunks message message-IsStream) 2 spec)
        (receive logging chunks (message 2) start).0
receive-Exact_example =
    receive-Exact logging chunks message message-IsStream spec start start-Refines 2 (omega arith)
