-- ===== src/Unreliable/Tests.antt =====
-- Arrivals at a receiver that logs, across the wrap of the sequence numbers.
use dubuframework.Base.{ℕ, ◌+◌, ◌-◌, ◌^◌, ◌≡◌, refl, List, [], ◌∷◌, ◌++◌, map, arith, u32}
use dubuframework.Packet.{Packet}
use dubuframework.Host.{Host, IsLog}
use dubuframework.Sequence.{IsStream}
use dubuframework.Unreliable.{Unreliable, receive}
use dubuframework.Unreliable.Newest.{newest, Rises, receive_all, receive_all-newest}

abbrev logging : Host (List Packet)
logging = record { packet_parse = λ p s. s ++ p ∷ []; clock = λ s. (0, s) }

logging-IsLog : IsLog logging (λ s. s)
logging-IsLog = record { seen-parse = λ p s. refl; seen-clock = λ s. refl }

abbrev message : ℕ → Packet
message n = record {
  header = record {
    total_size = 24;
    packet_code = 1;
    flags = 0;
    session_id = 7;
    sequence_no = u32 n;
    timestamp = 0;
    checksum = 0;
    chunk_info = record { size = 0; flag = 0 };
  };
  body = [];
  size = 24;
}

message-IsStream : IsStream message
message-IsStream = record { numbered = λ n. refl }

abbrev last : ℕ
last = 2 ^ 32 - 1

abbrev start : Unreliable (List Packet)
start = record {
  rps = record { recv_repeat_seq = last; last_repeat_seq = 0; cache_repeat_count = 0 };
  host = [];
}

abbrev arrivals : List ℕ
arrivals = (last + 2) ∷ (last + 1) ∷ (last + 2) ∷ (last + 5) ∷ []

receive_all_runs :
    (receive_all logging (map message arrivals) start).host ≡ message 1 ∷ message 4 ∷ []
unfolding receive_all receive
receive_all_runs = refl

receive_all-newest_example :
    ((receive_all logging (map message arrivals) start).host
      ≡ [] ++ map message (newest last arrivals))
    × Rises last (newest last arrivals)
receive_all-newest_example =
    receive_all-newest logging message message-IsStream (λ s. s) logging-IsLog last arrivals start
      refl (omega arith)
