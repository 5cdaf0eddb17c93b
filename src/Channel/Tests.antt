-- ===== src/Channel/Tests.antt =====
-- Arrivals at concrete channels, with a host that logs what it parses.
use dubuframework.Base.{
  ℕ, ◌+◌, ◌-◌, ◌^◌, ◌≡◌, refl, true, false, none, List, [], ◌∷◌, ◌++◌, map, arith, ltb,
  if◌then◌else◌, u32,
}
use dubuframework.Sequence.{IsStream}
use dubuframework.Packet.{Packet}
use dubuframework.CachePool.{pop_packet_buffer, push_packet_buffer}
use dubuframework.Host.{Host, IsLog}
use dubuframework.Channel.{Receiving, run_kept, run_ahead, receive_next, keep_ahead, receive}
use dubuframework.Channel.Spec.{Spec, spec_step, spec_run}
use dubuframework.Channel.Ahead.{messages}
use dubuframework.Channel.Order.{receive_all, Refines, receive_all-Refines}
use dubuframework.Channel.Enough.{run_ahead_enough}

-- A log and a clock.
record Logged : Type 0 where
  log : List Packet
  ticks : ℕ

abbrev logging : Host Logged
logging = record {
  packet_parse = λ p s. record s { log = s.log ++ p ∷ [] };
  clock = λ s. (s.ticks, record s { ticks = s.ticks + 1 });
}

logging-IsLog : IsLog logging (λ s. s.log)
logging-IsLog = record { seen-parse = λ p s. refl; seen-clock = λ s. refl }

abbrev message : ℕ → Packet
message n = record {
  header = record {
    total_size = 25;
    packet_code = 1;
    flags = 5;
    session_id = 7;
    sequence_no = u32 n;
    timestamp = 0;
    checksum = 0;
    chunk_info = record { size = 0; flag = 0 };
  };
  body = n ∷ [];
  size = 25;
}

message-IsStream : IsStream message
message-IsStream = record { numbered = λ n. refl }

-- A channel that has delivered all messages up to `k` and keeps none.
abbrev empty_at : ℕ → Receiving Logged
empty_at k = record {
  cap = record {
    rps = record { recv_repeat_seq = u32 k; last_repeat_seq = u32 k; cache_repeat_count = 0 };
    cache_packets = λ _. record { buffer = none; time_stamp = 0; sequence_no = 0; is_keep = false };
  };
  caches = record { list = 0; use_list = 0 };
  host = record { log = []; ticks = 0 };
}

abbrev upto : ℕ → Spec
upto k = record { upto = k; got = λ n. if ltb k n then false else true }

empty-Refines :
    (k : ℕ)
    → Refines logging message message-IsStream (λ s. s.log) logging-IsLog (upto k) (empty_at k)
empty-Refines k = record {
  w = 0;
  window = record {
    recv_at = refl;
    last_at = omega arith;
    within = omega arith;
    slots = λ d lt le. ground arith;
    done = λ n le. ground arith;
    beyond = λ n le. ground arith;
  };
}

-- Message 2 overtakes message 1, and both are sent again.
receive_all_example :
    (m : ℕ) × ((spec_run (2 ∷ 1 ∷ 2 ∷ 1 ∷ 4 ∷ []) (upto 0)).upto ≡ 0 + m)
    × Refines logging message message-IsStream
        (λ s. s.log)
        logging-IsLog
        (spec_run (2 ∷ 1 ∷ 2 ∷ 1 ∷ 4 ∷ []) (upto 0))
        (receive_all logging (map message (2 ∷ 1 ∷ 2 ∷ 1 ∷ 4 ∷ [])) (empty_at 0))
    × ((receive_all logging (map message (2 ∷ 1 ∷ 2 ∷ 1 ∷ 4 ∷ [])) (empty_at 0)).host.log
        ≡ [] ++ messages message 0 m)
unfolding spec_step
receive_all_example =
    receive_all-Refines logging message message-IsStream (λ s. s.log) logging-IsLog
      (2 ∷ 1 ∷ 2 ∷ 1 ∷ 4 ∷ []) (upto 0) (empty_at 0) (omega arith) (empty-Refines 0)

-- The same by evaluation, where the sequence numbers wrap to 0.
wrapping_delivery :
    (receive_all logging
      (map message ((2 ^ 32) ∷ (2 ^ 32 - 1) ∷ (2 ^ 32 + 1) ∷ []))
      (empty_at (2 ^ 32 - 2))).host.log
    ≡ message (2 ^ 32 - 1) ∷ message (2 ^ 32) ∷ message (2 ^ 32 + 1) ∷ []
unfolding receive_all receive receive_next keep_ahead run_ahead run_kept pop_packet_buffer
    push_packet_buffer
wrapping_delivery = refl

run_ahead_enough_example :
    run_ahead logging 1 (u32 3) (empty_at 3) ≡ run_ahead logging 64 (u32 3) (empty_at 3)
run_ahead_enough_example =
    run_ahead_enough logging message (λ n. if ltb 3 n then false else true) 1 64 {k = 3} {w = 0}
      (empty_at 3)
      (record {
        recv_at = refl;
        last_at = refl;
        within = omega arith;
        slots = λ d lt le. ground arith;
        done = λ n le. ground arith;
        beyond = λ n le. ground arith;
      })
      (omega arith) (omega arith)
