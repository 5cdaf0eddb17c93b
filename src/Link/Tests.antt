-- ===== src/Link/Tests.antt =====
-- One packet that is sent, arrives and is acknowledged; and 64 packets that are sent at once.
use dubuframework.Base.{
  ℕ, zero, suc, ◌+◌, ◌*◌, ◌/◌, ◌≤◌, ◌<◌, ◌≡◌, refl, ap, true, false, none, some, List, [], ◌∷◌,
  ◌++◌, arith,
}
use dubuframework.Packet.{Packet}
use dubuframework.Host.{Host, IsLog}
use dubuframework.PacketManager.{PacketManager}
use dubuframework.Pending.{
  update_send_sequence_no, add_pending_packet, advance_start, ack_slot, ack_process, is_repeat,
}
use dubuframework.Channel.{receive, receive_next, run_ahead}
use dubuframework.Channel.Ahead.{messages}
use dubuframework.Link.{Link, Step, Reach, numbered, message, after_send, after_arrive, after_ack}
use dubuframework.Link.Agree.{is_some}
use dubuframework.Link.Deliver.{
  new_link, Reach-messages, Reach-refused, Reach-complete, Reach-answered,
}

abbrev logging : Host (List Packet)
logging = record { packet_parse = λ p s. s ++ p ∷ []; clock = λ s. (9, s) }

logging-IsLog : IsLog logging (λ s. s)
logging-IsLog = record { seen-parse = λ p s. refl; seen-clock = λ s. refl }

-- The `n`th packet has `n` bytes.
abbrev content : ℕ → Packet
content n = record {
  header = record {
    total_size = 24 + n;
    packet_code = 1;
    flags = 0b0101;
    session_id = 7;
    sequence_no = 0;
    timestamp = 0;
    checksum = 0;
    chunk_info = record { size = 0; flag = 0 };
  };
  body = [];
  size = 24 + n;
}

-- All buffers hold the next packet.
abbrev holding : Link (List Packet) → PacketManager
holding l = record {
  list = [];
  use_list = λ a. true;
  next = 1;
  buffers = λ a. record {
    obj_type = record { recvefrom = false; sendto = false; sending = false; reliable = true };
    packet = numbered (update_send_sequence_no l.sender).1 (content (l.count + 1));
  };
}

abbrev fresh : Link (List Packet)
fresh = new_link [] (record { list = 0; use_list = 0 })

abbrev sends : ℕ → Link (List Packet)
sends zero = fresh
sends (suc k) = after_send (holding (sends k)) 0 (sends k)

sends-Reach : (k : ℕ) → Reach logging content fresh (sends k)
sends-Reach zero = Reach.start
sends-Reach (suc k) = Reach.later (sends-Reach k) (Step.send (holding (sends k)) 0 refl)

sends-count : (k : ℕ) → (sends k).count ≡ k
sends-count zero = refl
sends-count (suc k) = omega (arith, sends-count k)

took_one : (sends 1).sent 1 ≡ some (message content 1)
unfolding add_pending_packet update_send_sequence_no
took_one = refl

refuses_last : (sends 64).sent 64 ≡ none
unfolding add_pending_packet update_send_sequence_no
refuses_last = refl

abbrev arrived : Link (List Packet)
arrived = after_arrive logging (message content 1) (sends 1)

arrived-Reach : Reach logging content fresh arrived
arrived-Reach = Reach.later (sends-Reach 1) (Step.arrive 1 (message content 1) took_one)

arrived_acks : arrived.acks 1 ≡ true
unfolding receive receive_next run_ahead
arrived_acks = refl

abbrev smooth : ℕ → ℕ → ℕ
smooth old new = (old * 4 + new) / 5

abbrev done : Link (List Packet)
done = after_ack smooth 20 1 100 (holding fresh) arrived

done-Reach : Reach logging content fresh done
done-Reach =
    Reach.later arrived-Reach (Step.acknowledge smooth 20 1 100 (holding fresh) arrived_acks)

done_idle : is_repeat done.sender ≡ false
unfolding is_repeat ack_process ack_slot advance_start add_pending_packet update_send_sequence_no
done_idle = refl

took_all : (n : ℕ) → 1 ≤ n → n ≤ 1 → is_some ((sends 1).sent n) ≡ true
took_all n low high = let e : n ≡ 1 = omega (arith, low, high) in rw e (ap is_some took_one)

Reach-messages_example :
    (upto : ℕ) × (upto ≤ arrived.count)
    × (arrived.receiver.host ≡ [] ++ messages (message content) 0 upto)
Reach-messages_example =
    Reach-messages logging content (λ s. s) logging-IsLog [] (record { list = 0; use_list = 0 })
      (omega arith) arrived-Reach

Reach-refused_example :
    (upto : ℕ) × (upto < 64) × ((sends 64).receiver.host ≡ [] ++ messages (message content) 0 upto)
Reach-refused_example =
    Reach-refused logging content (λ s. s) logging-IsLog [] (record { list = 0; use_list = 0 }) 64
      (omega (arith, sends-count 64)) (sends-Reach 64) (omega arith) refuses_last

Reach-complete_example : done.receiver.host ≡ [] ++ messages (message content) 0 1
Reach-complete_example =
    Reach-complete logging content (λ s. s) logging-IsLog [] (record { list = 0; use_list = 0 })
      (omega arith) done-Reach took_all done_idle

waits_at : ((sends 1).sender.pending_packets 1).buffer ≡ some 0
unfolding add_pending_packet update_send_sequence_no
waits_at = refl

waits_seq : ((sends 1).sender.pending_packets 1).sequence_no ≡ 1
unfolding add_pending_packet update_send_sequence_no
waits_seq = refl

waits_start : (sends 1).sender.local_window_start ≡ 0
unfolding add_pending_packet update_send_sequence_no
waits_start = refl

Reach-answered_example :
    let s' = (ack_process smooth 20 1 (sends 1).sender 100 (holding fresh)).0 in
    ((receive logging (message content 1) (sends 1).receiver).1 ≡ true)
    × ((s'.pending_packets 1).buffer ≡ none)
Reach-answered_example =
    Reach-answered logging content (λ s. s) logging-IsLog [] (record { list = 0; use_list = 0 }) 1 0
      smooth 20 100 (holding fresh) (omega arith) (sends-Reach 1) took_all (omega arith) waits_at
      waits_seq (omega (arith, waits_start))
