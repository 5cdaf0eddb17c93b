-- ===== src/Pending/Tests.antt =====
-- A window with the packets 0 and 1 of a concrete sender.
use dubuframework.Base.{
  ℕ, ◌+◌, ◌%◌, ◌≡◌, refl, true, false, Option, none, some, [], arith, ltb, ◌==◌, if◌then◌else◌,
  update, u32,
}
use native.Mathlib.Decide.{dec_lt}
use dubuframework.Packet.{Packet}
use dubuframework.PacketState.{window_count}
use dubuframework.PacketManager.{PacketManager, push_packet_buffer}
use dubuframework.Pending.{
  PendingPacket, SendState, add_pending_packet, ack_process, advance_start, release_buffer,
}
use dubuframework.Pending.Window.{Waits, Stops, advance_start-Stops}
use dubuframework.Pending.Send.{add_pending_packet-Waits}
use dubuframework.Pending.Ack.{Acknowledged, ack_process-Acknowledged}

abbrev packet : ℕ → Packet
packet n = record {
  header = record {
    total_size = 24;
    packet_code = 1;
    flags = 1;
    session_id = 7;
    sequence_no = u32 n;
    timestamp = 10;
    checksum = 0;
    chunk_info = record { size = 0; flag = 0 };
  };
  body = [];
  size = 24;
}

-- Buffer `n` carries packet `n`, and the kernel still sends packet 1.
abbrev manager : PacketManager
manager = record {
  list = [];
  use_list = λ a. ltb a 3;
  next = 3;
  buffers = λ a. record {
    obj_type = record { recvefrom = false; sendto = true; sending = a == 1; reliable = true };
    packet = packet a;
  };
}

abbrev empty : PendingPacket
empty = record { buffer = none; time_stamp = 0; sequence_no = 0; is_sent = false }

abbrev waiting : ℕ → PendingPacket
waiting a = record { buffer = some a; time_stamp = 10; sequence_no = a; is_sent = false }

abbrev two : SendState
two = record {
  send_repeat_seq = 1;
  pending_packets = λ i. if ltb i 2 then waiting i else empty;
  local_window_start = 0;
  local_seqence = 2;
}

abbrev live : ℕ → Option ℕ
live n = if ltb n 2 then some n else none

two-Waits : Waits live 0 2 two
two-Waits = record {
  start_at = refl;
  end_at = refl;
  within = omega arith;
  slots = λ d lt. elim (dec_lt d 2) [
    | yes p ↦
        let t : ltb ((0 + d) % window_count) 2 ≡ true = ground arith in
        let t' : ltb (0 + d) 2 ≡ true = ground arith in
        let e : (0 + d) % window_count ≡ d = omega arith in
        let z : 0 + d ≡ d = omega arith in rw (t, t', e, z) (refl, λ h. omega arith)
    | no p ↦
        let t : ltb ((0 + d) % window_count) 2 ≡ false = ground arith in
        let t' : ltb (0 + d) 2 ≡ false = ground arith in rw (t, t') (refl, λ h. cc h)
  ];
  past = λ n lt. ground (arith, lt);
  beyond = λ n le. ground (arith, le);
}

add_runs : (add_pending_packet manager 2 two).0.local_seqence ≡ 3
unfolding add_pending_packet
add_runs = refl

ack_runs : (ack_process (λ a b. a) 20 0 two 5 manager).0.local_window_start ≡ 1
unfolding ack_process advance_start release_buffer push_packet_buffer
ack_runs = refl

add_pending_packet-Waits_example :
    let (s', kept) = add_pending_packet manager 2 two in
    (kept ≡ true) × Waits (update live 2 (some 2)) 0 3 s'
unfolding add_pending_packet
add_pending_packet-Waits_example =
    add_pending_packet-Waits manager 2 two live 0 2 2 two-Waits refl (omega arith) (omega arith)
      (omega arith)

ack_process-Acknowledged_example :
    Acknowledged
      (λ a b. a)
      20
      1
      two
      5
      manager
      live
      0
      2
      (ack_process (λ a b. a) 20 1 two 5 manager)
      (some 1)
ack_process-Acknowledged_example =
    ack_process-Acknowledged (λ a b. a) 20 1 two 5 manager live 0 2 two-Waits (omega arith)
      (omega arith)

-- The loop stops at packet 0 at once.
advance_start-Stops_example :
    Stops live 0 2 2 two.pending_packets (advance_start window_count two.pending_packets 2 0)
advance_start-Stops_example =
    advance_start-Stops live window_count 0 2 2 0 two.pending_packets (omega arith) two-Waits
