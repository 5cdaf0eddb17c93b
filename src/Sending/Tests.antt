-- ===== src/Sending/Tests.antt =====
-- A sender with one packet that waits.
use dubuframework.Base.{
  ℕ, ◌+◌, ◌*◌, ◌%◌, ◌≡◌, ◌≢◌, refl, sym, ◌∙◌, ==_iff, true, false, Option, none, some, [], ◌∷◌,
  arith, ◌==◌, if◌then◌else◌, Bool-cases, inl, inr,
}
use dubuframework.Packet.{Packet, PacketHeader, PacketOpctions}
use dubuframework.PacketManager.{PacketManager, pop_packet_buffer}
use dubuframework.PacketManager.Invariant.{IsPool}
use dubuframework.Pending.{PendingPacket, SendState, update_send_sequence_no, add_pending_packet}
use dubuframework.Socket.{
  Addr, Request, Net, SocketHandler, no_flags, on_buffer, received, send_to_complete,
  send_to_reliable, tell_sent,
}
use dubuframework.Sending.{Sender, post, written, seal, send_small, repeat_message}
use dubuframework.Sending.Life.{Life, Step, Reach, IsLife, sent, acknowledged, completed}
use dubuframework.Sending.Numbers.{IsNumbered}
use dubuframework.Sending.Keeps.{Reach-IsLife}
use dubuframework.Client.Send.{client_small, internal_refused}
use dubuframework.Client.Send.Kept.{client_small-kept}
use dubuframework.Sending.Refuse.{window_of, numbered, IsFull, send_small-refused}
use dubuframework.Sending.Sealed.{seal-received}
use dubuframework.Sending.Resend.{due, requested, AreApart, repeat_message-due}

abbrev packet : ℕ → Packet
packet n = record {
  header = record {
    total_size = 24;
    packet_code = 1;
    flags = 1;
    session_id = 7;
    sequence_no = n;
    timestamp = 10;
    checksum = 0;
    chunk_info = record { size = 0; flag = 0 };
  };
  body = [];
  size = 24;
}

-- Every buffer is free.
abbrev fresh : PacketManager
fresh = record {
  list = 0 ∷ [];
  use_list = λ a. false;
  next = 1;
  buffers = λ a. record { obj_type = no_flags; packet = packet 0 };
}

fresh-IsPool : IsPool fresh
fresh-IsPool = record { once = λ a. ground arith }

abbrev empty : PendingPacket
empty = record { buffer = none; time_stamp = 0; sequence_no = 0; is_sent = false }

abbrev idle : SendState
idle = record {
  send_repeat_seq = 0;
  pending_packets = λ i. empty;
  local_window_start = 1;
  local_seqence = 1;
}

abbrev start : Life ℕ
start = record { packets = fresh; host = 0; window = idle; flying = λ a. false }

start-IsLife : IsLife start
start-IsLife = record {
  pool = fresh-IsPool;
  own = λ a. record {
    flies = λ h. cc h;
    rests = λ h. refl;
    waits = λ i h. cc h;
    apart = λ i j h h'. cc h;
    kept = λ h r. cc h;
  };
}

abbrev peer : Addr
peer = record { ip = 1; port = 2 }

abbrev silent : Option (SocketHandler ℕ)
silent = some (record { on_recv_from = λ addr a size n. n; on_send_to = λ addr a size n. n })

silent_quiet : (addr : Addr) (a size : ℕ) (n : Net ℕ) → tell_sent silent addr a size n ≡ n
unfolding tell_sent
silent_quiet addr a size n = refl

abbrev smooth : ℕ → ℕ → ℕ
smooth old new = new

-- A packet is sent, acknowledged while the kernel has it, and completed.
abbrev one_sent : Life ℕ
one_sent = sent peer (packet 1) start

abbrev one_acked : Life ℕ
one_acked = acknowledged smooth 20 1 0 one_sent

abbrev one_back : Life ℕ
one_back = completed silent peer 0 24 one_acked

acked_flies : one_acked.flying 0 ≡ true
unfolding sent acknowledged post update_send_sequence_no add_pending_packet pop_packet_buffer
    send_to_reliable
acked_flies = refl

sent_back : Reach silent start 1 one_back
sent_back =
    Reach.later
      (Reach.later (Reach.later Reach.start (Step.send peer (packet 1)))
        (Step.acknowledge smooth 20 1 0 (omega arith)))
      (Step.complete peer 0 24 acked_flies)

start-IsNumbered : IsNumbered 0 start.window
start-IsNumbered = record {
  live = λ n. none;
  k = 1;
  len = 0;
  drawn = refl;
  waits = record {
    start_at = refl;
    end_at = refl;
    within = omega arith;
    slots = λ d small. (refl, λ h. cc h);
    past = λ n below. refl;
    beyond = λ n above. refl;
  };
  last = omega arith;
}

Reach-IsLife_example : IsLife one_back
Reach-IsLife_example =
    Reach-IsLife silent silent_quiet start-IsLife start-IsNumbered (omega arith) sent_back

-- A sum in place of the checksum
abbrev sum_crc : ℕ → ℕ → ℕ
sum_crc crc a = (crc * 31 + a) % 4294967296

abbrev tick : ℕ → ℕ × ℕ
tick n = (n, n + 1)

abbrev reliable : PacketOpctions
reliable = record {
  reliable = true;
  order = false;
  channel_id = 0;
  is_chunck = false;
  chunck_flag = 0;
  chunck_total = 0;
}

abbrev net : Net ℕ
net = record { packets = fresh; requests = []; host = 5 }

-- Number 64 is sent, and number 1 still waits.
abbrev full : Sender
full = record {
  rudp_socket = true;
  session_id = 7;
  addr = peer;
  r_nops_seq = 0;
  rps_no = record idle { send_repeat_seq = 64; local_seqence = 65 };
  cache_sends = λ id. idle;
}

full-IsFull : IsFull (window_of reliable full)
full-IsFull = omega arith

send_small-refused_example :
    let (s', n') = send_small sum_crc sum_crc tick (1 ∷ 2 ∷ []) 3 [] reliable (full, net) in
    (window_of reliable s' ≡ numbered (window_of reliable full))
    × (n'.requests ≡ net.requests)
    × IsPool n'.packets
    × ((b : ℕ) → n'.packets.use_list b ≡ net.packets.use_list b)
send_small-refused_example =
    send_small-refused sum_crc sum_crc tick (1 ∷ 2 ∷ []) 3 [] reliable full net refl fresh-IsPool
      full-IsFull

abbrev old : PacketHeader
old = (packet 0).header

abbrev message : Packet
message = written (1 ∷ 2 ∷ []) 3 reliable (1 ∷ 2 ∷ []) 7 9 10 old

abbrev arrived : Net ℕ
arrived = on_buffer 0 (λ b. record b { packet = seal sum_crc sum_crc message }) net

abbrev counting : SocketHandler ℕ
counting = record {
  on_recv_from = λ addr a size n. record n { host = n.host + size };
  on_send_to = λ addr a size n. n;
}

seal-received_example :
    received sum_crc sum_crc (some counting) peer 0 message.size arrived
    ≡ counting.on_recv_from peer 0 message.size
        (on_buffer 0 (λ b. record b { packet = message }) arrived)
seal-received_example =
    seal-received sum_crc sum_crc counting peer 0 arrived (1 ∷ 2 ∷ []) 3 reliable (1 ∷ 2 ∷ []) 7 9
      10 old (omega arith) refl

-- Packets 1 and 3 wait, in buffers 1 and 3; the kernel sends buffer 3.
abbrev two_wait : SendState
two_wait = record {
  send_repeat_seq = 3;
  pending_packets = λ i.
      if i == 1
      then record { buffer = some 1; time_stamp = 10; sequence_no = 1; is_sent = false }
      else if i == 3
      then record { buffer = some 3; time_stamp = 10; sequence_no = 3; is_sent = false }
      else empty;
  local_window_start = 1;
  local_seqence = 4;
}

abbrev sending : Net ℕ
sending = record {
  packets = record fresh {
    buffers = λ a. record { obj_type = record no_flags { sending = a == 3 }; packet = packet a };
  };
  requests = [];
  host = 5;
}

two_slot : (i a : ℕ) → (two_wait.pending_packets i).buffer ≡ some a → i ≡ a
two_slot i a at = elim (Bool-cases (i == 1)) [
  | inl on ↦ let t : some 1 ≡ some a = rw on at at in let q : 1 ≡ a = cc t in (==_iff i 1).0 on ∙ q
  | inr off ↦ elim (Bool-cases (i == 3)) [
    | inl on ↦
        let t : some 3 ≡ some a = rw (off, on) at at in
        let q : 3 ≡ a = cc t in (==_iff i 3).0 on ∙ q
    | inr off' ↦ let t : none ≡ some a = rw (off, off') at at in cc t
  ]
]

two_wait-AreApart : AreApart two_wait
two_wait-AreApart i j a at at' = two_slot i a at ∙ sym (two_slot j a at')

repeat_message-due_example :
    (repeat_message peer 20 100 (two_wait, sending)).1.requests
    ≡ requested peer (due 20 100 3 1 two_wait sending) sending.requests
repeat_message-due_example =
    repeat_message-due peer 20 100 3 1 two_wait sending (omega arith) two_wait-AreApart
      (omega arith) (omega arith)

due_runs : due 20 100 3 1 two_wait sending ≡ 1 ∷ []
unfolding due
due_runs = refl

-- InternalClient in the place of the session
client_small-kept_example :
    let a = (pop_packet_buffer net.packets).1 in
    let (s', n') =
      client_small sum_crc sum_crc tick internal_refused (1 ∷ 2 ∷ []) 3 [] reliable (full, net) in
    let done = send_to_complete none peer a 26 n' in
    (window_of reliable s' ≡ numbered (window_of reliable full))
    × (n'.requests ≡ Request.send peer a ∷ [])
    × (net.packets.use_list a ≡ false)
    × (done.packets.use_list a ≡ true)
    × ((i : ℕ) → ((window_of reliable s').pending_packets i).buffer ≢ some a)
client_small-kept_example =
    client_small-kept sum_crc sum_crc tick (1 ∷ 2 ∷ []) 3 [] reliable full net peer 26 refl
      fresh-IsPool full-IsFull (λ i b waits. cc waits)
