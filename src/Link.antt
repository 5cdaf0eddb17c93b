-- ===== src/Link.antt =====
-- An ordered channel from end to end: the sender's window (SendPacket, AddPendingPacket, AckProcess),
-- the receiver (RecvDispatch), and a network that may lose, repeat and reorder packets and
-- acknowledgements. RepeatMessage puts no packet on the network that was not there before.
pub mod Agree
mod Keeps
pub mod Deliver
mod Tests
use dubuframework.Base.{
  ℕ, ◌+◌, ◌≡◌, Bool, true, false, Option, none, some, if◌then◌else◌, update, u32,
}
use dubuframework.Packet.{Packet}
use dubuframework.Host.{Host}
use dubuframework.PacketManager.{PacketManager}
use dubuframework.Pending.{SendState, update_send_sequence_no, add_pending_packet, ack_process}
use dubuframework.Channel.{Receiving, receive}

-- A packet with the sequence number that SendPacket writes into its header
abbrev pub numbered : ℕ → Packet → Packet
numbered n p = record p { header = record p.header { sequence_no = n } }

-- `count` is the number of the calls of SendPacket; `sent n` is the packet of the `n`th call, if the
-- window took it; `acks` tells the sequence numbers that were acknowledged.
pub record Link (S : Type 0) : Type 0 where
  pub sender : SendState
  pub receiver : Receiving S
  pub count : ℕ
  pub sent : ℕ → Option Packet
  pub acks : ℕ → Bool

-- SendPacket on the packet in the buffer `a`. The number is drawn; a packet that the window refuses
-- is not sent.
abbrev pub after_send : {S : Type 0} → PacketManager → ℕ → Link S → Link S
after_send m a l =
    let (s, ok) = add_pending_packet m a (update_send_sequence_no l.sender).0 in
    record l {
      sender = s;
      count = l.count + 1;
      sent = if ok then update l.sent (l.count + 1) (some (m.buffers a).packet) else l.sent;
    }

-- RecvDispatch on a packet, and SendAck if it answers true
abbrev pub after_arrive : {S : Type 0} → Host S → Packet → Link S → Link S
after_arrive h p l =
    let (r, ok) = receive h p l.receiver in
    record l { receiver = r; acks = if ok then update l.acks p.header.sequence_no true else l.acks }

-- RecvDispatchACK; the other arguments are those of AckProcess.
abbrev pub after_ack : {S : Type 0} → (ℕ → ℕ → ℕ) → ℕ → ℕ → ℕ → PacketManager → Link S → Link S
after_ack smooth now n rtt m l = record l { sender = (ack_process smooth now n l.sender rtt m).0 }

-- The packets and the acknowledgements that were sent arrive in any order, any number of times or
-- never. `content n` is the packet of the `n`th call, but for its number.
pub data Step {S : Type 0} (h : Host S) (content : ℕ → Packet) (l : Link S) : Link S → Type 0 where
  send :
      (m : PacketManager) (a : ℕ)
      → (m.buffers a).packet ≡ numbered (update_send_sequence_no l.sender).1 (content (l.count + 1))
      → Step h content l (after_send m a l)
  arrive : (n : ℕ) (p : Packet) → l.sent n ≡ some p → Step h content l (after_arrive h p l)
  acknowledge :
      (smooth : ℕ → ℕ → ℕ) (now n rtt : ℕ) (m : PacketManager)
      → l.acks n ≡ true
      → Step h content l (after_ack smooth now n rtt m l)

pub data Reach {S : Type 0} (h : Host S) (content : ℕ → Packet) (l : Link S) : Link S → Type 0 where
  start : Reach h content l l
  later :
      {now next : Link S} → Reach h content l now → Step h content now next → Reach h content l next

-- Message `n` as it goes over the network
abbrev pub message : (ℕ → Packet) → ℕ → Packet
message content n = numbered (u32 n) (content n)
