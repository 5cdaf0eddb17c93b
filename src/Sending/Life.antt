-- ===== src/Sending/Life.antt =====
-- The life of packet buffers between PopPacketBuffer and PushPacketBuffer: what SendPacket,
-- SendToComplete, AckProcess and RepeatMessage do with them, in any order, for one window.
use dubuframework.Base.{ℕ, ◌+◌, ◌^◌, ◌<◌, ◌≡◌, Bool, true, false, Option, List, [], ◌∷◌, update}
use dubuframework.Packet.{Packet}
use dubuframework.PacketManager.{PacketManager, modify, pop_packet_buffer}
use dubuframework.Pending.{SendState, update_send_sequence_no, add_pending_packet, ack_process}
use dubuframework.Socket.{Addr, Request, Net, SocketHandler, send_to_complete}
use dubuframework.Sending.{post, repeat_slot}
use dubuframework.Sending.Owned.{IsOwned}

-- The manager, the window of a sender, and the buffers that the kernel sends.
pub record Life (S : Type 0) : Type 0 where
  pub packets : PacketManager
  pub host : S
  pub window : SendState
  pub flying : ℕ → Bool

-- The buffers in the slots
abbrev pub slots : SendState → ℕ → Option ℕ
slots w i = (w.pending_packets i).buffer

-- The kernel takes the requests.
abbrev pub launched : List Request → (ℕ → Bool) → ℕ → Bool
launched [] flying = flying
launched (Request.recv a ∷ rest) flying = launched rest flying
launched (Request.send target a ∷ rest) flying = update (launched rest flying) a true

-- The packet under the number `n`
abbrev pub under : ℕ → Packet → Packet
under n p = record p { header = record p.header { sequence_no = n } }

module _ {S : Type 0} where
  abbrev pub net : Life S → Net S
  net l = record { packets = l.packets; requests = []; host = l.host }

  abbrev pub after : Life S → SendState → Net S → Life S
  after l w n = record {
    packets = n.packets;
    host = n.host;
    window = w;
    flying = launched n.requests l.flying;
  }

  -- SendPacket of the packet `p`, reliable, under the next number of the window
  unfoldable pub sent : Addr → Packet → Life S → Life S
  sent target p l =
      let (w0, n) = update_send_sequence_no l.window in
      let (m, a) = pop_packet_buffer l.packets in
      let m1 = modify a (λ b. record b { packet = under n p }) m in
      let (w, ok) = add_pending_packet m1 a w0 in
      after l w (post true ok target a (record (net l) { packets = m1 }))

  -- SendPacket, SendAck and the like of the packet `p`, not reliable
  unfoldable pub sent_plain : Addr → Packet → Life S → Life S
  sent_plain target p l =
      let (m, a) = pop_packet_buffer l.packets in
      let m1 = modify a (λ b. record b { packet = p }) m in
      after l l.window (post false true target a (record (net l) { packets = m1 }))

  -- AckProcess
  unfoldable pub acknowledged : (ℕ → ℕ → ℕ) → ℕ → ℕ → ℕ → Life S → Life S
  acknowledged smooth now ack rtt l =
      let (w, rtt', m) = ack_process smooth now ack l.window rtt l.packets in
      after l w (record (net l) { packets = m })

  -- The round of RepeatMessage for slot `i`
  unfoldable pub resent : Addr → ℕ → ℕ → ℕ → Life S → Life S
  resent target delay now i l =
      let (w, n) = repeat_slot target delay now (slots l.window i) i (l.window, net l) in
      after l w n

  -- SendToComplete
  unfoldable pub completed : Option (SocketHandler S) → Addr → ℕ → ℕ → Life S → Life S
  completed handler addr a size l =
      let n = send_to_complete handler addr a size (net l) in
      record (after l l.window n) { flying = update l.flying a false }

-- A step of the sender or of the kernel, and how many numbers it draws. The window may take the
-- packet that is sent or refuse it. An acknowledgement names any 32-bit number.
pub data Step {S : Type 0} (handler : Option (SocketHandler S)) (l : Life S)
    : ℕ → Life S → Type 0 where
  send : (target : Addr) (p : Packet) → Step handler l 1 (sent target p l)
  send_plain : (target : Addr) (p : Packet) → Step handler l 0 (sent_plain target p l)
  acknowledge :
      (smooth : ℕ → ℕ → ℕ) (now ack rtt : ℕ)
      → ack < 2 ^ 32
      → Step handler l 0 (acknowledged smooth now ack rtt l)
  resend : (target : Addr) (delay now i : ℕ) → Step handler l 0 (resent target delay now i l)
  complete :
      (addr : Addr) (a size : ℕ)
      → l.flying a ≡ true
      → Step handler l 0 (completed handler addr a size l)

-- The states that steps reach, with how many numbers were drawn
pub data Reach {S : Type 0} (handler : Option (SocketHandler S)) (l : Life S)
    : ℕ → Life S → Type 0 where
  start : Reach handler l 0 l
  later :
      {count more : ℕ} {now next : Life S}
      → Reach handler l count now
      → Step handler now more next
      → Reach handler l (count + more) next

abbrev pub IsLife : {S : Type 0} → Life S → Type 0
IsLife l = IsOwned l.packets (slots l.window) l.flying
