-- ===== src/Client/Send.antt =====
-- SendPacket of Client.cpp and of InternalClient.cpp. They are that of Session.cpp, but for what is
-- done with a packet that the window refuses.
pub mod Kept
use dubuframework.Base.{ℕ, ◌+◌, Bool, true, false, not, List, [], ◌∷◌, ltb, if◌then◌else◌, length}
use dubuframework.Packet.{Packet, PacketOpctions, header_size, packet_max_size}
use dubuframework.PacketManager.{modify, pop_packet_buffer}
use dubuframework.Chunk.{send_packet_chunk}
use dubuframework.Socket.{Net, push, send_to, send_to_reliable}
use dubuframework.Sending.{Sender, stream_of, take_number, add_pending, written, seal}

-- The rest of SendPacket, once AddPendingPacket has answered; `refused` is what is done with a packet
-- that the window does not take.
unfoldable pub after_pending :
    {S : Type 0}
    → (ℕ → Sender × Net S → Sender × Net S)
    → Bool
    → Bool
    → ℕ
    → Sender × Net S
    → Sender × Net S
after_pending refused reliable ok a (s, n) =
    if reliable
    then if ok then (s, send_to_reliable s.addr a n) else refused a (s, n)
    else (s, send_to s.addr a n)

-- Client: the buffer is given back and the connection ended; `disconnect` is Disconnect.
unfoldable pub client_refused :
    {S : Type 0} → (Sender × Net S → Sender × Net S) → ℕ → Sender × Net S → Sender × Net S
client_refused disconnect a (s, n) = disconnect (s, push a n)

-- InternalClient: the packet is sent all the same.
unfoldable pub internal_refused : {S : Type 0} → ℕ → Sender × Net S → Sender × Net S
internal_refused a (s, n) = (s, send_to_reliable s.addr a n)

-- `crc_u32` and `crc_u8` are the intrinsics of CRC32, and `clock` is GetRelativeTimeMs.
module _ {S : Type 0} (crc_u32 crc_u8 : ℕ → ℕ → ℕ) (clock : S → ℕ × S)
    (refused : ℕ → Sender × Net S → Sender × Net S) where
  -- SendPacket for what fits in a packet; `session_id` of the sender is `clientId_`.
  unfoldable pub client_small :
      List ℕ → ℕ → List ℕ → PacketOpctions → Sender × Net S → Sender × Net S
  client_small buffer code sub opt (s, n) =
      let (m, a) = pop_packet_buffer n.packets in
      let (s1, number) = take_number (stream_of opt) s in
      let (now, host) = clock n.host in
      let p =
        seal crc_u32 crc_u8
          (written buffer code opt sub s.session_id number now (m.buffers a).packet.header) in
      let m1 = modify a (λ b. record b { packet = p }) m in
      let (s2, ok) = add_pending (stream_of opt) m1 a s1 in
      after_pending refused opt.reliable ok a (s2, record n { packets = m1; host = host })

  -- SendPacket
  unfoldable pub client_send :
      List ℕ → ℕ → List ℕ → PacketOpctions → Sender × Net S → Sender × Net S
  client_send buffer code sub opt (s, n) =
      if not s.rudp_socket
      then (s, n)
      else if ltb packet_max_size (length buffer + length sub + header_size)
      then send_packet_chunk (λ part o sn. client_small part code sub o sn) buffer (length sub)
          (s, n)
      else client_small buffer code sub opt (s, n)

-- SendPacket of InternalClient
abbrev pub internal_send :
    {S : Type 0}
    → (ℕ → ℕ → ℕ)
    → (ℕ → ℕ → ℕ)
    → (S → ℕ × S)
    → List ℕ
    → ℕ
    → List ℕ
    → PacketOpctions
    → Sender × Net S
    → Sender × Net S
internal_send crc_u32 crc_u8 clock = client_send crc_u32 crc_u8 clock internal_refused
