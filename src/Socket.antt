-- ===== src/Socket.antt =====
-- RUDPSocket.h and .cpp: the requests that are made of the kernel, and what is done with their
-- buffers when they are complete. The kernel is the list of what was requested; a request that it
-- refuses ends the program in the source.
mod Receive
pub mod Leave
mod Tests
use dubuframework.Base.{
  ℕ, Bool, true, false, not, Option, none, some, List, [], ◌∷◌, ◌==◌, if◌then◌else◌, u16,
}
use dubuframework.Packet.{PacketHeader, Packet, packet_header_check}
use dubuframework.PacketManager.{
  ObjType, OverlappedPacketBuffer, PacketManager, modify, set_type, pop_packet_buffer,
  push_packet_buffer,
}
use dubuframework.Wire.{packet_bytes, crc32}

-- SOCKADDR_IN: the address, and the port in the host's order
pub record Addr : Type 0 where
  pub ip : ℕ  -- Uint32
  pub port : ℕ  -- Uint16

-- WSARecvFrom and WSASendTo, with the address of the buffer
pub data Request : Type 0 where
  recv : ℕ → Request
  send : Addr → ℕ → Request

-- What the functions of the socket work on: the packet manager, the requests made (newest first),
-- and all else.
pub record Net (S : Type 0) : Type 0 where
  pub packets : PacketManager
  pub requests : List Request
  pub host : S

-- ISocketHandler: the buffer is an address of the packet manager's.
pub record SocketHandler (S : Type 0) : Type 0 where
  pub on_recv_from : Addr → ℕ → ℕ → Net S → Net S
  pub on_send_to : Addr → ℕ → ℕ → Net S → Net S

-- `header->checksum_ = value`
abbrev pub with_checksum : ℕ → Packet → Packet
with_checksum value p = record p { header = record p.header { checksum = value } }

abbrev pub no_flags : ObjType
no_flags = record { recvefrom = false; sendto = false; sending = false; reliable = false }

-- `static_cast<Uint16>(size)`, of -1 too
abbrev sent_size : Option ℕ → ℕ
sent_size none = 0xFFFF
sent_size (some size) = u16 size

module _ {S : Type 0} where
  -- `opb->…` on one buffer
  abbrev pub on_buffer : ℕ → (OverlappedPacketBuffer → OverlappedPacketBuffer) → Net S → Net S
  on_buffer a f n = record n { packets = modify a f n.packets }

  -- PushPacketBuffer of the packet manager
  abbrev pub push : ℕ → Net S → Net S
  push a n = record n { packets = push_packet_buffer a n.packets }

  abbrev pub request : Request → Net S → Net S
  request r n = record n { requests = r ∷ n.requests }

  -- RecvFrom
  unfoldable pub recv_from : Net S → Net S
  recv_from n =
      let (m, a) = pop_packet_buffer n.packets in
      request (Request.recv a)
        (on_buffer a (set_type (record no_flags { recvefrom = true })) (record n { packets = m }))

  -- SendTo
  unfoldable pub send_to : Addr → ℕ → Net S → Net S
  send_to target a n =
      request (Request.send target a) (on_buffer a (set_type (record no_flags { sendto = true })) n)

  -- SendToReliable
  unfoldable pub send_to_reliable : Addr → ℕ → Net S → Net S
  send_to_reliable target a n = request (Request.send target a) (
      on_buffer a (set_type (record no_flags { sendto = true; reliable = true; sending = true })) n)

  -- SendToRepeat
  unfoldable pub send_to_repeat : Addr → ℕ → Net S → Net S
  send_to_repeat target a n =
      let old = (n.packets.buffers a).obj_type in
      request (Request.send target a) (on_buffer a (set_type (record old { sending = true })) n)

  unfoldable pub hand_off : Option (SocketHandler S) → Addr → ℕ → ℕ → Net S → Net S
  hand_off none addr a size n = push a n
  hand_off (some handler) addr a size n = handler.on_recv_from addr a size n

  unfoldable pub tell_sent : Option (SocketHandler S) → Addr → ℕ → ℕ → Net S → Net S
  tell_sent none addr a size n = n
  tell_sent (some handler) addr a size n = handler.on_send_to addr a size n

  -- SendToComplete
  unfoldable pub send_to_complete : Option (SocketHandler S) → Addr → ℕ → ℕ → Net S → Net S
  send_to_complete handler addr a size n =
      let told = tell_sent handler addr a size n in
      let prev = (told.packets.buffers a).obj_type in
      let sent = on_buffer a (set_type (record prev { sending = false })) told in
      if not prev.reliable then push a sent else sent

  -- The loops of EndServer and EndClient, for what GetQueuedCompletionStatus returns until it has
  -- nothing more: the buffers of the completions, or null.
  unfoldable pub drain : List (Option ℕ) → Net S → Net S
  drain [] n = n
  drain (none ∷ rest) n = drain rest n
  drain (some a ∷ rest) n = drain rest (push a n)

  -- `crc_u32` and `crc_u8` are the intrinsics of CRC32. RecvFromComplete; a negative size is `none`.
  module _ (crc_u32 crc_u8 : ℕ → ℕ → ℕ) where
    unfoldable pub received : Option (SocketHandler S) → Addr → ℕ → ℕ → Net S → Net S
    received handler addr a recv_size n =
        let p = (n.packets.buffers a).packet in
        let p' = with_checksum 0 p in
        let n' = on_buffer a (λ b. record b { packet = p' }) n in
        if packet_header_check recv_size
        then if p.header.checksum == crc32 crc_u32 crc_u8 (packet_bytes p') recv_size
          then hand_off handler addr a recv_size n'
          else push a n'
        else push a n

    unfoldable pub recv_from_complete :
        Option (SocketHandler S) → Addr → ℕ → Option ℕ → Net S → Net S
    recv_from_complete handler addr a none n = recv_from (push a n)
    recv_from_complete handler addr a (some size) n =
        recv_from (received handler addr a (u16 size) n)

    -- Dispatch of Server and of Client, for a completion that GetQueuedCompletionStatus returned
    unfoldable pub dispatch : Option (SocketHandler S) → Addr → ℕ → Option ℕ → Net S → Net S
    dispatch handler addr a size n =
        let type = (n.packets.buffers a).obj_type in
        if type.recvefrom
        then recv_from_complete handler addr a size n
        else if type.sendto
        then send_to_complete handler addr a (sent_size size) n
        else n
