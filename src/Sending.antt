-- ===== src/Sending.antt =====
-- The sending half of Session (Session.cpp): SendPacket, RepeatMessage, RepeatMessageAll; the same
-- code stands in Client.cpp and InternalClient.cpp.
pub mod Refuse
mod Sealed
mod Resend
mod Slots
mod Owned
mod Hands
pub mod Taken
mod Life
mod Numbers
mod Keeps
mod Tests
use dubuframework.Base.{
  ℕ, zero, suc, ◌+◌, ◌*◌, ◌%◌, Bool, true, false, not, ◌&&◌, Option, none, some, List, [], ◌∷◌,
  ◌++◌, ltb, leb, ◌==◌, if◌then◌else◌, length, get_or, update, bit_or, u16, u8, sub32, succ32,
}
use dubuframework.Packet.{PacketHeader, Packet, PacketOpctions, header_size, packet_max_size}
use dubuframework.Packet.Flag
use dubuframework.PacketState.{window_count}
use dubuframework.PacketManager.{
  OverlappedPacketBuffer, PacketManager, modify, pop_packet_buffer, push_packet_buffer,
}
use dubuframework.Pending.{
  PendingPacket, SendState, update_send_sequence_no, add_pending_packet, is_repeat,
}
use dubuframework.Chunk.{send_packet_chunk}
use dubuframework.Wire.{packet_bytes, crc32}
use dubuframework.Socket.{
  Addr, Net, with_checksum, on_buffer, push, send_to, send_to_reliable, send_to_repeat,
}

-- The members of Session that the sending functions use: `rudp_socket` tells whether `rudpSocket_`
-- is set, `r_nops_seq` is the number of the last unreliable packet, `cache_sends` are the sending
-- halves of the channels.
pub record Sender : Type 0 where
  pub rudp_socket : Bool
  pub session_id : ℕ
  pub addr : Addr
  pub r_nops_seq : ℕ
  pub rps_no : SendState
  pub cache_sends : ℕ → SendState

-- A stream of numbers
pub data Stream : Type 0 where
  channel : ℕ → Stream
  unordered : Stream
  unreliable : Stream

abbrev pub stream_of : PacketOpctions → Stream
stream_of opt =
    if opt.reliable
    then if opt.order then Stream.channel opt.channel_id else Stream.unordered
    else Stream.unreliable

-- The flags of a packet
unfoldable pub send_flags : PacketOpctions → ℕ
send_flags opt =
    if opt.reliable
    then if opt.order
      then u8 (bit_or (bit_or (bit_or Flag.none Flag.repeat) Flag.channel) (opt.channel_id * 8))
      else if opt.is_chunck
      then bit_or (bit_or Flag.none Flag.repeat) Flag.chunk
      else bit_or Flag.none Flag.repeat
    else Flag.none

-- UpdateSendSequenceNo of the stream
unfoldable pub take_number : Stream → Sender → Sender × ℕ
take_number (Stream.channel id) s =
    let (c, n) = update_send_sequence_no (s.cache_sends id) in
    (record s { cache_sends = update s.cache_sends id c }, n)
take_number Stream.unordered s =
    let (c, n) = update_send_sequence_no s.rps_no in (record s { rps_no = c }, n)
take_number Stream.unreliable s = let n = succ32 s.r_nops_seq in (record s { r_nops_seq = n }, n)

-- AddPendingPacket of the stream
unfoldable pub add_pending : Stream → PacketManager → ℕ → Sender → Sender × Bool
add_pending (Stream.channel id) m a s =
    let (c, ok) = add_pending_packet m a (s.cache_sends id) in
    (record s { cache_sends = update s.cache_sends id c }, ok)
add_pending Stream.unordered m a s =
    let (c, ok) = add_pending_packet m a s.rps_no in (record s { rps_no = c }, ok)
add_pending Stream.unreliable m a s = (s, true)

-- The packet that is written into the buffer; `old` is what the buffer held. The type of the
-- sub-header is its first byte.
unfoldable pub written : List ℕ → ℕ → PacketOpctions → List ℕ → ℕ → ℕ → ℕ → PacketHeader → Packet
written buffer code opt sub session_id sequence_no now old =
    let total = u16 (header_size + length buffer) in
    let has_sub = ltb 0 (length sub) in
    let all = if has_sub then u16 (total + length sub) else total in
    record {
      header = record {
        total_size = all;
        packet_code = if has_sub then u8 (bit_or code (get_or sub 0 0 * 32)) else code;
        flags = send_flags opt;
        session_id = session_id;
        sequence_no = sequence_no;
        timestamp = now;
        checksum = 0;
        chunk_info =
            if opt.reliable && not opt.order && opt.is_chunck
            then record { size = opt.chunck_total; flag = opt.chunck_flag }
            else old.chunk_info;
      };
      body = sub ++ buffer;
      size = all;
    }

-- After AddPendingPacket
unfoldable pub post : {S : Type 0} → Bool → Bool → Addr → ℕ → Net S → Net S
post reliable ok target a n =
    if reliable then if ok then send_to_reliable target a n else push a n else send_to target a n

-- `crc_u32` and `crc_u8` are the intrinsics of CRC32.
module _ (crc_u32 crc_u8 : ℕ → ℕ → ℕ) where
  -- The checksum of a packet whose own is 0, written into its header
  unfoldable pub seal : Packet → Packet
  seal p = with_checksum (crc32 crc_u32 crc_u8 (packet_bytes p) p.header.total_size) p

-- `clock` is GetRelativeTimeMs.
module _ {S : Type 0} (crc_u32 crc_u8 : ℕ → ℕ → ℕ) (clock : S → ℕ × S) where
  -- SendPacket for what fits in a packet
  unfoldable pub send_small : List ℕ → ℕ → List ℕ → PacketOpctions → Sender × Net S → Sender × Net S
  send_small buffer code sub opt (s, n) =
      let (m, a) = pop_packet_buffer n.packets in
      let (s1, number) = take_number (stream_of opt) s in
      let (now, host) = clock n.host in
      let p =
        seal crc_u32 crc_u8
          (written buffer code opt sub s.session_id number now (m.buffers a).packet.header) in
      let m1 = modify a (λ b. record b { packet = p }) m in
      let (s2, ok) = add_pending (stream_of opt) m1 a s1 in
      (s2, post opt.reliable ok s.addr a (record n { packets = m1; host = host }))

  -- SendPacket. A part of a message in parts fits in a packet, if the sub-header leaves room.
  unfoldable pub send_packet :
      List ℕ → ℕ → List ℕ → PacketOpctions → Sender × Net S → Sender × Net S
  send_packet buffer code sub opt (s, n) =
      if not s.rudp_socket
      then (s, n)
      else if ltb packet_max_size (length buffer + length sub + header_size)
      then send_packet_chunk (λ part o sn. send_small part code sub o sn) buffer (length sub) (s, n)
      else send_small buffer code sub opt (s, n)

  -- SendEchoMessage
  unfoldable pub send_echo_message : List ℕ → Sender × Net S → Sender × Net S
  send_echo_message buffer sn =
      send_packet buffer 0 []
        (record {
          reliable = true;
          order = true;
          channel_id = 0;
          is_chunck = false;
          chunck_flag = 0;
          chunck_total = 0;
        })
        sn

module _ {S : Type 0} (addr : Addr) (resend_delay now : ℕ) where
  -- The round of RepeatMessage for a slot
  unfoldable pub repeat_slot : Option ℕ → ℕ → SendState × Net S → SendState × Net S
  repeat_slot none i (s, n) = (s, n)
  repeat_slot (some a) i (s, n) =
      let p = s.pending_packets i in
      if not (n.packets.buffers a).obj_type.sending && leb resend_delay (sub32 now p.time_stamp)
      then (
        record s { pending_packets = update s.pending_packets i (record p { time_stamp = now }) },
        send_to_repeat addr a n,
      )
      else (s, n)

  -- The loop of RepeatMessage from `current` on; the first argument bounds its rounds.
  unfoldable pub repeat_from : ℕ → ℕ → SendState × Net S → SendState × Net S
  unfolding repeat_slot
  repeat_from zero current sn = sn
  repeat_from (suc fuel) current (s, n) =
      let i = current % window_count in
      let rest =
        repeat_from fuel (succ32 current) (repeat_slot (s.pending_packets i).buffer i (s, n)) in
      if current == s.local_seqence then (s, n) else rest

  -- RepeatMessage: the loop ends after as many rounds as the window is long.
  unfoldable pub repeat_message : SendState × Net S → SendState × Net S
  repeat_message (s, n) =
      repeat_from (sub32 s.local_seqence s.local_window_start) s.local_window_start (s, n)

  -- `if (rps.IsRepeat()) RepeatMessage(…)`
  abbrev repeat_if : SendState × Net S → SendState × Net S
  repeat_if (s, n) = if is_repeat s then repeat_message (s, n) else (s, n)

  -- The loop of RepeatMessageAll over the channels from `id` on
  unfoldable pub repeat_channels : ℕ → ℕ → Sender × Net S → Sender × Net S
  repeat_channels zero id sn = sn
  repeat_channels (suc rounds) id (s, n) =
      let (c, n') = repeat_if (s.cache_sends id, n) in
      repeat_channels rounds (id + 1) (record s { cache_sends = update s.cache_sends id c }, n')

  -- RepeatMessageAll, at the time `now`; `channel_mask` is `g_channelMask`.
  unfoldable pub repeat_message_all : ℕ → Sender × Net S → Sender × Net S
  repeat_message_all channel_mask (s, n) =
      let (c, n') = repeat_if (s.rps_no, n) in
      repeat_channels (channel_mask + 1) 0 (record s { rps_no = c }, n')
