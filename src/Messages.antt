-- ===== src/Messages.antt =====
-- The packets that are a header only: those of Server.cpp (ConnectMessage, DisconnectMessage,
-- SendPing, SendAck) and those of Client.cpp, which InternalClient.cpp repeats.
mod Acks
mod Tests
use dubuframework.Base.{ℕ, ◌*◌, Bool, true, false, if◌then◌else◌, bit_or, leb, u8}
use dubuframework.Packet.{PacketHeader, Packet, PacketOpctions, header_size}
use dubuframework.Packet.Flag
use dubuframework.PacketManager.{modify, pop_packet_buffer}
use dubuframework.Socket.{Addr, Net, send_to}
use dubuframework.Sending.{seal}

-- What the header is, from what the buffer held before: ConnectMessage, which leaves `packetCode_`
-- and `chunkInfo_` as they were. The client's has the identifier 0.
unfoldable pub connect_header : ℕ → PacketHeader → PacketHeader
connect_header session_id old = record old {
  checksum = 0;
  flags = Flag.session;
  total_size = header_size;
  session_id = session_id;
  sequence_no = 0;
  timestamp = 0;
}

-- DisconnectMessage of the server at the time `now`; the client's has the time 0.
unfoldable pub disconnect_header : ℕ → ℕ → PacketHeader → PacketHeader
disconnect_header session_id now old = record old {
  checksum = 0;
  flags = Flag.disconnect;
  total_size = header_size;
  session_id = session_id;
  sequence_no = 0;
  timestamp = now;
}

-- SendPing; `sequence_no` is from AccSequnceNo.
unfoldable pub ping_header : ℕ → ℕ → ℕ → PacketHeader → PacketHeader
ping_header session_id sequence_no now old = record old {
  checksum = 0;
  flags = Flag.ping;
  total_size = header_size;
  session_id = session_id;
  sequence_no = sequence_no;
  timestamp = now;
  packet_code = 0;
}

-- RepeatPongMessage of the client
unfoldable pub pong_header : ℕ → ℕ → PacketHeader → PacketHeader
pong_header session_id sequence_no old = record old {
  checksum = 0;
  flags = Flag.pong;
  total_size = header_size;
  session_id = session_id;
  sequence_no = sequence_no;
  timestamp = 0;
}

-- The flags of SendAck
unfoldable pub ack_flags : PacketOpctions → ℕ
ack_flags opt =
    if opt.order then u8 (bit_or (bit_or Flag.ack Flag.channel) (opt.channel_id * 8)) else Flag.ack

-- SendAck
unfoldable pub ack_header : ℕ → ℕ → PacketOpctions → ℕ → PacketHeader → PacketHeader
ack_header session_id sequence_no opt now old = record old {
  checksum = 0;
  flags = ack_flags opt;
  total_size = header_size;
  session_id = session_id;
  sequence_no = sequence_no;
  timestamp = now;
  packet_code = 0;
}

-- `crc_u32` and `crc_u8` are the intrinsics of CRC32.
module _ {S : Type 0} (crc_u32 crc_u8 : ℕ → ℕ → ℕ) where
  -- A header in a buffer of the manager, with its checksum, sent to `target`
  unfoldable pub send_header : (PacketHeader → PacketHeader) → Addr → Net S → Net S
  send_header fill target n =
      let (m, a) = pop_packet_buffer n.packets in
      let old = (m.buffers a).packet in
      let p = seal crc_u32 crc_u8 (record old { header = fill old.header; size = header_size }) in
      send_to target a (record n { packets = modify a (λ b. record b { packet = p }) m })
