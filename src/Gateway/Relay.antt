-- ===== src/Gateway/Relay.antt =====
-- What the gateway passes on of the packets that SendPacket makes.
use dubuframework.Base.{
  ℕ, zero, suc, ◌+◌, ◌/◌, ◌%◌, ◌^◌, ◌≤◌, ◌<◌, ◌≡◌, refl, true, false, some, List, [], take-length,
  length, u16, sub32, arith,
}
use dubuframework.Packet.{PacketHeader, Packet, PacketOpctions, header_to_options}
use dubuframework.Chunk.{sub_header_size}
use dubuframework.Wire.{word}
use dubuframework.Sending.{Stream, send_flags, written}
use dubuframework.Gateway.{
  Flat, Send, body_chatting, gateway_sub_header, after_sub, send_to_echo, send_back, chat_handler,
  chat_handler2,
}

-- The options of a packet of a stream
abbrev pub options_of : Stream → PacketOpctions
options_of (Stream.channel id) = record {
  reliable = true;
  order = true;
  channel_id = id;
  is_chunck = false;
  chunck_flag = 0;
  chunck_total = 0;
}
options_of Stream.unordered = record {
  reliable = true;
  order = false;
  channel_id = 0;
  is_chunck = false;
  chunck_flag = 0;
  chunck_total = 0;
}
options_of Stream.unreliable = record {
  reliable = false;
  order = false;
  channel_id = 0;
  is_chunck = false;
  chunck_flag = 0;
  chunck_total = 0;
}

-- A channel is one of eight.
abbrev pub IsStream : Stream → Type 0
IsStream (Stream.channel id) = id ≤ 7
IsStream Stream.unordered = Unit {0}
IsStream Stream.unreliable = Unit {0}

abbrev flagged : PacketHeader → Stream → PacketHeader
flagged h q = record h { flags = send_flags (options_of q) }

-- The options are read back from the flags.
channel_options :
    (h : PacketHeader) (id : ℕ)
    → id ≤ 7
    → header_to_options (flagged h (Stream.channel id)) ≡ options_of (Stream.channel id)
unfolding header_to_options send_flags
channel_options h zero le = refl
channel_options h (suc zero) le = refl
channel_options h (suc (suc zero)) le = refl
channel_options h (suc (suc (suc zero))) le = refl
channel_options h (suc (suc (suc (suc zero)))) le = refl
channel_options h (suc (suc (suc (suc (suc zero))))) le = refl
channel_options h (suc (suc (suc (suc (suc (suc zero)))))) le = refl
channel_options h (suc (suc (suc (suc (suc (suc (suc zero))))))) le = refl
channel_options h (suc (suc (suc (suc (suc (suc (suc (suc k)))))))) le = absurd (omega (arith, le))

stream_options :
    (h : PacketHeader) (q : Stream) → IsStream q → header_to_options (flagged h q) ≡ options_of q
unfolding header_to_options send_flags
stream_options h (Stream.channel id) le = channel_options h id le
stream_options h Stream.unordered le = refl
stream_options h Stream.unreliable le = refl

module _ (flat : Flat) (buffer : List ℕ) (q : Stream) (session_id sequence_no now : ℕ)
    (old : PacketHeader) where
  abbrev pub chatting : List ℕ → Packet
  chatting sub = written buffer body_chatting (options_of q) sub session_id sequence_no now old

  chatting-options :
      (sub : List ℕ) → IsStream q → header_to_options (chatting sub).header ≡ options_of q
  unfolding written
  chatting-options sub small = stream_options (chatting sub).header q small

  plain_after :
      length buffer + 24 ≤ 1024 → after_sub (sub_header_size (chatting [])) (chatting []) ≡ buffer
  unfolding after_sub sub_header_size written
  plain_after fits =
      let size : u16 (sub32 (u16 (24 + length buffer)) 24) ≡ length buffer = omega (arith, fits) in
      rw size (take-length buffer)

  -- The gateway passes the message of a client's chatting on to the echo server: the bytes that the
  -- client sent and no others, under the options of the client's packet, by the internal client that
  -- belongs to the session. The message fits in a packet, and its channel is one of eight.
  pub chat_handler-forwards :
      length buffer + 24 ≤ 1024
      → IsStream q
      → flat.body_type buffer ≡ body_chatting
      → flat.has_message buffer ≡ true
      → chat_handler flat true true (chatting [])
        ≡ some (Send.to_echo (session_id % 10) buffer body_chatting (options_of q))
  unfolding chat_handler send_to_echo written
  chat_handler-forwards fits small type there =
      rw (type, there, plain_after fits, chatting-options [] small) refl

  -- The way back: the gateway passes the message of a packet of the echo server, whose GatewaySubHeader
  -- names a session, on to that session: the bytes after the sub-header and no others, under the
  -- options of the packet. It fits in a packet, its channel is one of eight, and the identifiers are
  -- 32-bit numbers.
  pub chat_handler2-returns :
      (depth_id1 depth_id2 : ℕ)
      → length buffer + 36 ≤ 1024
      → IsStream q
      → depth_id1 < 2 ^ 32
      → flat.body_type buffer ≡ body_chatting
      → flat.has_message buffer ≡ true
      → chat_handler2 flat true 2 (chatting (gateway_sub_header depth_id1 depth_id2))
        ≡ some (Send.to_client depth_id1 buffer body_chatting (options_of q))
  unfolding chat_handler2 send_back after_sub written
  chat_handler2-returns depth_id1 depth_id2 fits small word' type there =
      let size : u16 (sub32 (u16 (u16 (24 + length buffer) + 12)) 36) ≡ length buffer =
        omega (arith, fits) in
      let id : word (depth_id1 % 256) (depth_id1 / 256 % 256) (depth_id1 / 65536 % 256)
            (depth_id1 / 16777216 % 256)
          ≡ depth_id1 =
        omega (arith, word') in
      rw
        (
          type,
          there,
          size,
          take-length buffer,
          id,
          chatting-options (gateway_sub_header depth_id1 depth_id2) small,
        )
        refl
