-- ===== src/Gateway.antt =====
-- The gateway (GatewayServer.cpp, GatewaySessionHandler.cpp), between clients and the echo server: what
-- the handlers of packets pass on, and to whom. The flatbuffers are read by generated code, which is a
-- parameter; the logs are left out.
pub mod Relay
mod Tests
use dubuframework.Base.{
  ℕ, ◌+◌, ◌%◌, ◌^◌, Bool, true, false, ◌&&◌, Option, none, some, List, [], ◌∷◌, take, drop, ltb,
  ◌==◌, if◌then◌else◌, get_or, u16, sub32,
}
use dubuframework.Packet.{PacketHeader, Packet, PacketOpctions, header_size, header_to_options}
use dubuframework.Chunk.{sub_header_size}
use dubuframework.Wire.{le32, word}

-- `echoCount_`
abbrev pub echo_count : ℕ
echo_count = 10

-- PacketBody of the flatbuffers
abbrev pub body_chatting : ℕ
body_chatting = 1

abbrev pub body_register : ℕ
body_register = 2

abbrev pub body_bot : ℕ
body_bot = 3

-- A call of SendPacket: on which client of `internalClientList_`, or on which session, if there is one
pub data Send : Type 0 where
  to_echo : ℕ → List ℕ → ℕ → PacketOpctions → Send
  to_client : ℕ → List ℕ → ℕ → PacketOpctions → Send

-- What the generated code reads from a flatbuffer: `body_type()`, whether a chatting has a `message()`
-- and whether there is a register, and what CreateRegister makes of a session's identifier.
pub record Flat : Type 0 where
  pub body_type : List ℕ → ℕ
  pub has_message : List ℕ → Bool
  pub has_register : List ℕ → Bool
  pub create_register : ℕ → List ℕ

-- A Uint32 member at place `i`
abbrev pub read_u32 : ℕ → List ℕ → ℕ
read_u32 i bytes =
    word (get_or bytes i 0) (get_or bytes (i + 1) 0) (get_or bytes (i + 2) 0)
      (get_or bytes (i + 3) 0)

-- The memory of a GatewaySubHeader: its type, its size, two bytes of padding, `depthId1_` and
-- `depthId2_`
abbrev pub gateway_sub_header : ℕ → ℕ → List ℕ
gateway_sub_header depth_id1 depth_id2 = 2 ∷ 12 ∷ 0 ∷ 0 ∷ le32 depth_id1 (le32 depth_id2 [])

-- `buffer + offset` and `size - offset`, for the offset after the header and a sub-header
-- of `sub` bytes
unfoldable pub after_sub : ℕ → Packet → List ℕ
after_sub sub p = take (u16 (sub32 p.size (header_size + sub))) (drop sub p.body)

-- SendToEcho, and SendBotToEcho for the code of a bot
unfoldable pub send_to_echo : ℕ → Packet → Send
send_to_echo code p =
    Send.to_echo (p.header.session_id % echo_count) (after_sub (sub_header_size p) p) code
      (header_to_options p.header)

abbrev pub send_bot_to_echo : Packet → Send
send_bot_to_echo p = send_to_echo body_bot p

module _ (flat : Flat) where
  -- SendToResgister
  unfoldable pub send_to_resgister : ℕ → Packet → Send
  send_to_resgister code p =
      Send.to_echo (p.header.session_id % echo_count) (flat.create_register p.header.session_id)
        code
        (record {
          reliable = true;
          order = true;
          channel_id = 0;
          is_chunck = false;
          chunck_flag = 0;
          chunck_total = 0;
        })

  -- The handlers of packets with no sub-header; `owner` tells whether `owner_` is set, and `session`
  -- whether the packet is of a session.
  unfoldable pub register_handler : Bool → Bool → Packet → Option Send
  register_handler owner session p =
      if flat.body_type p.body == body_register && flat.has_register p.body && owner && session
      then some (send_to_resgister body_register p)
      else none

  unfoldable pub chat_handler : Bool → Bool → Packet → Option Send
  chat_handler owner session p =
      if flat.body_type p.body == body_chatting && flat.has_message p.body && owner && session
      then some (send_to_echo body_chatting p)
      else none

  unfoldable pub bot_handler : Bool → Bool → Packet → Option Send
  bot_handler owner session p =
      if flat.body_type p.body == body_bot && owner && session
      then some (send_bot_to_echo p)
      else none

  -- SendToClient of what follows a GatewaySubHeader, for the session `depthId1_`; `GetSize` is the
  -- second byte.
  unfoldable pub send_back : ℕ → Packet → Send
  send_back code p =
      Send.to_client (read_u32 4 p.body) (after_sub (get_or p.body 1 0) p) code
        (header_to_options p.header)

  -- The handlers of packets with a sub-header of the type `sh_type`
  unfoldable pub chat_handler2 : Bool → ℕ → Packet → Option Send
  chat_handler2 owner sh_type p =
      let payload = drop (get_or p.body 1 0) p.body in
      if get_or p.body 0 0 == sh_type
        && flat.body_type payload == body_chatting
        && flat.has_message payload
        && owner
      then some (send_back body_chatting p)
      else none

  unfoldable pub bot_handler2 : Bool → ℕ → Packet → Option Send
  bot_handler2 owner sh_type p =
      let payload = drop (get_or p.body 1 0) p.body in
      if get_or p.body 0 0 == sh_type && flat.body_type payload == body_bot && owner
      then some (send_back body_bot p)
      else none
