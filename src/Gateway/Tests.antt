-- ===== src/Gateway/Tests.antt =====
-- A chatting of two bytes, on its way to the echo server and back.
use dubuframework.Base.{◌≡◌, refl, true, none, some, [], ◌∷◌, arith, ◌==◌, get_or, length}
use dubuframework.Packet.{PacketHeader}
use dubuframework.Sending.{Stream, written}
use dubuframework.Gateway.{
  Flat, Send, body_chatting, gateway_sub_header, chat_handler, chat_handler2, bot_handler,
  register_handler,
}
use dubuframework.Gateway.Relay.{options_of, chatting, chat_handler-forwards, chat_handler2-returns}

-- The first byte is the type of the body.
abbrev first_byte : Flat
first_byte = record {
  body_type = λ bytes. get_or bytes 0 0;
  has_message = λ bytes. length bytes == 2;
  has_register = λ bytes. true;
  create_register = λ id. 2 ∷ id ∷ [];
}

abbrev old : PacketHeader
old = record {
  total_size = 0;
  packet_code = 0;
  flags = 0;
  session_id = 0;
  sequence_no = 0;
  timestamp = 0;
  checksum = 0;
  chunk_info = record { size = 0; flag = 0 };
}

no_bot :
    bot_handler first_byte true true
      (chatting first_byte (1 ∷ 9 ∷ []) (Stream.channel 2) 47 3 10 old [])
    ≡ none
unfolding bot_handler written
no_bot = refl

no_register :
    register_handler first_byte true true
      (chatting first_byte (1 ∷ 9 ∷ []) (Stream.channel 2) 47 3 10 old [])
    ≡ none
unfolding register_handler written
no_register = refl

chat_handler-forwards_example :
    chat_handler first_byte true true
      (chatting first_byte (1 ∷ 9 ∷ []) (Stream.channel 2) 47 3 10 old [])
    ≡ some (Send.to_echo 7 (1 ∷ 9 ∷ []) body_chatting (options_of (Stream.channel 2)))
chat_handler-forwards_example =
    chat_handler-forwards first_byte (1 ∷ 9 ∷ []) (Stream.channel 2) 47 3 10 old (omega arith)
      (omega arith) refl refl

chat_handler2-returns_example :
    chat_handler2 first_byte true 2
      (chatting first_byte (1 ∷ 9 ∷ []) Stream.unordered 5 3 10 old (gateway_sub_header 4711 5))
    ≡ some (Send.to_client 4711 (1 ∷ 9 ∷ []) body_chatting (options_of Stream.unordered))
chat_handler2-returns_example =
    chat_handler2-returns first_byte (1 ∷ 9 ∷ []) Stream.unordered 5 3 10 old 4711 5 (omega arith)
      tt (omega arith) refl refl
