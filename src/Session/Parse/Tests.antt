-- ===== src/Session/Parse/Tests.antt =====
-- A message under code 3 with a sub-header of type 2, and handlers that log what they are given.
use dubuframework.Base.{
  ℕ, ◌≡◌, refl, inr, true, false, Option, none, some, List, [], ◌∷◌, ◌++◌, arith, ◌==◌,
  if◌then◌else◌, length, get_or,
}
use dubuframework.Packet.{PacketHeader, Packet, PacketOpctions}
use dubuframework.Chunk.{sub_header_size}
use dubuframework.Sending.{written}
use dubuframework.Session.Parse.{PacketHandler, run_handler, find_handler, packet_parse}
use dubuframework.Session.Parse.Written.{IsSubHeader, handled, packet_parse-written}

-- It accepts messages of two bytes.
abbrev logger : PacketHandler (List ℕ)
logger = record {
  verifier = λ bytes. length bytes == 2;
  handler = λ p s. s ++ 0 ∷ [];
  handler2 = λ p bytes sh_type s. s ++ sh_type ∷ [];
}

abbrev handlers : Option (ℕ → Option (PacketHandler (List ℕ)))
handlers = some (λ code. if code == 3 then some logger else none)

abbrev echo : List ℕ → List ℕ → List ℕ
echo bytes s = s ++ bytes

abbrev options : PacketOpctions
options = record {
  reliable = true;
  order = false;
  channel_id = 0;
  is_chunck = false;
  chunck_flag = 0;
  chunck_total = 0;
}

abbrev old : PacketHeader
old = record {
  total_size = 0;
  packet_code = 0;
  flags = 0;
  session_id = 0;
  sequence_no = 0;
  timestamp = 0;
  checksum = 0;
  chunk_info = record { size = 0; flag = 0 };
}

abbrev sub_header : List ℕ
sub_header = 2 ∷ 3 ∷ 9 ∷ []

sub_header-IsSubHeader : IsSubHeader sub_header
sub_header-IsSubHeader = record { typed = omega arith; small = omega arith; sized = refl }

abbrev message : Packet
message = written (5 ∷ 6 ∷ []) 3 options sub_header 7 9 10 old

message_runs : packet_parse echo handlers message [] ≡ 2 ∷ []
unfolding packet_parse run_handler find_handler sub_header_size written
message_runs = refl

-- No handler has the code 4.
unknown_runs : packet_parse echo handlers (written (5 ∷ 6 ∷ []) 4 options [] 7 9 10 old) [] ≡ []
unfolding packet_parse run_handler find_handler sub_header_size written
unknown_runs = refl

echo_runs :
    packet_parse echo handlers (written (5 ∷ 6 ∷ []) 0 options [] 7 9 10 old) [] ≡ 5 ∷ 6 ∷ []
unfolding packet_parse written
echo_runs = refl

packet_parse-written_example :
    packet_parse echo handlers message []
    ≡ handled (find_handler handlers 3) (5 ∷ 6 ∷ []) (get_or sub_header 0 0) message []
packet_parse-written_example =
    packet_parse-written echo handlers (5 ∷ 6 ∷ []) 3 options 7 9 10 old sub_header [] (omega arith)
      (omega arith) (omega arith) (inr sub_header-IsSubHeader)
