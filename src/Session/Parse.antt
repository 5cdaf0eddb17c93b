-- ===== src/Session/Parse.antt =====
-- Session::PacketParse (Session.cpp) and the handlers of packets (Packet.h). The logs are left out.
pub mod Written
mod Tests
use dubuframework.Base.{
  ℕ, ◌+◌, ◌/◌, ◌%◌, Bool, true, false, not, Option, none, some, List, take, drop, ltb, ◌==◌,
  if◌then◌else◌, get_or, u16, sub32,
}
use dubuframework.Packet.{Packet, header_size}
use dubuframework.Chunk.{sub_header_size}

-- PacketHandler; `handler2` also takes the sub-header, as the bytes from its first one on, and its
-- type.
pub record PacketHandler (S : Type 0) : Type 0 where
  pub verifier : List ℕ → Bool
  pub handler : Packet → S → S
  pub handler2 : Packet → List ℕ → ℕ → S → S

module _ {S : Type 0} where
  -- The rest of PacketParse, with the entry of `handlers_`; `sh_type` is the type of the
  -- sub-header, and the flatbuffer begins at `offset`, after `sub` bytes.
  unfoldable pub run_handler : Option (PacketHandler S) → ℕ → ℕ → ℕ → Packet → S → S
  run_handler none sh_type sub offset p s = s
  run_handler (some h) sh_type sub offset p s =
      if not (h.verifier (take (sub32 p.size offset) (drop sub p.body)))
      then s
      else if ltb 0 sh_type
      then h.handler2 p p.body sh_type s
      else h.handler p s

  unfoldable pub find_handler : Option (ℕ → Option (PacketHandler S)) → ℕ → Option (PacketHandler S)
  find_handler none code = none
  find_handler (some handlers) code = handlers code

  -- PacketParse; `echo` is SendEchoMessage, and `handlers` is `handlers_`, if it is set. Where the
  -- header or the sub-header gives a size beyond the packet's, the source reads on in memory; here the
  -- bytes end with the packet.
  unfoldable pub packet_parse :
      (List ℕ → S → S) → Option (ℕ → Option (PacketHandler S)) → Packet → S → S
  packet_parse echo handlers p s =
      let sh_type = p.header.packet_code / 32 in
      let sub = sub_header_size p in
      if p.header.packet_code == 0
      then echo (take (u16 (sub32 p.header.total_size header_size)) p.body) s
      else run_handler (find_handler handlers (p.header.packet_code % 32)) sh_type sub
          (header_size + sub) p s
