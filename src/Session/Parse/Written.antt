-- ===== src/Session/Parse/Written.antt =====
-- What PacketParse does with a packet of SendPacket.
use dubuframework.Base.{
  ℕ, ◌+◌, ◌*◌, ◌/◌, ◌%◌, ◌≤◌, ◌<◌, ◌≡◌, ◌⊎◌, inl, inr, refl, sym, subst, true, false, Option, none,
  some, List, [], ◌∷◌, ◌++◌, take, drop, length, take-length, drop-length, ltb, ◌==◌, if◌then◌else◌,
  get_or, arith, u8, u16, sub32, Bool-cases, bit_or, bit_or-above,
}
use dubuframework.Packet.{PacketHeader, Packet, PacketOpctions}
use dubuframework.Chunk.{sub_header_size}
use dubuframework.Sending.{written}
use dubuframework.Session.Parse.{PacketHandler, run_handler, find_handler, packet_parse}

-- A sub-header: its first byte is its type, the second its size.
pub record IsSubHeader (sub : List ℕ) : Type 0 where
  pub typed : 1 ≤ get_or sub 0 0
  pub small : get_or sub 0 0 < 8
  pub sized : length sub ≡ get_or sub 1 0

size_byte : (sub buffer : List ℕ) → IsSubHeader sub → get_or (sub ++ buffer) 1 0 ≡ length sub
size_byte [] buffer v = absurd (omega (arith, v.typed))
size_byte (x ∷ []) buffer v = absurd (omega (arith, v.sized))
size_byte (x ∷ y ∷ rest) buffer v = sym v.sized

nonempty : (sub : List ℕ) → IsSubHeader sub → ltb 0 (length sub) ≡ true
nonempty [] v = absurd (omega (arith, v.typed))
nonempty (x ∷ sub) v = ground arith

module _ {S : Type 0} where
  -- What a packet with the message `buffer` and a sub-header of type `sh_type`, 0 for none, is to do.
  abbrev pub handled : Option (PacketHandler S) → List ℕ → ℕ → Packet → S → S
  handled none buffer sh_type p s = s
  handled (some h) buffer sh_type p s =
      if h.verifier buffer
      then if ltb 0 sh_type then h.handler2 p p.body sh_type s else h.handler p s
      else s

  run_handler_lem :
      (o : Option (PacketHandler S)) (buffer : List ℕ) (sh_type sub offset : ℕ) (p : Packet) (s : S)
      → take (sub32 p.size offset) (drop sub p.body) ≡ buffer
      → run_handler o sh_type sub offset p s ≡ handled o buffer sh_type p s
  unfolding run_handler
  run_handler_lem none buffer sh_type sub offset p s e = refl
  run_handler_lem (some h) buffer sh_type sub offset p s e = elim (Bool-cases (h.verifier buffer)) [
    | inl ok ↦ rw (e, ok) refl
    | inr bad ↦ rw (e, bad) refl
  ]

  module _ (echo : List ℕ → S → S) (handlers : Option (ℕ → Option (PacketHandler S))) where
    packet_parse_lem :
        (buffer : List ℕ) (sh_type code sub : ℕ) (p : Packet) (s : S)
        → p.header.packet_code ≡ sh_type * 32 + code
        → 1 ≤ code
        → code < 32
        → sub_header_size p ≡ sub
        → take (sub32 p.size (24 + sub)) (drop sub p.body) ≡ buffer
        → packet_parse echo handlers p s ≡ handled (find_handler handlers code) buffer sh_type p s
    unfolding packet_parse
    packet_parse_lem buffer sh_type code sub p s is one small size e =
        let half : p.header.packet_code / 32 ≡ sh_type = omega (arith, is, small) in
        let low : p.header.packet_code % 32 ≡ code = omega (arith, is, small) in
        let t : (p.header.packet_code == 0) ≡ false = ground (arith, is, one) in
        rw (half, low, t, size)
          (run_handler_lem (find_handler handlers code) buffer sh_type sub (24 + sub) p s e)

    module _ (buffer : List ℕ) (code : ℕ) (opt : PacketOpctions) (session_id sequence_no now : ℕ)
        (old : PacketHeader) where
      abbrev packet : List ℕ → Packet
      packet sub = written buffer code opt sub session_id sequence_no now old

      parse_plain :
          (s : S)
          → 1 ≤ code
          → code < 32
          → length buffer + 24 ≤ 1024
          → packet_parse echo handlers (packet []) s
            ≡ handled (find_handler handlers code) buffer 0 (packet []) s
      unfolding written sub_header_size
      parse_plain s one small fits =
          let none_there : ltb 0 (code / 32) ≡ false = ground (arith, small) in
          let size : sub32 (u16 (24 + length buffer)) 24 ≡ length buffer = omega (arith, fits) in
          packet_parse_lem buffer 0 code 0 (packet []) s (omega arith) one small
            (rw none_there refl) (rw size (take-length buffer))

      parse_sub :
          (sub : List ℕ) (s : S)
          → 1 ≤ code
          → code < 32
          → length buffer + length sub + 24 ≤ 1024
          → IsSubHeader sub
          → packet_parse echo handlers (packet sub) s
            ≡ handled (find_handler handlers code) buffer (get_or sub 0 0) (packet sub) s
      unfolding written sub_header_size
      parse_sub sub s one small fits v =
          let t = get_or sub 0 0 in
          let there = nonempty sub v in
          let coded : u8 (bit_or code (t * 32)) ≡ t * 32 + code =
            rw (bit_or-above 5 code t small) (omega (arith, small, v.small)) in
          let typed : ltb 0 (u8 (bit_or code (t * 32)) / 32) ≡ true =
            rw coded (ground (arith, small, v.typed)) in
          let size : sub32 (u16 (u16 (24 + length buffer) + length sub)) (24 + length sub)
              ≡ length buffer =
            omega (arith, fits) in
          packet_parse_lem buffer t code (length sub) (packet sub) s (rw there coded) one small
            (rw (there, typed) (size_byte sub buffer v))
            (rw (there, size, drop-length sub buffer) (take-length buffer))

      -- A packet that SendPacket makes of a message, under a code from 1 to 31, with no sub-header or
      -- one that begins with its type, below 8, and its size, leads PacketParse to the handler of that
      -- code, if there is one: it verifies the bytes of the message and no others, and, if they pass, is
      -- run once, the one for sub-headers, with the type, exactly if there is one. All of it fits in one
      -- packet.
      pub packet_parse-written :
          (sub : List ℕ) (s : S)
          → 1 ≤ code
          → code < 32
          → length buffer + length sub + 24 ≤ 1024
          → (sub ≡ []) ⊎ IsSubHeader sub
          → packet_parse echo handlers (packet sub) s
            ≡ handled (find_handler handlers code) buffer (get_or sub 0 0) (packet sub) s
      packet_parse-written sub s one small fits (inr v) = parse_sub sub s one small fits v
      packet_parse-written sub s one small fits (inl e) =
          subst
            (λ l.
              packet_parse echo handlers (packet l) s
              ≡ handled (find_handler handlers code) buffer (get_or l 0 0) (packet l) s)
            (sym e) (parse_plain s one small (omega (arith, fits)))
