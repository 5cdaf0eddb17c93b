-- ===== src/Sending/Sealed.antt =====
-- A packet of SendPacket (Session.cpp) that arrives at RecvFromComplete (RUDPSocket.cpp).
use dubuframework.Base.{
  ℕ, ◌+◌, ◌≤◌, ◌≡◌, refl, sym, ap, ◌∙◌, true, some, List, arith, inl, inr, ◌==◌, ltb, leb, length,
  Bool-cases, ==_iff, u16,
}
use dubuframework.Packet.{PacketHeader, Packet, PacketOpctions, packet_header_check}
use dubuframework.Wire.{packet_bytes, crc32}
use dubuframework.Socket.{Addr, Net, SocketHandler, with_checksum, on_buffer, hand_off, received}
use dubuframework.Sending.{written, seal}

module _ {S : Type 0} (crc_u32 crc_u8 : ℕ → ℕ → ℕ) (handler : SocketHandler S) (addr : Addr) (a : ℕ)
    (n : Net S) where
  abbrev put : Packet → Net S
  put p = on_buffer a (λ b. record b { packet = p }) n

  received_lem :
      (size : ℕ)
      → let p = (n.packets.buffers a).packet in
        packet_header_check size ≡ true
        → p.header.checksum ≡ crc32 crc_u32 crc_u8 (packet_bytes (with_checksum 0 p)) size
        → received crc_u32 crc_u8 (some handler) addr a size n
          ≡ handler.on_recv_from addr a size (put (with_checksum 0 p))
  unfolding received hand_off
  received_lem size checked sum =
      let p = (n.packets.buffers a).packet in
      let t : (p.header.checksum == crc32 crc_u32 crc_u8 (packet_bytes (with_checksum 0 p)) size)
          ≡ true =
        (==_iff _ _).1 sum in
      rw (checked, t) refl

  module _ (buffer : List ℕ) (code : ℕ) (opt : PacketOpctions) (sub : List ℕ)
      (session_id sequence_no now : ℕ) (old : PacketHeader) where
    abbrev packet : Packet
    packet = written buffer code opt sub session_id sequence_no now old

    seal-zeroed : with_checksum 0 (seal crc_u32 crc_u8 packet) ≡ packet
    unfolding seal written
    seal-zeroed = refl

    total-checked : length buffer + length sub + 24 ≤ 1024 → packet_header_check packet.size ≡ true
    unfolding written packet_header_check
    total-checked fits = elim (Bool-cases (ltb 0 (length sub))) [
      | inl on ↦
          let t : leb 24 (u16 (u16 (24 + length buffer) + length sub)) ≡ true = ground arith in
          rw (on, t) refl
      | inr off ↦
          let t : leb 24 (u16 (24 + length buffer)) ≡ true = ground arith in rw (off, t) refl
    ]

    seal-sum :
        (seal crc_u32 crc_u8 packet).header.checksum
        ≡ crc32 crc_u32 crc_u8 (packet_bytes packet) packet.size
    unfolding seal written
    seal-sum = refl

    -- If a message and its sub-header fit in a packet, the packet that SendPacket makes of them,
    -- with the checksum that it puts in, passes the tests of RecvFromComplete when it arrives as it
    -- was, and is handed to the handler with the checksum 0.
    pub seal-received :
        length buffer + length sub + 24 ≤ 1024
        → (n.packets.buffers a).packet ≡ seal crc_u32 crc_u8 packet
        → received crc_u32 crc_u8 (some handler) addr a packet.size n
          ≡ handler.on_recv_from addr a packet.size (put packet)
    seal-received fits at =
        let zeroed : with_checksum 0 (n.packets.buffers a).packet ≡ packet =
          ap (with_checksum 0) at ∙ seal-zeroed in
        let sum : (n.packets.buffers a).packet.header.checksum
            ≡ crc32 crc_u32 crc_u8 (packet_bytes (with_checksum 0 (n.packets.buffers a).packet))
                packet.size =
          ap (λ p. p.header.checksum) at
          ∙ (seal-sum ∙ ap (λ p. crc32 crc_u32 crc_u8 (packet_bytes p) packet.size) (sym zeroed)) in
        received_lem packet.size (total-checked fits) sum
        ∙ ap (λ p. handler.on_recv_from addr a packet.size (put p)) zeroed
