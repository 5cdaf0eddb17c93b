-- ===== src/Socket/Receive.antt =====
-- RecvFromComplete (RUDPSocket.cpp) for a datagram that is not accepted.
use dubuframework.Base.{
  ℕ, ◌≡◌, ◌≢◌, refl, sym, ap, subst, ◌∙◌, Bool, true, false, ◌&&◌, Option, none, some, ◌∷◌, ◌==◌,
  inl, inr, update, update_self, update_ne, Bool-cases, u16,
}
use native.Mathlib.Decide.{ℕ_discrete}
use dubuframework.Packet.{packet_header_check, packet_max_size}
use dubuframework.PacketManager.{set_type, pop_from, pop_packet_buffer, push_packet_buffer}
use dubuframework.Wire.{packet_bytes, crc32}
use dubuframework.Socket.{
  Addr, Request, Net, SocketHandler, no_flags, with_checksum, on_buffer, push, recv_from, received,
  recv_from_complete,
}

module _ {S : Type 0} where
  -- Nothing is different but the flags and the header of buffer `a`, and a request to receive.
  pub record Again (a : ℕ) (n n' : Net S) : Type 0 where
    pub requests : n'.requests ≡ Request.recv a ∷ n.requests
    pub list : n'.packets.list ≡ n.packets.list
    pub used : (b : ℕ) → n'.packets.use_list b ≡ n.packets.use_list b
    pub next : n'.packets.next ≡ n.packets.next
    pub buffers : (b : ℕ) → a ≢ b → n'.packets.buffers b ≡ n.packets.buffers b
    pub host : n'.host ≡ n.host

  -- A buffer that is given back is the next one to receive.
  push-Again :
      (a : ℕ) (n n' : Net S)
      → n.packets.use_list a ≡ true
      → n'.requests ≡ n.requests
      → n'.host ≡ n.host
      → n'.packets.list ≡ n.packets.list
      → n'.packets.use_list ≡ n.packets.use_list
      → n'.packets.next ≡ n.packets.next
      → ((b : ℕ) → a ≢ b → n'.packets.buffers b ≡ n.packets.buffers b)
      → Again a n (recv_from (push a n'))
  unfolding recv_from pop_packet_buffer pop_from push_packet_buffer
  push-Again a n n' used requests host list uses next buffers =
      let freed = update n'.packets.use_list a false in
      let popped = (pop_packet_buffer (push a n').packets).0.buffers in
      let old = n'.packets.buffers in
      record {
        requests = ap (λ r. Request.recv a ∷ r) requests;
        list = list;
        used = λ b. elim (ℕ_discrete a b) [
          | yes e ↦
              subst (λ c. update freed a true c ≡ n.packets.use_list c) e
                (update_self freed a true ∙ sym used)
          | no ne ↦
              update_ne freed a true b ne
              ∙ (update_ne n'.packets.use_list a false b ne ∙ ap (λ f. f b) uses)
        ];
        next = next;
        buffers = λ b ne.
            update_ne popped a (set_type (record no_flags { recvefrom = true }) (popped a)) b ne
            ∙ (update_ne old a
                  (record (old a) { packet = record (old a).packet { size = packet_max_size } }) b
                  ne
                ∙ buffers b ne);
        host = host;
      }

  module _ (crc_u32 crc_u8 : ℕ → ℕ → ℕ) (handler : Option (SocketHandler S)) (addr : Addr) (a : ℕ)
      (n : Net S) where
    -- The datagram has a header, and the checksum in it is that of the rest.
    abbrev pub is_sound : Option ℕ → Bool
    is_sound none = false
    is_sound (some size) =
        let p = (n.packets.buffers a).packet in
        packet_header_check (u16 size)
        && (p.header.checksum == crc32 crc_u32 crc_u8 (packet_bytes (with_checksum 0 p)) (u16 size))

    -- A completion that failed, a datagram that is too short for a header, and one whose checksum is
    -- wrong reach no handler: the same buffer is registered to receive again, and the manager and
    -- the other buffers are as before.
    pub recv_from_complete-refused :
        (size : Option ℕ)
        → n.packets.use_list a ≡ true
        → is_sound size ≡ false
        → Again a n (recv_from_complete crc_u32 crc_u8 handler addr a size n)
    unfolding recv_from_complete received
    recv_from_complete-refused none used bad =
        push-Again a n n used refl refl refl refl refl (λ b ne. refl)
    recv_from_complete-refused (some size) used bad =
        let p = (n.packets.buffers a).packet in
        let zeroed = on_buffer a (λ b. record b { packet = with_checksum 0 p }) n in
        elim (Bool-cases (packet_header_check (u16 size))) [
          | inr short ↦ rw short (push-Again a n n used refl refl refl refl refl (λ b ne. refl))
          | inl long ↦
              let wrong : (p.header.checksum
                    == crc32 crc_u32 crc_u8 (packet_bytes (with_checksum 0 p)) (u16 size))
                  ≡ false =
                rw long at bad in
              rw (long, wrong)
                (push-Again a n zeroed used refl refl refl refl refl (λ b ne.
                  update_ne n.packets.buffers a
                    (record (n.packets.buffers a) { packet = with_checksum 0 p }) b ne))
        ]
