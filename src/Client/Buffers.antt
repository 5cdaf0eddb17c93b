-- ===== src/Client/Buffers.antt =====
-- The packet buffers of OnRecvFrom and of RepeatPongMessage (Client.cpp).
use dubuframework.Base.{
  ℕ, ◌≡◌, refl, ◌∙◌, Bool, true, false, ◌∷◌, leb, if◌then◌else◌, ◌==◌, Bool-cases, inl, inr, ==_iff,
}
use dubuframework.Packet.{Packet, PacketHeader, has_flag}
use dubuframework.Packet.Flag
use dubuframework.PacketManager.{pop_packet_buffer}
use dubuframework.PacketManager.Invariant.{IsPool, pop-IsPool, push-IsPool}
use dubuframework.Socket.{Addr, Request, Net, send_to}
use dubuframework.Messages.{send_header, pong_header}
use dubuframework.Client.{
  Client, State, read_clock, disconnect, send_ack, repeat_pong_message, acknowledge, handle,
  on_recv_from,
}

-- The manager is well-formed, and buffer `a` is in use.
abbrev pub Holds : {S : Type 0} → ℕ → Net S → Type 0
Holds a n = IsPool n.packets × (n.packets.use_list a ≡ true)

module _ {S : Type 0} (crc_u32 crc_u8 : ℕ → ℕ → ℕ) where
  pop-Holds :
      (a : ℕ) (n : Net S)
      → Holds a n
      → IsPool (pop_packet_buffer n.packets).0 × ((pop_packet_buffer n.packets).0.use_list a ≡ true)
  pop-Holds a n (v, used) =
      let (pool, fresh, uses) = pop-IsPool v in
      let b = (pop_packet_buffer n.packets).1 in
      (
        pool,
        elim (Bool-cases (b == a)) [
          | inl on ↦ rw on at (uses a)
          | inr off ↦ let e = uses a in (rw off at e) ∙ used
        ],
      )

  send_header-Holds :
      (fill : PacketHeader → PacketHeader) (target : Addr) (a : ℕ) (n : Net S)
      → Holds a n
      → Holds a (send_header crc_u32 crc_u8 fill target n)
  unfolding send_header send_to
  send_header-Holds fill target a n h =
      let (pool, used) = pop-Holds a n h in (record { once = pool.once }, used)

  repeat_pong-Holds :
      (seq a : ℕ) (c : Client) (n : Net S)
      → Holds a n
      → Holds a (repeat_pong_message crc_u32 crc_u8 seq (c, n)).1
  unfolding repeat_pong_message
  repeat_pong-Holds seq a c n h = elim (Bool-cases (leb c.last_pong_seq seq)) [
    | inl on ↦ rw on (send_header-Holds (pong_header c.client_id seq) c.addr a n h)
    | inr off ↦ rw off (pop-Holds a n h)
  ]

  -- What PopPacketBuffer takes is in use.
  pop-used :
      (n : Net S)
      → IsPool n.packets
      → let (m, a) = pop_packet_buffer n.packets in
        (n.packets.use_list a ≡ false) × (m.use_list a ≡ true)
  pop-used n v =
      let (pool, fresh, uses) = pop-IsPool v in
      let a = (pop_packet_buffer n.packets).1 in
      (fresh, let t : (a == a) ≡ true = (==_iff a a).1 refl in rw t at (uses a))

  -- RepeatPongMessage takes a free buffer in any case, which is in use afterwards, but requests its
  -- send only if the ping is not older than the last one: for an older ping nothing is sent, and
  -- the buffer is with nobody.
  repeat_pong_message-use_list :
      (seq : ℕ) (c : Client) (n : Net S)
      → IsPool n.packets
      → let n' = (repeat_pong_message crc_u32 crc_u8 seq (c, n)).1 in
        let a = (pop_packet_buffer n.packets).1 in
        (n.packets.use_list a ≡ false)
        × (n'.packets.use_list a ≡ true)
        × (n'.requests
            ≡ (if leb c.last_pong_seq seq then Request.send c.addr a ∷ n.requests else n.requests))
  unfolding repeat_pong_message send_header send_to
  repeat_pong_message-use_list seq c n v =
      let (free, used) = pop-used n v in
      elim (Bool-cases (leb c.last_pong_seq seq)) [
        | inl on ↦ rw on (free, used, refl)
        | inr off ↦ rw off (free, used, refl)
      ]

  module _ (clock : S → ℕ × S) (reset : Net S → Net S)
      (recv_dispatch : Packet → State S → State S × Bool)
      (recv_dispatch_ack : Packet → State S → State S)
      (resets : (a : ℕ) (n : Net S) → Holds a n → Holds a (reset n))
      (dispatches : (a : ℕ) (p : Packet) (c : Client) (n : Net S)
        → Holds a n
        → Holds a (recv_dispatch p (c, n)).0.1)
      (acks : (a : ℕ) (p : Packet) (c : Client) (n : Net S)
        → Holds a n
        → Holds a (recv_dispatch_ack p (c, n)).1) where
    acknowledge-Holds :
        (a : ℕ) (p : Packet) (c : Client) (n : Net S)
        → Holds a n
        → Holds a
            (acknowledge crc_u32 crc_u8 clock reset recv_dispatch recv_dispatch_ack p
              (recv_dispatch p (c, n))).1
    unfolding acknowledge send_ack
    acknowledge-Holds a p c n h = elim (Bool-cases (recv_dispatch p (c, n)).1) [
      | inr off ↦ rw off (dispatches a p c n h)
      | inl on ↦ rw on (send_header-Holds _ _ a _ (dispatches a p c n h))
    ]

    handle-Holds :
        (a : ℕ) (p : Packet) (c : Client) (n : Net S)
        → Holds a n
        → Holds a (handle crc_u32 crc_u8 clock reset recv_dispatch recv_dispatch_ack p (c, n)).1
    unfolding handle disconnect
    handle-Holds a p c n h =
        let flags = p.header.flags in
        elim (Bool-cases (flags == Flag.session)) [
          | inl s ↦ rw s h
          | inr s ↦ elim (Bool-cases (flags == Flag.ping)) [
            | inl i ↦ rw (s, i) (repeat_pong-Holds p.header.sequence_no a c n h)
            | inr i ↦ elim (Bool-cases (flags == Flag.disconnect)) [
              | inl d ↦ rw (s, i, d) (resets a _ (send_header-Holds _ _ a n h))
              | inr d ↦ elim (Bool-cases (flags == Flag.none)) [
                | inl z ↦ rw (s, i, d, z) (dispatches a p c n h)
                | inr z ↦ elim (Bool-cases (has_flag flags Flag.repeat)) [
                  | inl r ↦ rw (s, i, d, z, r) (acknowledge-Holds a p c n h)
                  | inr r ↦ elim (Bool-cases (has_flag flags Flag.ack)) [
                    | inl k ↦ rw (s, i, d, z, r, k) (acks a p c n h)
                    | inr k ↦ rw (s, i, d, z, r, k) h
                  ]
                ]
              ]
            ]
          ]
        ]

    -- If Reset and the two receivers keep the manager well-formed and a buffer in use that is, then
    -- OnRecvFrom gives the buffer of the packet back, whatever its flags are, and the manager stays
    -- well-formed: no branch sends the buffer or gives it back as well.
    pub on_recv_from-IsPool :
        (a : ℕ) (c : Client) (n : Net S)
        → IsPool n.packets
        → n.packets.use_list a ≡ true
        → let (c', n') =
            on_recv_from crc_u32 crc_u8 clock reset recv_dispatch recv_dispatch_ack a (c, n) in
          IsPool n'.packets × (n'.packets.use_list a ≡ false)
    unfolding on_recv_from
    on_recv_from-IsPool a c n v used =
        let (now, n1) = read_clock clock n in
        let (pool, held) =
          handle-Holds a (n.packets.buffers a).packet (record c { timestamp = now }) n1 (v, used) in
        push-IsPool a pool held
