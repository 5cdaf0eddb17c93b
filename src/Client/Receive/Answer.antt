-- ===== src/Client/Receive/Answer.antt =====
-- What a client does with a packet of an ordered channel.
use dubuframework.Base.{
  ℕ, ◌≤◌, ◌≡◌, ◌≢◌, refl, Bool, true, List, ltb, if◌then◌else◌, ne→==, le→ltb, update, bit_and,
}
use dubuframework.Packet.{Packet, channel_of, has_flag}
use dubuframework.Packet.Flag
use dubuframework.Host.{Host, IsLog}
use dubuframework.Sequence.{IsStream, IsNear}
use dubuframework.Window.{in_window}
use dubuframework.Channel.{Receiving, receive}
use dubuframework.Channel.Ahead.{IsWindow}
use dubuframework.Channel.Next.{Outcome}
use dubuframework.Channel.Delivery.{receive-Result}
use dubuframework.Session.{recv_dispatch, dispatch_channel}
use dubuframework.Socket.{Net, push}
use dubuframework.Worker.{ack_options}
use dubuframework.Client.{Client, State, acknowledge, handle, send_ack}
use dubuframework.Client as Connection
use dubuframework.Client.Receive.{
  Inside, inside, inside_clock, reset_inside, client_recv_dispatch, client_recv_dispatch_ack,
  client_on_recv_from,
}

module _ {S : Type 0} (h : Host S) (id : ℕ) (c : Client) (n : Net (Inside S)) where
  -- The clock is read twice before the packet is looked at.
  abbrev pub entered : ℕ × S
  entered = h.clock (h.clock n.host.host).1

  -- What the client keeps of the channel, as the state of its receiver
  abbrev pub receiving : Receiving S
  receiving = record {
    cap = n.host.members.cache_already_packets id;
    caches = n.host.caches;
    host = entered.1;
  }

  -- The client when its channel is that of `r`
  abbrev pub received : Receiving S → State (Inside S)
  received r = (
    record c { timestamp = entered.0 },
    inside
        (record n.host.members {
          timestamp = entered.0;
          is_connect = c.is_connect;
          cache_already_packets = update n.host.members.cache_already_packets id r.cap;
        })
        (record { packets = n.packets; caches = r.caches; host = r.host }) n,
  )

module _ {S : Type 0} (h : Host S) (smooth : ℕ → ℕ → ℕ) (channel_mask : ℕ)
    (crc_u32 crc_u8 : ℕ → ℕ → ℕ) where
  -- A packet whose REPEAT flag is set goes to RecvDispatch and may be acknowledged.
  handle-reliable :
      (p : Packet) (cn : State (Inside S))
      → has_flag p.header.flags Flag.repeat ≡ true
      → p.header.flags ≢ Flag.disconnect
      → handle crc_u32 crc_u8
          (inside_clock h)
          (reset_inside channel_mask)
          (client_recv_dispatch h channel_mask)
          (client_recv_dispatch_ack h smooth channel_mask)
          p
          cn
        ≡ acknowledge crc_u32 crc_u8
            (inside_clock h)
            (reset_inside channel_mask)
            (client_recv_dispatch h channel_mask)
            (client_recv_dispatch_ack h smooth channel_mask)
            p
            (client_recv_dispatch h channel_mask p cn)
  unfolding handle
  handle-reliable p cn on c =
      let flags = p.header.flags in
      let a : flags ≢ Flag.session = λ e. cc (rw e at on) in
      let b : flags ≢ Flag.ping = λ e. cc (rw e at on) in
      let d : flags ≢ Flag.none = λ e. cc (rw e at on) in
      rw
        (
          ne→== flags Flag.session a,
          ne→== flags Flag.ping b,
          ne→== flags Flag.disconnect c,
          ne→== flags Flag.none d,
          on,
        )
        refl

  module _ (id : ℕ) (c : Client) (n : Net (Inside S)) where
    dispatch_on :
        (p : Packet)
        → has_flag p.header.flags Flag.repeat ≡ true
        → ltb 0 (bit_and p.header.flags Flag.channel) ≡ true
        → channel_of p.header.flags ≡ id
        → id ≤ channel_mask
        → let (now, host) = h.clock n.host.host in
          let n1 : Net (Inside S) = record n { host = record n.host { host = host } } in
          let (r, ok) = receive h p (receiving h id c n) in
          client_recv_dispatch h channel_mask p (record c { timestamp = now }, n1)
          ≡ (received h id c n r, ok)
    unfolding client_recv_dispatch recv_dispatch dispatch_channel
    dispatch_on p on channel is le = rw (on, channel, is, le→ltb channel_mask id le) refl

  -- The acknowledgement of the packet `p`, if there is to be one
  abbrev pub answered : Bool → Packet → State (Inside S) → State (Inside S)
  answered ok p cn =
      if ok
      then send_ack crc_u32 crc_u8 (inside_clock h) p.header.sequence_no
          (ack_options p.header.flags) cn
      else cn

  module _ (msg : ℕ → Packet) (stream : IsStream msg) (seen : S → List Packet) (laws : IsLog h seen)
      (got : ℕ → Bool) where
    -- A client acknowledges a packet of an ordered channel exactly if its message is at most 63 behind
    -- or ahead of what the channel has received, new or repeated; what the message makes ready is
    -- parsed, in order, and the channel's state stays a window. Then the buffer of the packet is given
    -- back. The packet is reliable and of the channel, it is no DISCONNECT, and the message is near enough
    -- to the window.
    pub on_recv_from-answers :
        {k w : ℕ} (id a m : ℕ) (c : Client) (n : Net (Inside S))
        → (n.packets.buffers a).packet ≡ msg m
        → has_flag (msg m).header.flags Flag.repeat ≡ true
        → (msg m).header.flags ≢ Flag.disconnect
        → ltb 0 (bit_and (msg m).header.flags Flag.channel) ≡ true
        → channel_of (msg m).header.flags ≡ id
        → id ≤ channel_mask
        → IsWindow msg got 2 k w (n.host.members.cache_already_packets id)
        → IsNear k m
        → let (r, ok) = receive h (msg m) (receiving h id c n) in
          let (c', n') = answered (in_window k m) (msg m) (received h id c n r) in
          (client_on_recv_from h smooth channel_mask crc_u32 crc_u8 a (c, n) ≡ (c', push a n'))
          × Outcome msg seen
              (if in_window k m then update got m true else got)
              k
              (receiving h id c n)
              r
    unfolding Connection.on_recv_from acknowledge
    on_recv_from-answers {k} {w} id a m c n at on apart channel is le v near =
        let (verdict, out) =
          receive-Result h msg stream seen laws got (receiving h id c n) v m near in
        let (now, host) = h.clock n.host.host in
        let n1 : Net (Inside S) = record n { host = record n.host { host = host } } in
        let d = dispatch_on id c n (msg m) on channel is le in
        let e = handle-reliable (msg m) (record c { timestamp = now }, n1) on apart in
        (rw (at, e, d, verdict) refl, out)
