-- ===== src/Client/Receive/Close.antt =====
-- What a client does with a packet of the flag DISCONNECT.
use dubuframework.Base.{ℕ, ◌≡◌, refl, sym, subst, false}
use dubuframework.Session.Reset.{reset}
use dubuframework.Session.Reset.Fresh.{IsReset, reset-IsReset}
use dubuframework.Session.{Session, World}
use dubuframework.Host.{Host}
use dubuframework.Packet.Flag
use dubuframework.Socket.{Net, push}
use dubuframework.Messages.{send_header, disconnect_header}
use dubuframework.Client.{Client, State, read_clock, handle, disconnect}
use dubuframework.Client as Connection
use dubuframework.Client.Receive.{
  Inside, world_of, inside_clock, reset_members, reset_inside, client_on_recv_from,
}

-- A client's Reset does what a session's does, but for the time and the round trip time, which it leaves.
reset_members_lem :
    {S : Type 0} (channel_mask : ℕ) (s : Session) (w : World S)
    → reset_members channel_mask s w ≡ reset channel_mask s.rtt_millisec s.timestamp s w
unfolding reset_members reset
reset_members_lem channel_mask s w = refl

module _ {S : Type 0} (h : Host S) (smooth : ℕ → ℕ → ℕ) (channel_mask : ℕ)
    (crc_u32 crc_u8 : ℕ → ℕ → ℕ) where
  -- The state when DisconnectMessage has sent its packet
  abbrev pub said : State (Inside S) → Net (Inside S)
  said (c, n) =
      send_header crc_u32 crc_u8 (disconnect_header c.client_id 0) c.addr
        (read_clock (inside_clock h) n).1

  -- To a packet of the flag DISCONNECT a client answers with one of its own and closes the connection;
  -- then it gives the buffer of the packet back. Every stream is as at the start, with no packet kept
  -- ahead: each slot that kept a packet is blank, and each other slot is as it was. The buffers of all
  -- windows are released and those of all kept packets given back, once each; the parts of messages
  -- that are not complete stay.
  pub on_recv_from-IsReset :
      (a : ℕ) (c : Client) (n : Net (Inside S))
      → (n.packets.buffers a).packet.header.flags ≡ Flag.disconnect
      → let (c', n') = client_on_recv_from h smooth channel_mask crc_u32 crc_u8 a (c, n) in
        let left = reset_inside channel_mask (said (c, n)) in
        (c'.is_connect ≡ false)
        × (n' ≡ push a left)
        × IsReset channel_mask
            (said (c, n)).host.members
            (world_of (said (c, n)))
            left.host.members
            (world_of left)
  unfolding Connection.on_recv_from handle disconnect reset_inside
  on_recv_from-IsReset a c n flag =
      let s = (said (c, n)).host.members in
      let w = world_of (said (c, n)) in
      let left =
        subst (λ r. IsReset channel_mask s w r.0 r.1) (sym (reset_members_lem channel_mask s w))
          (reset-IsReset channel_mask s.rtt_millisec s.timestamp s w) in
      rw flag (refl, refl, left)
