-- ===== src/Client/Receive.antt =====
-- The receiving half of Client.cpp and of InternalClient.cpp: OnRecvFrom with RecvDispatch,
-- RecvDispatchACK, PacketParse and Reset. RecvDispatch and RecvDispatchACK are the code of Session.cpp,
-- on the members that a client shares with a session. The logs are left out.
pub mod Close
pub mod Answer
mod Tests
use dubuframework.Base.{
  ℕ, zero, suc, ◌+◌, ◌/◌, ◌%◌, Bool, true, false, not, Option, none, some, List, [], ◌∷◌, ltb, leb,
  ◌==◌, if◌then◌else◌,
}
use dubuframework.Packet.{Packet, header_size}
use dubuframework.PacketState as State
use dubuframework.Host.{Host}
use dubuframework.CachePool.{CachePool}
use dubuframework.Pending as Window
use dubuframework.Chunk.{sub_header_size}
use dubuframework.Session as Streams
use dubuframework.Session.{Session, World}
use dubuframework.Session.Reset.{reset_channels}
use dubuframework.Session.Parse.{PacketHandler, packet_parse, run_handler, find_handler}
use dubuframework.Socket.{Net}
use dubuframework.Client as Connection
use dubuframework.Client.{Client, State}

-- What a client's functions work on, apart from the connection: the members that it shares with a
-- session, the cache buffers and all else.
pub record Inside (S : Type 0) : Type 0 where
  pub members : Session
  pub caches : CachePool
  pub host : S

-- `timestamp_` and `isConnect_` stand in both records; those of the connection are the ones that count.
abbrev pub members_of : {S : Type 0} → State (Inside S) → Session
members_of (c, n) = record n.host.members { timestamp = c.timestamp; is_connect = c.is_connect }

abbrev pub world_of : {S : Type 0} → Net (Inside S) → World S
world_of n = record { packets = n.packets; caches = n.host.caches; host = n.host.host }

abbrev pub inside : {S : Type 0} → Session → World S → Net (Inside S) → Net (Inside S)
inside s w n = record n {
  packets = w.packets;
  host = record { members = s; caches = w.caches; host = w.host };
}

-- Client::PacketParse: a packet of the code 0 is only logged.
abbrev pub client_parse : {S : Type 0} → Option (ℕ → Option (PacketHandler S)) → Packet → S → S
client_parse handlers p s = packet_parse (λ bytes s'. s') handlers p s

-- InternalClient::PacketParse has no branch for the code 0.
unfoldable pub internal_parse :
    {S : Type 0} → Option (ℕ → Option (PacketHandler S)) → Packet → S → S
internal_parse handlers p s =
    let sh_type = p.header.packet_code / 32 in
    let sub = sub_header_size p in
    run_handler (find_handler handlers (p.header.packet_code % 32)) sh_type sub (header_size + sub)
      p s

-- Reset, on the members that a client shares with a session
unfoldable pub reset_members : {S : Type 0} → ℕ → Session → World S → Session × World S
reset_members channel_mask s w =
    let (send, packets) = Window.reset s.rps_no.send w.packets in
    reset_channels (channel_mask + 1) 0
      (record s {
        is_connect = false;
        r_nops_no = State.reset s.r_nops_no;
        rps_no = record { recv = State.reset s.rps_no.recv; send = send };
      })
      (record w { packets = packets })

unfoldable pub reset_inside : {S : Type 0} → ℕ → Net (Inside S) → Net (Inside S)
reset_inside channel_mask n =
    let (s, w) = reset_members channel_mask n.host.members (world_of n) in inside s w n

abbrev pub inside_clock : {S : Type 0} → Host S → Inside S → ℕ × Inside S
inside_clock h i = let (now, host) = h.clock i.host in (now, record i { host = host })

-- RecvDispatch; `h` is PacketParse and the clock, and `channel_mask` is `g_channelMask`.
unfoldable pub client_recv_dispatch :
    {S : Type 0} → Host S → ℕ → Packet → State (Inside S) → State (Inside S) × Bool
client_recv_dispatch h channel_mask p (c, n) =
    let (s, w, ok) = Streams.recv_dispatch h channel_mask p (members_of (c, n)) (world_of n) in
    ((record c { timestamp = s.timestamp }, inside s w n), ok)

-- A channel is at most 7, so that with a mask of 7 there is always a result.
unfoldable pub ack_result :
    {S : Type 0} → Option (Session × World S × Bool) → State (Inside S) → State (Inside S)
ack_result none cn = cn
ack_result (some (s, w, ok)) (c, n) = (c, inside s w n)

-- `smooth` is the rounding of the round trip time.
module _ {S : Type 0} (h : Host S) (smooth : ℕ → ℕ → ℕ) (channel_mask : ℕ) where
  -- RecvDispatchACK; the clock is read in advance.
  unfoldable pub client_recv_dispatch_ack : Packet → State (Inside S) → State (Inside S)
  client_recv_dispatch_ack p (c, n) =
      let now = (h.clock n.host.host).0 in
      ack_result
        (Streams.recv_dispatch_ack smooth channel_mask now p (members_of (c, n)) (world_of n))
        (c, n)

  -- OnRecvFrom
  abbrev pub client_on_recv_from :
      (ℕ → ℕ → ℕ) → (ℕ → ℕ → ℕ) → ℕ → State (Inside S) → State (Inside S)
  client_on_recv_from crc_u32 crc_u8 =
      Connection.on_recv_from crc_u32 crc_u8 (inside_clock h) (reset_inside channel_mask)
        (client_recv_dispatch h channel_mask) client_recv_dispatch_ack

-- What RecvDispatch calls in either client; `clock` is GetRelativeTimeMs.
abbrev pub client_host : {S : Type 0} → Option (ℕ → Option (PacketHandler S)) → (S → ℕ × S) → Host S
client_host handlers clock = record { packet_parse = client_parse handlers; clock = clock }

abbrev pub internal_host :
    {S : Type 0} → Option (ℕ → Option (PacketHandler S)) → (S → ℕ × S) → Host S
internal_host handlers clock = record { packet_parse = internal_parse handlers; clock = clock }

-- RecvDispatch of InternalClient
abbrev pub internal_recv_dispatch :
    {S : Type 0}
    → Option (ℕ → Option (PacketHandler S))
    → (S → ℕ × S)
    → ℕ
    → Packet
    → State (Inside S)
    → State (Inside S) × Bool
internal_recv_dispatch handlers clock = client_recv_dispatch (internal_host handlers clock)
