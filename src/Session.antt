-- ===== src/Session.antt =====
-- The receiving entries of Session (Session.h, Session.cpp): RecvDispatch with all its branches,
-- RecvDispatchACK and RecvDispatchPong.
mod Isolation
mod Whole
mod Acks
pub mod Reset
pub mod Parse
mod Tests
use dubuframework.Base.{
  ℕ, ◌+◌, Bool, true, false, not, Option, none, some, ltb, ◌==◌, if◌then◌else◌, update, bit_and,
  succ32,
}
use dubuframework.Packet.{Packet, channel_of, has_flag}
use dubuframework.Packet.Flag
use dubuframework.PacketState.{RecvState}
use dubuframework.Host.{Host}
use dubuframework.CachePool.{CachePool}
use dubuframework.PacketManager.{PacketManager}
use dubuframework.Pending.{SendState, ack_process}
use dubuframework.Chunk.{ChunkPacketInj, Chunks, recv_chunck_packet}
use dubuframework.Channel as Ordered
use dubuframework.Channel.{CacheAlreadyPacket, Receiving}
use dubuframework.Unordered as Loose
use dubuframework.Unordered.{Unordered}
use dubuframework.Unreliable as Lossy
use dubuframework.Unreliable.{Unreliable}

-- struct ReliablePacketState, in its two halves
pub record ReliablePacketState : Type 0 where
  pub recv : RecvState
  pub send : SendState

-- class Session: the members that these functions use. `cache_sends` are the sending halves of the
-- channels.
pub record Session : Type 0 where
  pub is_connect : Bool
  pub timestamp : ℕ
  pub rtt_millisec : ℕ
  pub last_pong_seq : ℕ
  pub pong_count : ℕ
  pub r_nops_no : RecvState
  pub rps_no : ReliablePacketState
  pub cache_already_packets : ℕ → CacheAlreadyPacket
  pub cache_sends : ℕ → SendState
  pub chunck_pakcet_inj : ChunkPacketInj

-- What a session shares with the rest of the program: the two managers, and all else.
pub record World (S : Type 0) : Type 0 where
  pub packets : PacketManager
  pub caches : CachePool
  pub host : S

module _ {S : Type 0} (h : Host S) where
  -- The same calls, where the chunks are part of the state.
  abbrev pub chunks_host : Host (Chunks S)
  chunks_host = record {
    packet_parse = λ p c. record c { host = h.packet_parse p c.host };
    clock = λ c. let (now, host) = h.clock c.host in (now, record c { host = host });
  }

  -- The branch of a packet on channel `id`
  unfoldable pub dispatch_channel : ℕ → Packet → Session → World S → Session × World S × Bool
  dispatch_channel id p s w =
      let (r, ok) =
        Ordered.receive h p
          (record { cap = s.cache_already_packets id; caches = w.caches; host = w.host }) in
      (
        record s { cache_already_packets = update s.cache_already_packets id r.cap },
        record w { caches = r.caches; host = r.host },
        ok,
      )

  -- The branch of a reliable packet of no channel
  unfoldable pub dispatch_unordered : Packet → Session → World S → Session × World S × Bool
  dispatch_unordered p s w =
      let (u, ok) = Loose.receive chunks_host (recv_chunck_packet h) p (record {
        rps = s.rps_no.recv;
        host = record { inj = s.chunck_pakcet_inj; caches = w.caches; host = w.host };
      }) in
      (
        record s { rps_no = record s.rps_no { recv = u.rps }; chunck_pakcet_inj = u.host.inj },
        record w { caches = u.host.caches; host = u.host.host },
        ok,
      )

  -- The branch of a packet that is not resent
  unfoldable pub dispatch_unreliable : Packet → Session → World S → Session × World S × Bool
  dispatch_unreliable p s w =
      let (u, ok) = Lossy.receive h p (record { rps = s.r_nops_no; host = w.host }) in
      (record s { r_nops_no = u.rps }, record w { host = u.host }, ok)

  -- RecvDispatch; `channel_mask` is `g_channelMask`. It does not touch what the session keeps to send;
  -- what PacketParse does with it is in Session.Whole.
  unfoldable pub recv_dispatch : ℕ → Packet → Session → World S → Session × World S × Bool
  recv_dispatch channel_mask p s w =
      let flags = p.header.flags in
      let (now, host) = h.clock w.host in
      let s' : Session = record s { timestamp = now } in
      let w' : World S = record w { host = host } in
      if has_flag flags Flag.repeat
      then if ltb 0 (bit_and flags Flag.channel)
        then if ltb channel_mask (channel_of flags)
          then (s', w', false)
          else dispatch_channel (channel_of flags) p s' w'
        else dispatch_unordered p s' w'
      else dispatch_unreliable p s' w'

  -- RecvDispatchPong
  unfoldable pub recv_dispatch_pong : Packet → Session → World S → Session × World S × Bool
  recv_dispatch_pong p s w =
      let (now, host) = h.clock w.host in
      let s' : Session = record s { timestamp = now } in
      (
        if s'.last_pong_seq == p.header.sequence_no
            then record s' { pong_count = succ32 s'.pong_count }
            else s',
        record w { host = host },
        true,
      )

-- RecvDispatchACK. AckProcess reads the clock only if a packet waits; `now` is what it reads, and
-- `smooth` the rounding of the round trip time. A channel above `channel_mask` is out of the
-- vector's range, which the source does not test: the result is `none`.
module _ {S : Type 0} (smooth : ℕ → ℕ → ℕ) (channel_mask now : ℕ) where
  unfoldable pub recv_dispatch_ack : Packet → Session → World S → Option (Session × World S × Bool)
  recv_dispatch_ack p s w =
      let flags = p.header.flags in
      let id = channel_of flags in
      let (cs, crtt, cm) =
        ack_process smooth now p.header.sequence_no (s.cache_sends id) s.rtt_millisec w.packets in
      let (ss, srtt, sm) =
        ack_process smooth now p.header.sequence_no s.rps_no.send s.rtt_millisec w.packets in
      if not s.is_connect
      then some (s, w, false)
      else if ltb 0 (bit_and flags Flag.channel)
      then if ltb channel_mask id
        then none
        else some (
          record s { cache_sends = update s.cache_sends id cs; rtt_millisec = crtt },
          record w { packets = cm },
          true,
        )
      else some (
        record s { rps_no = record s.rps_no { send = ss }; rtt_millisec = srtt },
        record w { packets = sm },
        true,
      )
