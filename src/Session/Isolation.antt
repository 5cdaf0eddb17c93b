-- ===== src/Session/Isolation.antt =====
-- What a packet of one stream leaves of the others.
use dubuframework.Base.{
  ℕ, ◌≡◌, ◌≢◌, refl, sym, ap, ◌∙◌, inl, inr, false, Bool-cases, ltb, if◌then◌else◌, update_ne,
  bit_and,
}
use dubuframework.Packet.{Packet, channel_of, has_flag}
use dubuframework.Packet.Flag
use dubuframework.PacketState.{RecvState}
use dubuframework.Host.{Host}
use dubuframework.Channel.{CacheAlreadyPacket}
use dubuframework.Chunk.{ChunkPacketInj}
use dubuframework.Session.{
  Session, World, dispatch_channel, dispatch_unordered, dispatch_unreliable, recv_dispatch,
}

-- The streams of packets between two peers.
pub data Stream : Type 0 where
  channel : (id : ℕ) → Stream
  unordered : Stream
  unreliable : Stream

-- The stream of a packet, by its flags
abbrev pub stream_of : ℕ → Stream
stream_of flags =
    if has_flag flags Flag.repeat
    then if ltb 0 (bit_and flags Flag.channel)
      then Stream.channel (channel_of flags)
      else Stream.unordered
    else Stream.unreliable

-- What a session keeps of a stream to receive it.
abbrev pub Receiver : Stream → Type 0
Receiver (Stream.channel id) = CacheAlreadyPacket
Receiver Stream.unordered = RecvState × ChunkPacketInj
Receiver Stream.unreliable = RecvState

abbrev pub receiver : (q : Stream) → Session → Receiver q
receiver (Stream.channel id) s = s.cache_already_packets id
receiver Stream.unordered s = (s.rps_no.recv, s.chunck_pakcet_inj)
receiver Stream.unreliable s = s.r_nops_no

abbrev pub Isolated : Stream → Session → Session → Type 0
Isolated q s s' = receiver q s' ≡ receiver q s

module _ {S : Type 0} (h : Host S) where
  channel-Isolated :
      (id : ℕ) (p : Packet) (q : Stream) (s : Session) (w : World S)
      → q ≢ Stream.channel id
      → Isolated q s (dispatch_channel h id p s w).0
  unfolding dispatch_channel
  channel-Isolated id p (Stream.channel j) s w ne =
      let other : id ≢ j = λ e. ne (ap Stream.channel (sym e)) in
      update_ne s.cache_already_packets id _ j other
  channel-Isolated id p Stream.unordered s w ne = refl
  channel-Isolated id p Stream.unreliable s w ne = refl

  unordered-Isolated :
      (p : Packet) (q : Stream) (s : Session) (w : World S)
      → q ≢ Stream.unordered
      → Isolated q s (dispatch_unordered h p s w).0
  unfolding dispatch_unordered
  unordered-Isolated p (Stream.channel j) s w ne = refl
  unordered-Isolated p Stream.unordered s w ne = absurd (ne refl)
  unordered-Isolated p Stream.unreliable s w ne = refl

  unreliable-Isolated :
      (p : Packet) (q : Stream) (s : Session) (w : World S)
      → q ≢ Stream.unreliable
      → Isolated q s (dispatch_unreliable h p s w).0
  unfolding dispatch_unreliable
  unreliable-Isolated p (Stream.channel j) s w ne = refl
  unreliable-Isolated p Stream.unordered s w ne = refl
  unreliable-Isolated p Stream.unreliable s w ne = absurd (ne refl)

  abbrev stamped : Session → World S → Session
  stamped s w = record s { timestamp = (h.clock w.host).0 }

  abbrev woken : World S → World S
  woken w = record w { host = (h.clock w.host).1 }

  stamped-Isolated : (q : Stream) (s : Session) (w : World S) → Isolated q s (stamped s w)
  stamped-Isolated (Stream.channel j) s w = refl
  stamped-Isolated Stream.unordered s w = refl
  stamped-Isolated Stream.unreliable s w = refl

  after : (q : Stream) (a b c : Session) → Isolated q a b → Isolated q b c → Isolated q a c
  after q a b c first second = second ∙ first

  -- RecvDispatch of a packet changes what the session keeps to receive of no other stream.
  pub recv_dispatch-Isolated :
      (channel_mask : ℕ) (p : Packet) (q : Stream) (s : Session) (w : World S)
      → q ≢ stream_of p.header.flags
      → Isolated q s (recv_dispatch h channel_mask p s w).0
  unfolding recv_dispatch
  recv_dispatch-Isolated channel_mask p q s w ne =
      let flags = p.header.flags in
      let stamp = stamped-Isolated q s w in
      elim (Bool-cases (has_flag flags Flag.repeat)) [
        | inr off ↦
            let e : recv_dispatch h channel_mask p s w
                ≡ dispatch_unreliable h p (stamped s w) (woken w) =
              rw off refl in
            rw e (
              after q s (stamped s w) _ stamp
                (unreliable-Isolated p q (stamped s w) (woken w) (rw off at ne)))
        | inl on ↦ elim (Bool-cases (ltb 0 (bit_and flags Flag.channel))) [
          | inr none_set ↦
              let e : recv_dispatch h channel_mask p s w
                  ≡ dispatch_unordered h p (stamped s w) (woken w) =
                rw (on, none_set) refl in
              rw e (
                after q s (stamped s w) _ stamp
                  (unordered-Isolated p q (stamped s w) (woken w) (rw (on, none_set) at ne)))
          | inl set ↦ elim (Bool-cases (ltb channel_mask (channel_of flags))) [
            | inl beyond ↦
                let e : recv_dispatch h channel_mask p s w ≡ (stamped s w, woken w, false) =
                  rw (on, set, beyond) refl in
                rw e stamp
            | inr fits ↦
                let e : recv_dispatch h channel_mask p s w
                    ≡ dispatch_channel h (channel_of flags) p (stamped s w) (woken w) =
                  rw (on, set, fits) refl in
                rw e (
                  after q s (stamped s w) _ stamp (
                    channel-Isolated (channel_of flags) p q (stamped s w) (woken w)
                      (rw (on, set) at ne)))
          ]
        ]
      ]
