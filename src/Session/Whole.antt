-- ===== src/Session/Whole.antt =====
-- RecvDispatch with a PacketParse that sends: the echo and the handlers of packets call SendPacket
-- (Session.cpp), which changes what the session keeps to send, and the packet buffers.
use dubuframework.Base.{ℕ, ◌≡◌, ◌≢◌, refl, ◌∙◌, Bool}
use dubuframework.Packet.{Packet}
use dubuframework.PacketManager.{PacketManager}
use dubuframework.Pending.{SendState}
use dubuframework.Host.{Host}
use dubuframework.Session.{Session, World, recv_dispatch}
use dubuframework.Session.Isolation.{Stream, stream_of, receiver, Isolated, recv_dispatch-Isolated}

-- What PacketParse works on: the sending halves of the channels and of the packets of no channel, the
-- packet buffers, and all else
pub record Talking (S : Type 0) : Type 0 where
  pub cache_sends : ℕ → SendState
  pub rps_send : SendState
  pub packets : PacketManager
  pub host : S

module _ {S : Type 0} where
  abbrev talking : Session → World S → World (Talking S)
  talking s w = record {
    packets = w.packets;
    caches = w.caches;
    host = record {
      cache_sends = s.cache_sends;
      rps_send = s.rps_no.send;
      packets = w.packets;
      host = w.host;
    };
  }

  -- The session with what it then keeps to send
  abbrev having_sent : Talking S → Session → Session
  having_sent t s = record s {
    cache_sends = t.cache_sends;
    rps_no = record s.rps_no { send = t.rps_send };
  }

  unfoldable pub recv_dispatch_whole :
      Host (Talking S) → ℕ → Packet → Session → World S → Session × World S × Bool
  recv_dispatch_whole h channel_mask p s w =
      let (s', w', ok) = recv_dispatch h channel_mask p s (talking s w) in
      let t = w'.host in
      (having_sent t s', record { packets = t.packets; caches = w'.caches; host = t.host }, ok)

  receiver_kept :
      (q : Stream) (t : Talking S) (s : Session) → receiver q (having_sent t s) ≡ receiver q s
  receiver_kept (Stream.channel id) t s = refl
  receiver_kept Stream.unordered t s = refl
  receiver_kept Stream.unreliable t s = refl

  -- RecvDispatch of a packet changes what the session keeps to receive of no other stream, whatever
  -- PacketParse sends.
  pub recv_dispatch_whole-Isolated :
      (h : Host (Talking S)) (channel_mask : ℕ) (p : Packet) (q : Stream) (s : Session)
      (w : World S)
      → q ≢ stream_of p.header.flags
      → Isolated q s (recv_dispatch_whole h channel_mask p s w).0
  unfolding recv_dispatch_whole
  recv_dispatch_whole-Isolated h channel_mask p q s w ne =
      let (s', w', ok) = recv_dispatch h channel_mask p s (talking s w) in
      receiver_kept q w'.host s' ∙ recv_dispatch-Isolated h channel_mask p q s (talking s w) ne
