-- ===== src/Worker.antt =====
-- SessionWorker::ProcessPacket (SessionWorker.cpp), from where the session of a packet is found on:
-- what is done with the packet, by its flags.
mod Acks
mod Tests
use dubuframework.Base.{ℕ, Bool, true, false, Option, none, some, ◌==◌, if◌then◌else◌}
use dubuframework.Packet.{Packet, PacketOpctions, channel_of, has_flag}
use dubuframework.Packet.Flag
use dubuframework.Host.{Host}
use dubuframework.Session.{Session, World, recv_dispatch, recv_dispatch_ack, recv_dispatch_pong}

-- The branches of the chain of tests
pub data Handling : Type 0 where
  pong : Handling
  ping : Handling
  plain : Handling
  reliable : Handling
  ack : Handling
  ignored : Handling

unfoldable pub handling : ℕ → Handling
handling flags =
    if flags == Flag.pong
    then Handling.pong
    else if flags == Flag.ping
    then Handling.ping
    else if flags == Flag.none
    then Handling.plain
    else if has_flag flags Flag.repeat
    then Handling.reliable
    else if has_flag flags Flag.ack
    then Handling.ack
    else Handling.ignored

-- The options of an acknowledgement, from the flags of the packet
abbrev pub ack_options : ℕ → PacketOpctions
ack_options flags =
    let opt : PacketOpctions = record {
      reliable = true;
      order = false;
      channel_id = 0;
      is_chunck = false;
      chunck_flag = 0;
      chunck_total = 0;
    } in
    if has_flag flags Flag.channel
    then record opt { order = true; channel_id = channel_of flags }
    else opt

-- `send_ack` is Server::SendAck; `now` is the time at which an acknowledgement is processed.
module _ {S : Type 0} (h : Host S) (send_ack : ℕ → PacketOpctions → S → S) (smooth : ℕ → ℕ → ℕ)
    (channel_mask now : ℕ) where
  -- After RecvDispatch: the packet is acknowledged if the answer is true.
  unfoldable pub answer : Packet → Session × World S × Bool → Session × World S
  answer p (s, w, ok) = (
    s,
    if ok
        then record w { host = send_ack p.header.sequence_no (ack_options p.header.flags) w.host }
        else w,
  )

  drop_result : Session × World S → Option (Session × World S × Bool) → Option (Session × World S)
  drop_result same none = none
  drop_result same (some (s, w, ok)) = some (s, w)

  unfoldable pub process_as : Handling → Packet → Session → World S → Option (Session × World S)
  unfolding drop_result
  process_as Handling.pong p s w = drop_result (s, w) (some (recv_dispatch_pong h p s w))
  process_as Handling.ping p s w = some (s, w)
  process_as Handling.plain p s w = drop_result (s, w) (some (recv_dispatch h channel_mask p s w))
  process_as Handling.reliable p s w = some (answer p (recv_dispatch h channel_mask p s w))
  process_as Handling.ack p s w =
      drop_result (s, w) (recv_dispatch_ack smooth channel_mask now p s w)
  process_as Handling.ignored p s w = some (s, w)

  -- From `session->SetTimestamp` on. `none` is an access out of range.
  unfoldable pub process_known : Packet → Session → World S → Option (Session × World S)
  process_known p s w =
      let (time, host) = h.clock w.host in
      process_as (handling p.header.flags) p (record s { timestamp = time })
        (record w { host = host })
