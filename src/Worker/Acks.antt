-- ===== src/Worker/Acks.antt =====
-- Which packets a worker acknowledges.
use dubuframework.Base.{
  ℕ, ◌≡◌, ◌≢◌, refl, ◌∙◌, Bool, true, false, some, ltb, ne→==, if◌then◌else◌, bit_and,
}
use dubuframework.Packet.{Packet, PacketOpctions, has_flag}
use dubuframework.Packet.Flag
use dubuframework.Host.{Host}
use dubuframework.Sequence.{IsStream, IsNear}
use dubuframework.Window.{in_window}
use dubuframework.Chunk.{Chunks, recv_chunck_packet}
use dubuframework.Unordered.{Unordered}
use dubuframework.Unordered.Spec.{Spec, spec_step}
use dubuframework.Unordered.Paths.{Refines, handle}
use dubuframework.Unordered.Exact.{receive-Exact}
use dubuframework.Session.{Session, World, chunks_host, dispatch_unordered, recv_dispatch}
use dubuframework.Worker.{Handling, handling, ack_options, answer, process_as, process_known}

-- A packet whose REPEAT flag is set goes to RecvDispatch and may be acknowledged.
handling-reliable :
    (flags : ℕ) → has_flag flags Flag.repeat ≡ true → handling flags ≡ Handling.reliable
unfolding handling
handling-reliable flags on =
    let a : flags ≢ Flag.pong = λ e. cc (rw e at on) in
    let b : flags ≢ Flag.ping = λ e. cc (rw e at on) in
    let c : flags ≢ Flag.none = λ e. cc (rw e at on) in
    rw (ne→== flags Flag.pong a, ne→== flags Flag.ping b, ne→== flags Flag.none c, on) refl

-- What a session keeps of its unordered packets, as the state of their receiver.
abbrev pub loose : {S : Type 0} → Session → World S → Unordered (Chunks S)
loose s w = record {
  rps = s.rps_no.recv;
  host = record { inj = s.chunck_pakcet_inj; caches = w.caches; host = w.host };
}

-- The clock is read twice before the packet is looked at.
abbrev pub entered : {S : Type 0} → Host S → Session → World S → Session × World S
entered h s w =
    let (time, host) = h.clock w.host in
    let (time', host') = h.clock host in (record s { timestamp = time' }, record w { host = host' })

-- The reply to a packet
abbrev pub replied : {S : Type 0} → (ℕ → PacketOpctions → S → S) → Bool → Packet → World S → World S
replied send_ack ok p w =
    if ok
    then record w { host = send_ack p.header.sequence_no (ack_options p.header.flags) w.host }
    else w

module _ {S : Type 0} (h : Host S) (send_ack : ℕ → PacketOpctions → S → S) (smooth : ℕ → ℕ → ℕ)
    (channel_mask now : ℕ) where
  dispatch_loose :
      (p : Packet) (s : Session) (w : World S)
      → has_flag p.header.flags Flag.repeat ≡ true
      → ltb 0 (bit_and p.header.flags Flag.channel) ≡ false
      → process_known h send_ack smooth channel_mask now p s w
        ≡ some (
            answer h send_ack smooth channel_mask now p
              (dispatch_unordered h p (entered h s w).0 (entered h s w).1))
  unfolding process_known process_as recv_dispatch
  dispatch_loose p s w on no_channel = rw (handling-reliable p.header.flags on, on, no_channel) refl

  -- A worker acknowledges a reliable packet of no channel exactly if its message lies within the
  -- window round what has been received, new or repeated, and the session goes on refining the
  -- specification by which each message is handled once. The message is near enough to the window.
  pub process_known-acks :
      (msg : ℕ → Packet) (stream : IsStream msg) (spec : Spec (Chunks S)) (n : ℕ) (s : Session)
      (w : World S)
      → has_flag (msg n).header.flags Flag.repeat ≡ true
      → ltb 0 (bit_and (msg n).header.flags Flag.channel) ≡ false
      → Refines
          (chunks_host h)
          (recv_chunck_packet h)
          msg
          stream
          spec
          (loose (entered h s w).0 (entered h s w).1)
      → IsNear spec.upto n
      → let (s', w', ok) = dispatch_unordered h (msg n) (entered h s w).0 (entered h s w).1 in
        (process_known h send_ack smooth channel_mask now (msg n) s w
          ≡ some (s', replied send_ack (in_window spec.upto n) (msg n) w'))
        × Refines
            (chunks_host h)
            (recv_chunck_packet h)
            msg
            stream
            (spec_step (handle (chunks_host h) (recv_chunck_packet h) msg stream) n spec)
            (loose s' w')
  unfolding dispatch_unordered answer
  process_known-acks msg stream spec n s w on no_channel f near =
      let (verdict, f') =
        receive-Exact (chunks_host h) (recv_chunck_packet h) msg stream spec
          (loose (entered h s w).0 (entered h s w).1) f n near in
      (dispatch_loose (msg n) s w on no_channel ∙ rw (← verdict) refl, f')
