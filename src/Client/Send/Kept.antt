-- ===== src/Client/Send/Kept.antt =====
-- What becomes of a packet that the window of InternalClient refuses.
use dubuframework.Base.{
  some, ◌∷◌, ◌≢◌, ℕ, ◌≡◌, refl, sym, ap, ◌∙◌, Bool, true, false, none, List, update_self,
}
use dubuframework.Packet.{PacketOpctions}
use dubuframework.PacketManager.{set_type, pop_packet_buffer}
use dubuframework.PacketManager.Invariant.{IsPool}
use dubuframework.Socket.{
  Request, Addr, Net, on_buffer, send_to_reliable, send_to_complete, tell_sent, no_flags,
}
use dubuframework.Sending.{Sender, stream_of, take_number, add_pending}
use dubuframework.Sending.Refuse.{
  window_of, IsFull, numbered, packet_of, buffered, buffered-at, packet_of-number, refused,
}
use dubuframework.Sending.Taken.{pop-Taken, modify-Taken}
use dubuframework.Client.Send.{after_pending, internal_refused, client_small}

complete_reliable :
    {S : Type 0} (addr : Addr) (a size : ℕ) (n : Net S)
    → (n.packets.buffers a).obj_type.reliable ≡ true
    → send_to_complete none addr a size n
      ≡ on_buffer a (set_type (record (n.packets.buffers a).obj_type { sending = false })) n
unfolding send_to_complete tell_sent
complete_reliable addr a size n rel = rw rel refl

module _ {S : Type 0} (target addr : Addr) (a size : ℕ) (n : Net S) where
  abbrev sent : Net S
  sent = send_to_reliable target a n

  sent-reliable : (sent.packets.buffers a).obj_type.reliable ≡ true
  unfolding send_to_reliable
  sent-reliable =
      ap (λ b. b.obj_type.reliable)
        (update_self n.packets.buffers a (
          set_type (record no_flags { sendto = true; reliable = true; sending = true })
            (n.packets.buffers a)))

  sent-use_list : sent.packets.use_list a ≡ n.packets.use_list a
  unfolding send_to_reliable
  sent-use_list = refl

  sent-requests : sent.requests ≡ Request.send target a ∷ n.requests
  unfolding send_to_reliable
  sent-requests = refl

  -- A buffer that SendToReliable sent stays in use when the kernel has sent it.
  stays_used :
      n.packets.use_list a ≡ true
      → let done = send_to_complete none addr a size sent in
        (done.packets.use_list a ≡ true) × ((done.packets.buffers a).obj_type.reliable ≡ true)
  stays_used used =
      let prev = (sent.packets.buffers a).obj_type in
      rw (complete_reliable addr a size sent sent-reliable) (
        sent-use_list ∙ used,
        ap (λ b. b.obj_type.reliable)
              (update_self sent.packets.buffers a
                (set_type (record prev { sending = false }) (sent.packets.buffers a)))
            ∙ sent-reliable,
      )

module _ {S : Type 0} (crc_u32 crc_u8 : ℕ → ℕ → ℕ) (clock : S → ℕ × S) where
  module _ (buffer : List ℕ) (code : ℕ) (sub : List ℕ) (opt : PacketOpctions) (s : Sender)
      (n : Net S) where
    abbrev filled : Net S
    filled = record n {
      packets = buffered crc_u32 crc_u8 clock buffer code sub opt s n;
      host = (clock n.host).1;
    }

    client_small_lem :
        (s' : Sender) (ok : Bool)
        → let a = (pop_packet_buffer n.packets).1 in
          add_pending (stream_of opt) filled.packets a (take_number (stream_of opt) s).0 ≡ (s', ok)
          → client_small crc_u32 crc_u8 clock internal_refused buffer code sub opt (s, n)
            ≡ after_pending internal_refused opt.reliable ok a (s', filled)
    unfolding client_small
    client_small_lem s' ok e = rw e refl

    after_refused :
        (s' : Sender) (a : ℕ)
        → opt.reliable ≡ true
        → after_pending internal_refused opt.reliable false a (s', filled)
          ≡ (s', send_to_reliable s'.addr a filled)
    unfolding after_pending internal_refused
    after_refused s' a rel = rw rel refl

    -- If the window of a reliable packet is full, InternalClient requests all the same that the packet is
    -- sent, from a buffer that was free, and the window is as before, but for its number. When the kernel
    -- has sent it, the buffer is still in use, and it stands in no slot of the window, from which AckProcess,
    -- Reset and RepeatMessage take the buffers. The buffers in the window were in use before.
    pub client_small-kept :
        (addr : Addr) (size : ℕ)
        → opt.reliable ≡ true
        → IsPool n.packets
        → IsFull (window_of opt s)
        → ((i b : ℕ)
            → ((window_of opt s).pending_packets i).buffer ≡ some b
            → n.packets.use_list b ≡ true)
        → let a = (pop_packet_buffer n.packets).1 in
          let (s', n') =
            client_small crc_u32 crc_u8 clock internal_refused buffer code sub opt (s, n) in
          let done = send_to_complete none addr a size n' in
          (window_of opt s' ≡ numbered (window_of opt s))
          × (n'.requests ≡ Request.send s.addr a ∷ n.requests)
          × (n.packets.use_list a ≡ false)
          × (done.packets.use_list a ≡ true)
          × ((i : ℕ) → ((window_of opt s').pending_packets i).buffer ≢ some a)
    client_small-kept addr size rel v full used =
        let a = (pop_packet_buffer n.packets).1 in
        let number =
          ap (λ x. x.header.sequence_no) (buffered-at crc_u32 crc_u8 clock buffer code sub opt s n)
          ∙ packet_of-number crc_u32 crc_u8 clock buffer code sub opt s n in
        let (s', e, w, home) = refused opt filled.packets a s rel full number in
        let p = packet_of crc_u32 crc_u8 clock buffer code sub opt s n in
        let t = modify-Taken (pop-Taken v) (λ b. record b { packet = p }) in
        let run = client_small_lem s' false e ∙ after_refused s' a rel in
        let kept = stays_used s'.addr addr a size filled t.taken in
        let nowhere : (i : ℕ) → ((window_of opt s').pending_packets i).buffer ≢ some a = λ i at.
          let old = ap (λ x. (x.pending_packets i).buffer) (sym w) ∙ at in
          cc (sym (used i a old) ∙ t.fresh) in
        let asked =
          sent-requests s'.addr addr a size filled ∙ ap (λ t. Request.send t a ∷ n.requests) home in
        rw run (w, asked, t.fresh, kept.0, nowhere)
