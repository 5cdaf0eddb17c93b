-- ===== src/Sending/Refuse.antt =====
-- SendPacket when the window of the stream is full.
use dubuframework.Base.{
  ℕ, ◌≤◌, ◌≡◌, refl, sym, ap, ◌∙◌, Bool, true, false, List, update, update_self, update_ne, arith,
  leb, if◌then◌else◌, sub32, succ32, inl, inr, Bool-cases,
}
use native.Mathlib.Decide.{ℕ_discrete}
use dubuframework.Packet.{Packet, PacketOpctions}
use dubuframework.PacketState.{window_count}
use dubuframework.PacketManager.{PacketManager, modify, pop_packet_buffer, push_packet_buffer}
use dubuframework.PacketManager.Invariant.{IsPool, push-IsPool}
use dubuframework.Pending.{SendState, update_send_sequence_no, add_pending_packet}
use dubuframework.Socket.{Addr, Net, push}
use dubuframework.Sending.{
  Sender, Stream, stream_of, take_number, add_pending, written, seal, post, send_small,
}
use dubuframework.Sending.Taken.{Taken, pop-Taken, modify-Taken}

-- The window of a reliable packet's stream
abbrev pub window_of : PacketOpctions → Sender → SendState
window_of opt s = if opt.order then s.cache_sends opt.channel_id else s.rps_no

abbrev pub IsFull : SendState → Type 0
IsFull w = window_count ≤ sub32 (succ32 w.send_repeat_seq) w.local_window_start

abbrev pub numbered : SendState → SendState
numbered w = record w { send_repeat_seq = succ32 w.send_repeat_seq }

add_full :
    (m : PacketManager) (a : ℕ) (w : SendState)
    → IsFull w
    → (m.buffers a).packet.header.sequence_no ≡ succ32 w.send_repeat_seq
    → add_pending_packet m a (numbered w) ≡ (numbered w, false)
unfolding add_pending_packet
add_full m a w full at =
    let t : leb window_count (sub32 (m.buffers a).packet.header.sequence_no w.local_window_start)
        ≡ true =
      rw at (ground (arith, full)) in
    rw t refl

-- What a taken buffer is once it is given back
Taken-back :
    {m m' : PacketManager} {a : ℕ}
    → Taken m m' a
    → IsPool (push_packet_buffer a m')
      × ((b : ℕ) → (push_packet_buffer a m').use_list b ≡ m.use_list b)
unfolding push_packet_buffer
Taken-back {m} {m'} {a} t = (
  (push-IsPool a t.pool t.taken).0,
  λ b. elim (ℕ_discrete a b) [
    | yes e ↦ rw (sym e, update_self m'.use_list a false) (sym t.fresh)
    | no ne ↦ update_ne m'.use_list a false b ne ∙ t.used b ne
  ],
)

refused-unordered :
    (m : PacketManager) (a : ℕ) (s : Sender)
    → IsFull s.rps_no
    → (m.buffers a).packet.header.sequence_no ≡ (take_number Stream.unordered s).1
    → add_pending Stream.unordered m a (take_number Stream.unordered s).0
      ≡ (record s { rps_no = numbered s.rps_no }, false)
unfolding take_number add_pending update_send_sequence_no
refused-unordered m a s full at = let e = add_full m a s.rps_no full at in rw e refl

refused-channel :
    (m : PacketManager) (a id : ℕ) (s : Sender)
    → IsFull (s.cache_sends id)
    → (m.buffers a).packet.header.sequence_no ≡ (take_number (Stream.channel id) s).1
    → let cs = update s.cache_sends id (numbered (s.cache_sends id)) in
      add_pending (Stream.channel id) m a (take_number (Stream.channel id) s).0
      ≡ (record s { cache_sends = update cs id (numbered (s.cache_sends id)) }, false)
unfolding take_number add_pending update_send_sequence_no
refused-channel m a id s full at =
    let self = update_self s.cache_sends id (numbered (s.cache_sends id)) in
    let e = add_full m a (s.cache_sends id) full at in rw (self, e) refl

post_refused :
    {S : Type 0} (reliable : Bool) (target : Addr) (a : ℕ) (n : Net S)
    → reliable ≡ true
    → post reliable false target a n ≡ push a n
unfolding post
post_refused reliable target a n rel = rw rel refl

pub refused :
    (opt : PacketOpctions) (m : PacketManager) (a : ℕ) (s : Sender)
    → opt.reliable ≡ true
    → IsFull (window_of opt s)
    → (m.buffers a).packet.header.sequence_no ≡ (take_number (stream_of opt) s).1
    → (s' : Sender) × (add_pending (stream_of opt) m a (take_number (stream_of opt) s).0
        ≡ (s', false))
      × (window_of opt s' ≡ numbered (window_of opt s))
      × (s'.addr ≡ s.addr)
refused opt m a s rel full at = elim (Bool-cases opt.order) [
  | inr off ↦ (
    record s { rps_no = numbered s.rps_no },
    rw (rel, off) (refused-unordered m a s (rw off at full) (rw (rel, off) at at)),
    rw off refl,
    refl,
  )
  | inl on ↦ (
    record s {
      cache_sends =
          update (update s.cache_sends opt.channel_id (numbered (s.cache_sends opt.channel_id)))
            opt.channel_id (numbered (s.cache_sends opt.channel_id));
    },
    rw (rel, on) (refused-channel m a opt.channel_id s (rw on at full) (rw (rel, on) at at)),
    rw on (
        update_self (update s.cache_sends opt.channel_id (numbered (s.cache_sends opt.channel_id)))
          opt.channel_id (numbered (s.cache_sends opt.channel_id))),
    refl,
  )
]

module _ {S : Type 0} (crc_u32 crc_u8 : ℕ → ℕ → ℕ) (clock : S → ℕ × S) where
  module _ (buffer : List ℕ) (code : ℕ) (sub : List ℕ) (opt : PacketOpctions) (s : Sender)
      (n : Net S) where
    -- The packet of SendPacket, and its buffer
    abbrev pub packet_of : Packet
    packet_of =
        let (m, a) = pop_packet_buffer n.packets in
        seal crc_u32 crc_u8 (
          written buffer code opt sub s.session_id (take_number (stream_of opt) s).1
            (clock n.host).0 (m.buffers a).packet.header)

    abbrev pub buffered : PacketManager
    buffered =
        let (m, a) = pop_packet_buffer n.packets in
        modify a (λ b. record b { packet = packet_of }) m

    pub buffered-at :
        let a = (pop_packet_buffer n.packets).1 in (buffered.buffers a).packet ≡ packet_of
    buffered-at =
        let (m, a) = pop_packet_buffer n.packets in
        ap (λ x. x.packet) (update_self m.buffers a (record (m.buffers a) { packet = packet_of }))

    pub packet_of-number : packet_of.header.sequence_no ≡ (take_number (stream_of opt) s).1
    unfolding seal written
    packet_of-number = refl

    pub send_small_lem :
        (s' : Sender) (ok : Bool)
        → let a = (pop_packet_buffer n.packets).1 in
          add_pending (stream_of opt) buffered a (take_number (stream_of opt) s).0 ≡ (s', ok)
          → send_small crc_u32 crc_u8 clock buffer code sub opt (s, n) ≡ (
            s',
            post opt.reliable ok s.addr a
                (record n { packets = buffered; host = (clock n.host).1 }),
          )
    unfolding send_small
    send_small_lem s' ok e = rw e refl

    -- If the next number of the stream is 64 or more after the first packet that waits, SendPacket
    -- of a reliable packet gives its buffer back and requests nothing: every buffer is in use as
    -- before, and the window is as before, but the number is used up.
    pub send_small-refused :
        opt.reliable ≡ true
        → IsPool n.packets
        → IsFull (window_of opt s)
        → let (s', n') = send_small crc_u32 crc_u8 clock buffer code sub opt (s, n) in
          (window_of opt s' ≡ numbered (window_of opt s))
          × (n'.requests ≡ n.requests)
          × IsPool n'.packets
          × ((b : ℕ) → n'.packets.use_list b ≡ n.packets.use_list b)
    send_small-refused rel v full =
        let a = (pop_packet_buffer n.packets).1 in
        let number = ap (λ x. x.header.sequence_no) buffered-at ∙ packet_of-number in
        let (s', e, w, home) = refused opt buffered a s rel full number in
        let t = modify-Taken (pop-Taken v) (λ b. record b { packet = packet_of }) in
        let n' : Net S = record n { packets = buffered; host = (clock n.host).1 } in
        rw (send_small_lem s' false e, post_refused opt.reliable s.addr a n' rel)
          (w, refl, (Taken-back t).0, (Taken-back t).1)
