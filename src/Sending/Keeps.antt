-- ===== src/Sending/Keeps.antt =====
-- Every step of the life of packet buffers keeps the invariant.
use dubuframework.Base.{
  ℕ, ◌+◌, ◌^◌, ◌<◌, subst, u32, arith, ◌%◌, ◌≡◌, ◌⊎◌, refl, sym, ap, ◌∙◌, true, false, not, ◌&&◌,
  Option, none, some, update, update_self, update-same, ◌==◌, leb, if◌then◌else◌, sub32, succ32,
  inl, inr, Bool-cases, Option-cases,
}
use dubuframework.Packet.{Packet}
use dubuframework.PacketState.{window_count}
use dubuframework.PacketManager.{
  OverlappedPacketBuffer, PacketManager, modify, set_type, pop_packet_buffer,
}
use dubuframework.Pending.{
  SendState, update_send_sequence_no, add_pending_packet, ack_slot, ack_process, release_buffer,
}
use dubuframework.Socket.{
  Addr, Net, SocketHandler, on_buffer, push, no_flags, send_to, send_to_reliable, send_to_repeat,
  tell_sent, send_to_complete,
}
use dubuframework.Sending.{post, repeat_slot}
use dubuframework.Sending.Owned.{type_of}
use dubuframework.Sending.Hands.{retype-IsOwned, release-IsOwned, flying-used, land-IsOwned}
use dubuframework.Sending.Taken.{
  pop-Taken, modify-Taken, launch-IsOwned, plain-IsOwned, refuse-IsOwned,
}
use dubuframework.Sending.Numbers.{
  IsNumbered, next_number, next-IsNumbered, ack-IsNumbered, repeat-IsNumbered,
}
use dubuframework.Sending.Slots.{slots_update}
use dubuframework.Sending.Life.{
  Life, slots, net, under, sent, sent_plain, acknowledged, resent, completed, Step, Reach, IsLife,
}

-- AddPendingPacket within the window
abbrev added : PacketManager → ℕ → SendState → SendState
added m a w =
    let header = (m.buffers a).packet.header in
    let n = header.sequence_no in
    record w {
      pending_packets = update w.pending_packets (n % window_count) (record {
        buffer = some a;
        time_stamp = header.timestamp;
        sequence_no = n;
        is_sent = false;
      });
      local_seqence = if leb w.local_seqence n then succ32 n else w.local_seqence;
    }

add_cases :
    (m : PacketManager) (a n : ℕ) (w : SendState)
    → (m.buffers a).packet.header.sequence_no ≡ n
    → (add_pending_packet m a w ≡ (w, false))
      ⊎ ((w' : SendState) × (add_pending_packet m a w ≡ (w', true))
          × (slots w' ≡ update (slots w) (n % window_count) (some a)))
unfolding add_pending_packet
add_cases m a n w at =
    elim (Bool-cases
      (leb window_count (sub32 (m.buffers a).packet.header.sequence_no w.local_window_start))) [
        | inl on ↦ inl (rw on refl)
        | inr off ↦ inr (added m a w, rw off refl, rw (sym at) (slots_update _ _ _))
      ]

ack_cases :
    (smooth : ℕ → ℕ → ℕ) (now ack : ℕ) (w : SendState) (rtt : ℕ) (m : PacketManager)
    → let (w', rtt', m') = ack_process smooth now ack w rtt m in
      ((w' ≡ w) × (m' ≡ m))
      ⊎ ((a : ℕ) × (slots w (ack % window_count) ≡ some a)
          × (slots w' ≡ update (slots w) (ack % window_count) none)
          × (m' ≡ release_buffer a m))
unfolding ack_process ack_slot
ack_cases smooth now ack w rtt m =
    let i = ack % window_count in
    elim (Bool-cases ((w.pending_packets i).sequence_no == ack)) [
      | inr off ↦ rw off (inl (refl, refl))
      | inl on ↦ rw on (elim (Option-cases (slots w i)) [
        | inl gone ↦ rw (gone, ack_slot) (inl (refl, refl))
        | inr (a, is) ↦ rw (is, ack_slot) (inr (a, refl, slots_update _ _ _, refl))
      ])
    ]

module _ {S : Type 0} (l : Life S) (v : IsLife l) where
  sent-IsLife :
      (count : ℕ) (target : Addr) (p : Packet)
      → count + 65 < 2 ^ 32
      → IsNumbered count l.window
      → IsLife (sent target p l) × IsNumbered (count + 1) (sent target p l).window
  unfolding sent post send_to_reliable update_send_sequence_no
  sent-IsLife count target p few numbers =
      let (w0, n) = update_send_sequence_no l.window in
      let m = (pop_packet_buffer l.packets).0 in
      let a = (pop_packet_buffer l.packets).1 in
      let fill : OverlappedPacketBuffer → OverlappedPacketBuffer =
        λ b. record b { packet = under n p } in
      let flags = record no_flags { sendto = true; reliable = true; sending = true } in
      let t = modify-Taken (pop-Taken v.pool) fill in
      let number =
        ap (λ x. x.packet.header.sequence_no) (update_self m.buffers a (fill (m.buffers a)))
        ∙ next_number count l.window few numbers in
      let (next, free) = next-IsNumbered count l.window few numbers (modify a fill m) a number in
      elim (add_cases (modify a fill m) a (u32 (count + 1)) w0 number) [
        | inl e ↦ rw e (refuse-IsOwned t v, subst (λ r. IsNumbered (count + 1) r.0) e next)
        | inr (w, e, at) ↦
            let self =
              update_self (modify a fill m).buffers a
                (set_type flags ((modify a fill m).buffers a)) in
            let empty = free (ap (λ r. r.1) e) in
            rw (e, at)
              (
                launch-IsOwned (modify-Taken t (set_type flags)) v _ empty
                    (ap (λ x. x.obj_type.reliable) self) (ap (λ x. x.obj_type.sending) self),
                subst (λ r. IsNumbered (count + 1) r.0) e next,
              )
      ]

  sent_plain-IsLife : (target : Addr) (p : Packet) → IsLife (sent_plain target p l)
  unfolding sent_plain post send_to
  sent_plain-IsLife target p =
      let m = (pop_packet_buffer l.packets).0 in
      let a = (pop_packet_buffer l.packets).1 in
      let fill : OverlappedPacketBuffer → OverlappedPacketBuffer = λ b. record b { packet = p } in
      let flags = record no_flags { sendto = true } in
      let t = modify-Taken (pop-Taken v.pool) fill in
      let self =
        update_self (modify a fill m).buffers a (set_type flags ((modify a fill m).buffers a)) in
      plain-IsOwned (modify-Taken t (set_type flags)) v (ap (λ x. x.obj_type.reliable) self)

  acknowledged-IsLife :
      (smooth : ℕ → ℕ → ℕ) (now ack rtt : ℕ) → IsLife (acknowledged smooth now ack rtt l)
  unfolding acknowledged
  acknowledged-IsLife smooth now ack rtt = elim (ack_cases smooth now ack l.window rtt l.packets) [
    | inl (w, m) ↦ rw (w, m) v
    | inr (a, at, w, m) ↦ rw (w, m) (release-IsOwned v (ack % window_count) a at)
  ]

  resent-IsLife : (target : Addr) (delay now i : ℕ) → IsLife (resent target delay now i l)
  unfolding resent repeat_slot send_to_repeat
  resent-IsLife target delay now i =
      let w = l.window in
      let p = w.pending_packets i in
      elim (Option-cases (slots w i)) [
        | inl gone ↦ rw (gone, repeat_slot) v
        | inr (a, at) ↦
            let old = type_of l.packets a in
            let same =
              slots_update w.pending_packets i (record p { time_stamp = now })
              ∙ update-same (slots w) i in
            elim (Bool-cases (not old.sending && leb delay (sub32 now p.time_stamp))) [
              | inr off ↦ rw (at, repeat_slot, off) v
              | inl on ↦
                  rw (at, repeat_slot, on, same)
                    (retype-IsOwned v i a (set_type (record old { sending = true })) true at
                      ((v.own a).waits i at).1 refl)
            ]
      ]

  module _ (handler : Option (SocketHandler S))
      (quiet : (addr : Addr) (a size : ℕ) (n : Net S) → tell_sent handler addr a size n ≡ n) where
    complete_waiting :
        (addr : Addr) (a size : ℕ)
        → (type_of l.packets a).reliable ≡ true
        → send_to_complete handler addr a size (net l)
          ≡ on_buffer a (set_type (record (type_of l.packets a) { sending = false })) (net l)
    unfolding send_to_complete
    complete_waiting addr a size rel = rw (quiet addr a size (net l), rel) refl

    complete_plain :
        (addr : Addr) (a size : ℕ)
        → (type_of l.packets a).reliable ≡ false
        → send_to_complete handler addr a size (net l)
          ≡ push a
              (on_buffer a (set_type (record (type_of l.packets a) { sending = false })) (net l))
    unfolding send_to_complete
    complete_plain addr a size rel = rw (quiet addr a size (net l), rel) refl

    completed-IsLife :
        (addr : Addr) (a size : ℕ) → l.flying a ≡ true → IsLife (completed handler addr a size l)
    unfolding completed
    completed-IsLife addr a size flies =
        let f = set_type (record (type_of l.packets a) { sending = false }) in
        let used = flying-used v a flies in
        elim (Bool-cases (type_of l.packets a).reliable) [
          | inl rel ↦
              let (i, at) = (v.own a).kept used rel in
              rw (complete_waiting addr a size rel) (retype-IsOwned v i a f false at rel refl)
          | inr rel ↦ rw (complete_plain addr a size rel) (land-IsOwned v a f flies rel)
        ]

    -- One step, with the numbers that it draws
    Step-IsLife :
        {more : ℕ} {next : Life S} (count : ℕ)
        → count + 65 < 2 ^ 32
        → IsNumbered count l.window
        → Step handler l more next
        → IsLife next × IsNumbered (count + more) next.window
    unfolding sent_plain acknowledged resent completed
    Step-IsLife count few w (Step.send target p) = sent-IsLife count target p few w
    Step-IsLife count few w (Step.send_plain target p) =
        (sent_plain-IsLife target p, let e : count + 0 ≡ count = omega arith in rw e w)
    Step-IsLife count few w (Step.acknowledge smooth now ack rtt small) = (
      acknowledged-IsLife smooth now ack rtt,
      let e : count + 0 ≡ count = omega arith in
          rw e (ack-IsNumbered count l.window few w smooth now ack rtt l.packets small),
    )
    Step-IsLife count few w (Step.resend target delay now i) = (
      resent-IsLife target delay now i,
      let e : count + 0 ≡ count = omega arith in
          rw e
            (repeat-IsNumbered count l.window few w target delay now (slots l.window i) i (net l)),
    )
    Step-IsLife count few w (Step.complete addr a size flies) =
        (completed-IsLife addr a size flies, let e : count + 0 ≡ count = omega arith in rw e w)

Reach-both :
    {S : Type 0} (handler : Option (SocketHandler S))
    → ((addr : Addr) (a size : ℕ) (n : Net S) → tell_sent handler addr a size n ≡ n)
    → {first last : Life S} {count : ℕ} → IsLife first
    → IsNumbered 0 first.window
    → count + 65 < 2 ^ 32
    → Reach handler first count last
    → IsLife last × IsNumbered count last.window
Reach-both handler quiet v w few Reach.start = (v, w)
Reach-both handler quiet v w few (Reach.later {count = before} {more = more} {now = now} r step) =
    let (life, numbers) = Reach-both handler quiet v w (omega (arith, few)) r in
    Step-IsLife now life handler quiet before (omega (arith, few)) numbers step

-- If the handler leaves the buffers alone when a packet is sent, then in every state that sending,
-- resending, acknowledgement and completion reach in any order: no buffer is handed out twice; a
-- free buffer is neither with the kernel nor in the window; a buffer in use stands in one slot of
-- the window exactly if it is RELIABLE, and is with the kernel unless it is RELIABLE and not
-- SENDING. So exactly one of SendToComplete and AckProcess gives a buffer back, whichever is last; and
-- what a full window refuses is given back at once. At the start nothing waits in the window, of which
-- no number is drawn, and fewer than 2 ^ 32 - 65 packets were sent.
pub Reach-IsLife :
    {S : Type 0} (handler : Option (SocketHandler S))
    → ((addr : Addr) (a size : ℕ) (n : Net S) → tell_sent handler addr a size n ≡ n)
    → {first last : Life S} {count : ℕ} → IsLife first
    → IsNumbered 0 first.window
    → count + 65 < 2 ^ 32
    → Reach handler first count last
    → IsLife last
Reach-IsLife handler quiet v w few r = (Reach-both handler quiet v w few r).0
