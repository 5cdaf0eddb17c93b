-- ===== src/Link/Keeps.antt =====
-- Every step keeps the two ends in agreement.
use dubuframework.Base.{
  ℕ, ◌+◌, ◌-◌, ◌^◌, ◌≤◌, ◌<◌, ◌≡◌, inl, inr, refl, sym, ap, ◌∙◌, subst, true, none, some, List,
  arith, ltb→lt, update, update_self, update_ne, u32, succ32, Bool-cases, Option-cases,
}
use mathlib.Core.Option.{some-injective}
use native.Mathlib.Decide.{ℕ_discrete}
use dubuframework.PacketState.{window_count}
use dubuframework.Packet.{Packet}
use dubuframework.Host.{Host, IsLog}
use dubuframework.Sequence.{IsStream, IsNear}
use dubuframework.Window.{in_window}
use dubuframework.PacketManager.{PacketManager}
use dubuframework.Pending.{update_send_sequence_no, add_pending_packet, ack_process}
use dubuframework.Pending.Send.{add_pending_packet-Waits}
use dubuframework.Pending.Ack.{ack_process-Acknowledged}
use dubuframework.Channel.{receive}
use dubuframework.Channel.Delivery.{receive-Result}
use dubuframework.Link.{Link, Step, Reach, numbered, message, after_send, after_arrive, after_ack}
use dubuframework.Link.Agree.{
  IsLink, add_pending_packet-drawn, ack_process-drawn, some-is_some, upto_le, received-IsLink,
  update_more, marked_cases, marked_kept, some_gone, none_there,
}

module _ {S : Type 0} (h : Host S) (content : ℕ → Packet) (seen : S → List Packet)
    (laws : IsLog h seen) (before : List Packet) where
  pub stream-IsStream : IsStream (message content)
  stream-IsStream = record { numbered = λ n. refl }

  -- A packet that arrives
  arrive-IsLink :
      (n : ℕ) (p : Packet) (l : Link S)
      → l.count + 64 < 2 ^ 32
      → l.sent n ≡ some p
      → IsLink content seen before l
      → IsLink content seen before (after_arrive h p l)
  arrive-IsLink n p l few is v =
      let (e, low, high, near) = v.wire n p is in
      let number : u32 n ≡ n = omega (arith, few, high) in
      let near' : IsNear v.upto n =
        (omega (arith, (upto_le l v).0, few), omega (arith, high, few)) in
      let out =
        receive-Result h (message content) stream-IsStream seen laws v.got l.receiver v.window n
          near' in
      elim (Bool-cases (in_window v.upto n)) [
        | inl on ↦
            let (ok, o) = rw on at out in
            rw (e, ok)
              (received-IsLink l v (update v.got n true) o.m o.w
                (receive h (message content n) l.receiver).0 (update l.acks (u32 n) true) o.window
                o.log (λ j on. update_more v.got n j on)
                (λ j on. elim (marked_cases v.got n j on) [
                  | inl same ↦ inr (rw same (some-is_some is))
                  | inr old ↦ v.received j old
                ])
                (λ j on. elim (marked_cases l.acks (u32 n) j on) [
                  | inl same ↦
                      let at : j ≡ n = same ∙ number in
                      (rw at (update_self v.got n true), omega (arith, at, high))
                  | inr old ↦ (update_more v.got n j (v.acked j old).0, (v.acked j old).1)
                ]))
        | inr off ↦
            let (ok, o) = rw off at out in
            rw (e, ok)
              (received-IsLink l v v.got o.m o.w (receive h (message content n) l.receiver).0 l.acks
                o.window o.log (λ j on. on) v.received v.acked)
      ]

  -- A packet that is sent, or refused
  send-IsLink :
      (m : PacketManager) (a : ℕ) (l : Link S)
      → l.count + 65 < 2 ^ 32
      → (m.buffers a).packet ≡ numbered (update_send_sequence_no l.sender).1 (content (l.count + 1))
      → IsLink content seen before l
      → IsLink content seen before (after_send m a l)
  unfolding update_send_sequence_no
  send-IsLink m a l few is v =
      let n = l.count + 1 in
      let s1 = (update_send_sequence_no l.sender).0 in
      let number : succ32 l.sender.send_repeat_seq ≡ u32 n = omega (arith, v.drawn, few) in
      let whole : (m.buffers a).packet ≡ message content n =
        is ∙ ap (λ i. numbered i (content n)) number in
      let (kept, waits) =
        add_pending_packet-Waits m a s1 v.live v.k v.len n v.waits
          (ap (λ p. p.header.sequence_no) whole) v.last (omega (arith, few))
          (omega (arith, v.last, few)) in
      let drawn = add_pending_packet-drawn m a s1 in
      elim (Bool-cases (add_pending_packet m a s1).1) [
        | inr off ↦ rw off (record {
          live = v.live;
          k = v.k;
          len = v.len;
          got = v.got;
          upto = v.upto;
          w = v.w;
          drawn = drawn ∙ number;
          waits = rw off at waits;
          last = omega (arith, v.last);
          window = v.window;
          log = v.log;
          wire = λ j p there.
              let (e, low, high, near) = v.wire j p there in (e, low, omega (arith, high), near);
          waiting = v.waiting;
          received = v.received;
          settled = v.settled;
          acked = λ j on. ((v.acked j on).0, omega (arith, (v.acked j on).1));
        })
        | inl on ↦
            let near = ltb→lt n (v.k + window_count) (sym kept ∙ on) in
            let p0 = (m.buffers a).packet in
            rw on (record {
              live = update v.live n (some a);
              k = v.k;
              len = n + 1 - v.k;
              got = v.got;
              upto = v.upto;
              w = v.w;
              drawn = drawn ∙ number;
              waits = rw on at waits;
              last = omega (arith, v.last);
              window = v.window;
              log = v.log;
              wire = λ j p there. elim (ℕ_discrete n j) [
                | yes e ↦
                    let same : some p0 ≡ some p =
                      sym (ap (update l.sent n (some p0)) (sym e) ∙ update_self l.sent n (some p0))
                      ∙ there in
                    (
                      sym (some-injective p0 p same) ∙ whole ∙ ap (message content) e,
                      omega (arith, e),
                      omega (arith, e),
                      omega (arith, e, near),
                    )
                | no ne ↦
                    let (e, low, high, near) =
                      v.wire j p (rw (update_ne l.sent n (some p0) j ne) at there) in
                    (e, low, omega (arith, high), near)
              ];
              waiting = λ j there. elim (ℕ_discrete n j) [
                | yes e ↦ rw (sym e) (some-is_some (update_self l.sent n (some p0)))
                | no ne ↦
                    rw (update_ne l.sent n (some p0) j ne)
                      (v.waiting j (rw (update_ne v.live n (some a) j ne) at there))
              ];
              received = λ j there. elim (v.received j there) [
                | inl z ↦ inl z
                | inr old ↦ inr (marked_kept l.sent n j p0 old)
              ];
              settled = λ j there gone. elim (ℕ_discrete n j) [
                | yes e ↦ absurd (some_gone v.live n j a e gone)
                | no ne ↦
                    v.settled j (rw (update_ne l.sent n (some p0) j ne) at there)
                      (rw (update_ne v.live n (some a) j ne) at gone)
              ];
              acked = λ j on. ((v.acked j on).0, omega (arith, (v.acked j on).1));
            })
      ]

  -- An acknowledgement that arrives
  ack-IsLink :
      (smooth : ℕ → ℕ → ℕ) (now n rtt : ℕ) (m : PacketManager) (l : Link S)
      → l.count + 64 < 2 ^ 32
      → l.acks n ≡ true
      → IsLink content seen before l
      → IsLink content seen before (after_ack smooth now n rtt m l)
  ack-IsLink smooth now n rtt m l few on v =
      let (got, high) = v.acked n on in
      let number : u32 n ≡ n = omega (arith, few, high) in
      let a =
        ack_process-Acknowledged smooth now n l.sender rtt m v.live v.k v.len v.waits
          (omega (arith, v.last, few)) (omega (arith, high, few)) in
      elim (Option-cases (v.live n)) [
        | inl gone ↦
            let e : ack_process smooth now n l.sender rtt m ≡ (l.sender, rtt, m) =
              subst (λ i. ack_process smooth now i l.sender rtt m ≡ (l.sender, rtt, m)) number
                (rw gone at a) in
            rw e v
        | inr (b, is) ↦
            let (stops, rest, back) = rw is at a in
            let out = ack_process smooth now (u32 n) l.sender rtt m in
            subst (λ i. IsLink content seen before (after_ack smooth now i rtt m l)) number
              (record {
                live = update v.live n none;
                k = v.k + stops.gone;
                len = v.len - stops.gone;
                got = v.got;
                upto = v.upto;
                w = v.w;
                drawn = ack_process-drawn smooth now (u32 n) l.sender rtt m ∙ v.drawn;
                waits = stops.window;
                last = omega (arith, v.last, stops.fits);
                window = v.window;
                log = v.log;
                wire = λ j p there.
                    let (e, low, high, near) = v.wire j p there in
                    (e, low, high, omega (arith, near));
                waiting = λ j there. elim (ℕ_discrete n j) [
                  | yes e ↦ absurd (none_there v.live n j e there)
                  | no ne ↦ v.waiting j (rw (update_ne v.live n none j ne) at there)
                ];
                received = v.received;
                settled = λ j there gone. elim (ℕ_discrete n j) [
                  | yes e ↦ ap v.got (sym e) ∙ got
                  | no ne ↦ v.settled j there (rw (update_ne v.live n none j ne) at gone)
                ];
                acked = v.acked;
              })
      ]

  Step-IsLink :
      {l l' : Link S}
      → l'.count + 64 < 2 ^ 32
      → Step h content l l'
      → IsLink content seen before l
      → IsLink content seen before l'
  Step-IsLink {l = l} few (Step.send m a is) v = send-IsLink m a l (omega (arith, few)) is v
  Step-IsLink {l = l} few (Step.arrive n p is) v = arrive-IsLink n p l few is v
  Step-IsLink {l = l} few (Step.acknowledge smooth now n rtt m on) v =
      ack-IsLink smooth now n rtt m l few on v

  Step-count : {l l' : Link S} → Step h content l l' → l.count ≤ l'.count
  Step-count (Step.send m a is) = omega arith
  Step-count (Step.arrive n p is) = omega arith
  Step-count (Step.acknowledge smooth now n rtt m on) = omega arith

  pub Reach-IsLink :
      {l l' : Link S}
      → l'.count + 64 < 2 ^ 32
      → Reach h content l l'
      → IsLink content seen before l
      → IsLink content seen before l'
  Reach-IsLink few Reach.start v = v
  Reach-IsLink few (Reach.later reach step) v =
      Step-IsLink few step (Reach-IsLink (omega (arith, few, Step-count step)) reach v)
