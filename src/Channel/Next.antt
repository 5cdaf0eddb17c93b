-- ===== src/Channel/Next.antt =====
-- The next packet of a channel: it is parsed, and then the packets that it was waited for.
use dubuframework.Base.{
  ℕ, suc, ◌+◌, ◌-◌, ◌%◌, ◌≤◌, ◌<◌, ◌≡◌, ◌≢◌, Bool, true, false, List, ◌++◌, append_assoc, arith,
  update, ==_iff, ne→==, u32, succ32, ◌/◌,
}
use native.Mathlib.Decide.{dec_lt, ℕ_discrete}
use dubuframework.Sequence.{IsStream}
use dubuframework.Packet.{Packet}
use dubuframework.PacketState.{window_count, RecvState}
use dubuframework.Host.{Host, IsLog}
use dubuframework.Channel.{CachePacket, CacheAlreadyPacket, Receiving, run_ahead, receive_next}
use dubuframework.Channel.Ahead.{
  messages, SlotHolds, IsWindow, Ran, gap_at_one, run_ahead-Ran, run_ahead_gap,
}

-- What a call leaves behind: `m` more messages are parsed, in order.
pub record Outcome {S : Type 0} (msg : ℕ → Packet) (seen : S → List Packet) (got : ℕ → Bool) (k : ℕ)
    (r r' : Receiving S) : Type 0 where
  pub m : ℕ
  pub w : ℕ
  pub window : IsWindow msg got 2 (k + m) w r'.cap
  pub log : seen r'.host ≡ seen r.host ++ messages msg k m

SlotHolds-arrived :
    (msg : ℕ → Packet) (b b' : Bool) (w d n : ℕ) (c : CachePacket)
    → (1 ≤ d → b' ≡ b)
    → SlotHolds msg b 2 w (d + 1) n c
    → SlotHolds msg b' 1 (w - 1) d n c
SlotHolds-arrived msg b b' w d n c same s = ground arith

module _ (msg : ℕ → Packet) (got : ℕ → Bool) {k w : ℕ} {cap : CacheAlreadyPacket} where
  -- Message `k + 1` has arrived: the slots, one place nearer.
  slots_next :
      IsWindow msg got 2 k w cap
      → (d : ℕ) → d < window_count
      → SlotHolds msg
          (update got (k + 1) true (k + 1 + d))
          1
          (w - 1)
          d
          (k + 1 + d)
          (cap.cache_packets ((k + 1 + d) % window_count))
  slots_next v d lt = elim (dec_lt d 63) [
    | yes p ↦
        let e : k + (d + 1) ≡ k + 1 + d = omega arith in
        SlotHolds-arrived msg (got (k + 1 + d)) (update got (k + 1) true (k + 1 + d)) w d
          (k + 1 + d) (cap.cache_packets ((k + 1 + d) % window_count)) (λ le. ground arith)
          (rw e at (v.slots (d + 1) (omega arith)))
    | no p ↦
        let e : (k + 1 + d) % window_count ≡ (k + 0) % window_count = omega arith in
        rw e (ground (arith, v.slots 0 (omega arith), v.beyond (k + 1 + d)))
  ]

  next-IsWindow :
      (rps : RecvState)
      → IsWindow msg got 2 k w cap
      → rps.recv_repeat_seq ≡ u32 (k + 1)
      → rps.last_repeat_seq ≡ u32 (k + 1 + (w - 1))
      → IsWindow msg (update got (k + 1) true) 1 (k + 1) (w - 1) (record cap { rps = rps })
  next-IsWindow rps v er el = record {
    recv_at = er;
    last_at = el;
    within = omega (arith, v.within);
    slots = slots_next v;
    done = λ n le. ground (arith, v.done n);
    beyond = λ n le. ground (arith, v.beyond n);
  }

module _ {S : Type 0} (h : Host S) (msg : ℕ → Packet) (stream : IsStream msg)
    (seen : S → List Packet) (laws : IsLog h seen) (got : ℕ → Bool) {k w : ℕ} (r : Receiving S)
    (v : IsWindow msg got 2 k w r.cap) where
  -- The state once the packet is parsed.
  abbrev parsed : Receiving S
  parsed = record {
    cap = record r.cap {
      rps = record r.cap.rps {
        recv_repeat_seq = (msg (k + 1)).header.sequence_no;
        cache_repeat_count = r.cap.rps.cache_repeat_count / 2;
      };
    };
    caches = r.caches;
    host = h.packet_parse (msg (k + 1)) r.host;
  }

  abbrev done : Receiving S
  done = run_ahead h window_count (u32 (k + 1)) parsed

  gap :
      w ≡ 0
      → (r.cap.cache_packets (succ32 (msg (k + 1)).header.sequence_no % window_count)).is_keep
        ≡ false
  gap e =
      let i : succ32 (msg (k + 1)).header.sequence_no % window_count ≡ (k + 2) % window_count =
        omega (arith, stream.numbered (k + 1)) in
      rw i (ground (arith, v.slots 2 (omega arith)))

  next_of_first :
      w ≡ 0
      → receive_next h (msg (k + 1)) r ≡ record parsed {
        cap = record parsed.cap {
          rps = record parsed.cap.rps { last_repeat_seq = (msg (k + 1)).header.sequence_no };
        };
      }
  unfolding receive_next
  next_of_first e =
      let q : r.cap.rps.recv_repeat_seq ≡ r.cap.rps.last_repeat_seq =
        omega (arith, v.recv_at, v.last_at) in
      rw (
        (==_iff _ _).1 q,
        run_ahead_gap h msg got 63 (msg (k + 1)).header.sequence_no parsed (gap e),
      )

  next_of_more : w ≢ 0 → receive_next h (msg (k + 1)) r ≡ done
  unfolding receive_next
  next_of_more ne =
      let q : r.cap.rps.recv_repeat_seq ≢ r.cap.rps.last_repeat_seq =
        omega (arith, v.recv_at, v.last_at, v.within) in
      rw (ne→== _ _ q, stream.numbered (k + 1))

  abbrev got' : ℕ → Bool
  got' = update got (k + 1) true

  -- The packet and then the loop.
  more : Ran h msg got' seen (k + 1) (w - 1) parsed done → Outcome msg seen got' k r done
  more ran = record {
    m = suc ran.m;
    w = w - 1 - ran.m;
    window = let e : k + 1 + ran.m ≡ k + suc ran.m = omega arith in rw (← e) ran.window;
    log = rw (ran.log, laws.seen-parse, append_assoc);
  }

  one :
      w ≡ 0
      → IsWindow msg got' 2 (k + 1) (w - 1) (record parsed.cap {
        rps = record parsed.cap.rps { last_repeat_seq = (msg (k + 1)).header.sequence_no };
      })
  one e =
      gap_at_one msg got'
        (next-IsWindow msg got _ v (stream.numbered (k + 1))
          (omega (arith, stream.numbered (k + 1))))
        (ground (arith, v.slots 2 (omega arith)))

  pub receive_next-Outcome : Outcome msg seen got' k r (receive_next h (msg (k + 1)) r)
  receive_next-Outcome = elim (ℕ_discrete w 0) [
    | yes e ↦
        rw (next_of_first e)
          (record { m = 1; w = w - 1; window = one e; log = laws.seen-parse (msg (k + 1)) r.host })
    | no ne ↦ rw (next_of_more ne) (
        more (
          run_ahead-Ran h msg got' seen laws window_count parsed (omega (arith, v.within))
            (next-IsWindow msg got _ v (stream.numbered (k + 1)) (omega (arith, v.last_at)))))
  ]
