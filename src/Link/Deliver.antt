-- ===== src/Link/Deliver.antt =====
-- What an ordered channel delivers from end to end, from two new sessions on.
use dubuframework.Base.{
  ℕ, ◌+◌, ◌-◌, ◌%◌, ◌^◌, ◌≤◌, ◌<◌, ◌≡◌, inl, inr, refl, sym, ap, ◌∙◌, subst, Bool, true, false, not,
  none, some, List, ◌++◌, append-nil, arith, ltb, ◌==◌, u32, sub32, lt→ltb, update_self, ==_iff,
  ne→==,
}
use native.Mathlib.Decide.{dec_lt}
use dubuframework.PacketState.{window_count}
use dubuframework.Packet.{Packet}
use dubuframework.CachePool.{CachePool}
use dubuframework.Host.{Host, IsLog}
use dubuframework.Sequence.{IsNear}
use dubuframework.Window.{in_window}
use dubuframework.PacketManager.{PacketManager}
use dubuframework.Pending.{is_null, is_repeat, ack_slot, ack_process}
use dubuframework.Pending.Window.{SlotWaits}
use dubuframework.Pending.Ack.{slot_of}
use dubuframework.Channel.{receive}
use dubuframework.Channel.Ahead.{messages}
use dubuframework.Channel.Order.{gap_after}
use dubuframework.Channel.Delivery.{receive-Result}
use dubuframework.Link.{Link, Reach, message}
use dubuframework.Link.Agree.{is_some, is_some-some, IsLink, upto_le}
use dubuframework.Link.Keeps.{Reach-IsLink, stream-IsStream}

true_of : (b : Bool) → not b ≡ false → b ≡ true
true_of true e = refl
true_of false e = cc e

-- The channel of two new sessions
abbrev pub new_link : {S : Type 0} → S → CachePool → Link S
new_link host caches = record {
  sender = record {
    send_repeat_seq = 0;
    pending_packets =
        λ i. record { buffer = none; time_stamp = 0; sequence_no = 0; is_sent = false };
    local_window_start = 0;
    local_seqence = 0;
  };
  receiver = record {
    cap = record {
      rps = record { recv_repeat_seq = 0; last_repeat_seq = 0; cache_repeat_count = 0 };
      cache_packets =
          λ i. record { buffer = none; time_stamp = 0; sequence_no = 0; is_keep = false };
    };
    caches = caches;
    host = host;
  };
  count = 0;
  sent = λ n. none;
  acks = λ n. false;
}

new-IsLink :
    {S : Type 0} (content : ℕ → Packet) (seen : S → List Packet) (host : S) (caches : CachePool)
    → IsLink content seen (seen host) (new_link host caches)
new-IsLink content seen host caches = record {
  live = λ n. none;
  k = 0;
  len = 0;
  got = λ n. n == 0;
  upto = 0;
  w = 0;
  drawn = refl;
  waits = record {
    start_at = refl;
    end_at = refl;
    within = omega arith;
    slots = λ d lt. (refl, λ h. cc h);
    past = λ n lt. refl;
    beyond = λ n le. refl;
  };
  last = omega arith;
  window = record {
    recv_at = refl;
    last_at = refl;
    within = omega arith;
    slots = λ d lt. λ le. ne→== (0 + d) 0 (omega (arith, le));
    done = λ n le. let e : n ≡ 0 = omega (arith, le) in (==_iff n 0).1 e;
    beyond = λ n le. ne→== n 0 (omega (arith, le));
  };
  log = sym (append-nil (seen host));
  wire = λ n p h. cc h;
  waiting = λ n h. cc h;
  received = λ n on. inl ((==_iff n 0).0 on);
  settled = λ n on. cc on;
  acked = λ n on. cc on;
}

module _ {S : Type 0} (h : Host S) (content : ℕ → Packet) (seen : S → List Packet)
    (laws : IsLog h seen) (host : S) (caches : CachePool) where
  agreed :
      {l : Link S}
      → l.count + 64 < 2 ^ 32
      → Reach h content (new_link host caches) l
      → IsLink content seen (seen host) l
  agreed few reach =
      Reach-IsLink h content seen laws (seen host) few reach (new-IsLink content seen host caches)

  -- Whatever the network loses, repeats and reorders, the packets that were parsed are the first ones
  -- that were sent, each once and in their order, under the numbers of the calls of SendPacket; there
  -- were fewer than 2 ^ 32 - 64 calls.
  pub Reach-messages :
      {l : Link S}
      → l.count + 64 < 2 ^ 32
      → Reach h content (new_link host caches) l
      → (upto : ℕ) × (upto ≤ l.count)
        × (seen l.receiver.host ≡ seen host ++ messages (message content) 0 upto)
  Reach-messages {l = l} few reach = let v = agreed few reach in (v.upto, (upto_le l v).0, v.log)

  -- If the window refused the packet of a call of SendPacket, then no packet of that call or of a
  -- later one is ever parsed; there were fewer than 2 ^ 32 - 64 calls.
  pub Reach-refused :
      {l : Link S} (n : ℕ)
      → l.count + 64 < 2 ^ 32
      → Reach h content (new_link host caches) l
      → 1 ≤ n
      → l.sent n ≡ none
      → (upto : ℕ) × (upto < n)
        × (seen l.receiver.host ≡ seen host ++ messages (message content) 0 upto)
  Reach-refused {l = l} n few reach low gone =
      let v = agreed few reach in
      let short : v.upto < n = elim (dec_lt v.upto n) [
        | yes lt ↦ lt
        | no ge ↦ elim (v.received n (v.window.done n (omega (arith, ge)))) [
          | inl z ↦ absurd (omega (arith, z, low))
          | inr there ↦ cc (there, ap is_some gone)
        ]
      ] in
      (v.upto, short, v.log)

  -- If the window took the packet of every call of SendPacket and nothing waits in it any more, all of
  -- the packets were parsed, each once and in their order; there were fewer than 2 ^ 32 - 64 calls.
  pub Reach-complete :
      {l : Link S}
      → l.count + 64 < 2 ^ 32
      → Reach h content (new_link host caches) l
      → ((n : ℕ) → 1 ≤ n → n ≤ l.count → is_some (l.sent n) ≡ true)
      → is_repeat l.sender ≡ false
      → seen l.receiver.host ≡ seen host ++ messages (message content) 0 l.count
  unfolding is_repeat
  Reach-complete {l = l} few reach taken idle =
      let v = agreed few reach in
      let same : l.sender.local_window_start ≡ l.sender.local_seqence =
        (==_iff _ _).0 (true_of _ idle) in
      let empty : v.len ≡ 0 =
        omega (arith, same, v.waits.start_at, v.waits.end_at, v.waits.within) in
      let all : v.upto ≡ l.count = elim (dec_lt v.upto l.count) [
        | no ge ↦ omega (arith, ge, (upto_le l v).0)
        | yes lt ↦
            let gone : v.live (v.upto + 1) ≡ none = elim (dec_lt (v.upto + 1) v.k) [
              | yes below ↦ v.waits.past (v.upto + 1) below
              | no above ↦ v.waits.beyond (v.upto + 1) (omega (arith, above, empty))
            ] in
            let on =
              v.settled (v.upto + 1) (taken (v.upto + 1) (omega arith) (omega (arith, lt))) gone in
            cc (on, gap_after (message content) v.got v.window)
      ] in
      subst (λ n. seen l.receiver.host ≡ seen host ++ messages (message content) 0 n) all v.log

  -- A packet that waits in a slot of the window is the one that call sent, and the window starts at most
  -- 64 before it.
  waiting_at :
      {l : Link S} (v : IsLink content seen (seen host) l) (n a : ℕ)
      → l.count + 64 < 2 ^ 32
      → n < 2 ^ 32
      → let p = l.sender.pending_packets (n % window_count) in
        p.buffer ≡ some a
        → p.sequence_no ≡ n
        → (v.k ≤ n) × (n ≤ l.count) × (is_some (l.sent n) ≡ true)
  waiting_at {l = l} v n a few small at seq =
      let p = l.sender.pending_packets (n % window_count) in
      let number : u32 n ≡ n = omega (arith, small) in
      let d = (n % 64 + 64 - v.k % 64) % 64 in
      let (near, slot) = slot_of v.k n in
      let there : SlotWaits (v.live (v.k + d)) (v.k + d) p =
        rw (slot, number) at (v.waits.slots d near) in
      let full : is_null (v.live (v.k + d)) ≡ false = ap is_null (sym there.0 ∙ at) in
      let sent = v.waiting (v.k + d) full in
      let (q, is) = is_some-some (l.sent (v.k + d)) sent in
      let (e, low, high, reach) = v.wire (v.k + d) q is in
      let same : v.k + d ≡ n = omega (arith, seq, there.1 full, high, few) in
      (
        omega (arith, same),
        omega (arith, same, high),
        ap (λ i. is_some (l.sent i)) (sym same) ∙ sent,
      )

  -- If the window took every packet so far, then a packet that waits in it, fewer than 63 places after
  -- the first one, is answered true whenever it arrives, and its acknowledgement takes it away. There
  -- were fewer than 2 ^ 32 - 64 calls of SendPacket.
  pub Reach-answered :
      {l : Link S} (n a : ℕ) (smooth : ℕ → ℕ → ℕ) (now rtt : ℕ) (m : PacketManager)
      → l.count + 64 < 2 ^ 32
      → Reach h content (new_link host caches) l
      → ((j : ℕ) → 1 ≤ j → j ≤ l.count → is_some (l.sent j) ≡ true)
      → n < 2 ^ 32
      → (l.sender.pending_packets (n % window_count)).buffer ≡ some a
      → (l.sender.pending_packets (n % window_count)).sequence_no ≡ n
      → sub32 n l.sender.local_window_start < 63
      → let s' = (ack_process smooth now n l.sender rtt m).0 in
        ((receive h (message content n) l.receiver).1 ≡ true)
        × ((s'.pending_packets (n % window_count)).buffer ≡ none)
  unfolding ack_process ack_slot
  Reach-answered {l = l} n a smooth now rtt m few reach taken small at seq near =
      let v = agreed few reach in
      let (ge, high, sent) = waiting_at v n a few small at seq in
      let start : l.sender.local_window_start ≡ v.k = omega (arith, v.waits.start_at, ge, small) in
      let close : n < v.k + 63 = omega (arith, near, start, ge, small) in
      let caught : v.k ≤ v.upto + 1 = elim (dec_lt (v.upto + 1) v.k) [
        | no le ↦ omega (arith, le)
        | yes lt ↦
            let gone = v.waits.past (v.upto + 1) lt in
            let on =
              v.settled (v.upto + 1)
                (taken (v.upto + 1) (omega arith) (omega (arith, lt, ge, high))) gone in
            cc (on, gap_after (message content) v.got v.window)
      ] in
      let (le, behind) = upto_le l v in
      let near' : IsNear v.upto n = (omega (arith, le, few), omega (arith, high, few)) in
      let low : ltb v.upto (n + window_count) ≡ true = lt→ltb _ _ (omega (arith, behind, ge)) in
      let up : ltb n (v.upto + window_count) ≡ true = lt→ltb _ _ (omega (arith, close, caught)) in
      let inside : in_window v.upto n ≡ true = rw (low, up) refl in
      let ok =
        receive-Result h (message content) (stream-IsStream h content seen laws (seen host)) seen
          laws v.got l.receiver v.window n near' in
      let hit : ((l.sender.pending_packets (n % window_count)).sequence_no == n) ≡ true =
        (==_iff _ _).1 seq in
      (
        ok.0 ∙ inside,
        rw (hit, at)
            (ap (λ p. p.buffer) (update_self l.sender.pending_packets (n % window_count) _)),
      )
