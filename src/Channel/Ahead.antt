-- ===== src/Channel/Ahead.antt =====
-- The reorder window of a channel: which slots hold a packet kept ahead, against the set of all
-- packets that were accepted.
use dubuframework.Base.{
  ℕ, zero, suc, ◌+◌, ◌-◌, ◌%◌, ◌≤◌, ◌<◌, ◌≡◌, ◌≢◌, refl, sym, ap, ◌∙◌, inl, inr, Bool, true, false,
  some, List, [], ◌∷◌, ◌++◌, append-nil, append_assoc, arith, Bool-cases, update, update_ne, u32,
  succ32,
}
use native.Mathlib.Decide.{dec_lt}
use dubuframework.Packet.{Packet}
use dubuframework.PacketState.{window_count}
use dubuframework.Host.{Host, IsLog}
use dubuframework.Channel.{CachePacket, CacheAlreadyPacket, Receiving, run_kept, run_ahead}

-- Messages `k + 1` to `k + m`, in order.
abbrev pub messages : (ℕ → Packet) → ℕ → ℕ → List Packet
messages msg k zero = []
messages msg k (suc m) = msg (k + 1) ∷ messages msg (k + 1) m

-- What the slot for message `n` holds, `d` places ahead: nothing, and `n` is not yet received, or
-- the packet of message `n`, from the place `lo` on and not past `w`.
abbrev pub SlotHolds : (ℕ → Packet) → Bool → ℕ → ℕ → ℕ → ℕ → CachePacket → Type 0
SlotHolds msg received lo w d n c = elim c.is_keep [
  | true ↦
      (received ≡ true) × (lo ≤ d) × (d ≤ w) × (c.sequence_no ≡ u32 n) × (c.buffer ≡ some (msg n))
  | false ↦ (1 ≤ d) → received ≡ false
]

-- All messages up to `k` are received, `got` tells those that are, and the highest one is
-- `k + w`.
pub record IsWindow (msg : ℕ → Packet) (got : ℕ → Bool) (lo k w : ℕ) (cap : CacheAlreadyPacket)
    : Type 0 where
  pub recv_at : cap.rps.recv_repeat_seq ≡ u32 k
  pub last_at : cap.rps.last_repeat_seq ≡ u32 (k + w)
  pub within : w < window_count
  pub slots :
      (d : ℕ)
      → d < window_count
      → SlotHolds msg (got (k + d)) lo w d (k + d) (cap.cache_packets ((k + d) % window_count))
  pub done : (n : ℕ) → n ≤ k → got n ≡ true
  pub beyond : (n : ℕ) → k + window_count ≤ n → got n ≡ false

-- One place nearer.
SlotHolds-nearer :
    (msg : ℕ → Packet) (b : Bool) (w d n : ℕ) (c : CachePacket)
    → 1 ≤ d
    → SlotHolds msg b 1 w (d + 1) n c
    → SlotHolds msg b 1 (w - 1) d n c
SlotHolds-nearer msg b w d n c le s = ground arith

module _ (msg : ℕ → Packet) (got : ℕ → Bool) {k w : ℕ} {cap : CacheAlreadyPacket} where
  pub kept_one :
      IsWindow msg got 1 k w cap
      → let c = cap.cache_packets ((k + 1) % window_count) in
        c.is_keep ≡ true
        → (got (k + 1) ≡ true)
          × (1 ≤ w)
          × (c.sequence_no ≡ u32 (k + 1))
          × (c.buffer ≡ some (msg (k + 1)))
  kept_one v e = ground (arith, v.slots 1 (omega arith), e)

  -- The slots after message `k + 1` is taken out.
  slots_nearer :
      IsWindow msg got 1 k w cap
      → (c : CachePacket) → c.is_keep ≡ false
      → (d : ℕ) → d < window_count
      → SlotHolds msg
          (got (k + 1 + d))
          1
          (w - 1)
          d
          (k + 1 + d)
          (update cap.cache_packets ((k + 1) % window_count) c ((k + 1 + d) % window_count))
  slots_nearer v c off zero lt = ground arith
  slots_nearer v c off (suc d) lt = elim (dec_lt (suc d) 63) [
    | yes p ↦
        let e : k + (suc d + 1) ≡ k + 1 + suc d = omega arith in
        rw
          (update_ne cap.cache_packets ((k + 1) % window_count) c ((k + 1 + suc d) % window_count)
            (omega arith))
          (SlotHolds-nearer msg (got (k + 1 + suc d)) w (suc d) (k + 1 + suc d)
            (cap.cache_packets ((k + 1 + suc d) % window_count)) (omega arith)
            (rw e at (v.slots (suc d + 1) (omega arith))))
    | no p ↦
        let e : (k + 1 + suc d) % window_count ≡ (k + 0) % window_count = omega arith in
        rw
          (
            update_ne cap.cache_packets ((k + 1) % window_count) c ((k + 1 + suc d) % window_count)
                (omega arith),
            e,
          )
          (ground (arith, v.slots 0 (omega arith), v.beyond (k + 1 + suc d)))
  ]

  -- With a gap at message `k + 1`, every kept packet is further ahead.
  pub gap_at_one :
      IsWindow msg got 1 k w cap
      → (cap.cache_packets ((k + 1) % window_count)).is_keep ≡ false
      → IsWindow msg got 2 k w cap
  gap_at_one v off = record {
    recv_at = v.recv_at;
    last_at = v.last_at;
    within = v.within;
    slots = λ d lt. ground (arith, v.slots d lt);
    done = v.done;
    beyond = v.beyond;
  }

module _ {S : Type 0} (h : Host S) (msg : ℕ → Packet) (got : ℕ → Bool) where
  pub run_kept-IsWindow :
      {k w : ℕ} (r : Receiving S)
      → IsWindow msg got 1 k w r.cap
      → (r.cap.cache_packets ((k + 1) % window_count)).is_keep ≡ true
      → IsWindow msg got 1 (k + 1) (w - 1) (run_kept h ((k + 1) % window_count) r).cap
  unfolding run_kept
  run_kept-IsWindow {k} {w} r v e = record {
    recv_at = omega (arith, v.recv_at);
    last_at = ground (arith, v.last_at, kept_one msg got v e);
    within = omega (arith, v.within);
    slots = slots_nearer msg got v _ refl;
    done = λ n le. ground (arith, v.done n, kept_one msg got v e);
    beyond = λ n le. v.beyond n (omega arith);
  }

  abbrev slot_of : ℕ → Receiving S → CachePacket
  slot_of n r = r.cap.cache_packets (n % window_count)

  run_ahead_end :
      (fuel idx : ℕ) (r : Receiving S)
      → idx ≡ r.cap.rps.last_repeat_seq
      → run_ahead h (suc fuel) idx r ≡ r
  unfolding run_ahead
  run_ahead_end fuel idx r e = ground arith

  pub run_ahead_gap :
      (fuel idx : ℕ) (r : Receiving S)
      → (slot_of (succ32 idx) r).is_keep ≡ false
      → run_ahead h (suc fuel) idx r ≡ r
  unfolding run_ahead
  run_ahead_gap fuel idx r e = ground arith

  run_ahead_next :
      (fuel idx : ℕ) (r : Receiving S)
      → idx ≢ r.cap.rps.last_repeat_seq
      → (slot_of (succ32 idx) r).is_keep ≡ true
      → (slot_of (succ32 idx) r).sequence_no ≡ succ32 idx
      → run_ahead h (suc fuel) idx r
        ≡ run_ahead h fuel (succ32 idx) (run_kept h (succ32 idx % window_count) r)
  unfolding run_ahead
  run_ahead_next fuel idx r ne on eq = ground arith

  slot_index : (k : ℕ) → succ32 (u32 k) % window_count ≡ (k + 1) % window_count
  slot_index k = omega arith

  -- One round of the loop in a window, by whether message `k + 1` is kept.
  pub run_ahead_off :
      (fuel : ℕ) {k w : ℕ} (r : Receiving S)
      → IsWindow msg got 1 k w r.cap
      → (r.cap.cache_packets ((k + 1) % window_count)).is_keep ≡ false
      → run_ahead h (suc fuel) (u32 k) r ≡ r
  run_ahead_off fuel {k} r v off =
      run_ahead_gap fuel (u32 k) r (ap (λ n. (r.cap.cache_packets n).is_keep) (slot_index k) ∙ off)

  pub run_ahead_on :
      (fuel : ℕ) {k w : ℕ} (r : Receiving S)
      → IsWindow msg got 1 k w r.cap
      → (r.cap.cache_packets ((k + 1) % window_count)).is_keep ≡ true
      → run_ahead h (suc fuel) (u32 k) r
        ≡ run_ahead h fuel (u32 (k + 1)) (run_kept h ((k + 1) % window_count) r)
  run_ahead_on fuel {k} r v on =
      let one = kept_one msg got v on in
      let num : succ32 (u32 k) ≡ u32 (k + 1) = omega arith in
      rw (
        run_ahead_next fuel (u32 k) r (omega (arith, v.last_at, v.within, one.1))
            (ap (λ n. (r.cap.cache_packets n).is_keep) (slot_index k) ∙ on)
            (ap (λ n. (r.cap.cache_packets n).sequence_no) (slot_index k) ∙ (one.2 ∙ sym num)),
        slot_index k,
        num,
      )

  -- The loop ends by itself within the window: it has parsed the next `m` messages, and then
  -- there is a gap.
  pub record Ran (seen : S → List Packet) (k w : ℕ) (r r' : Receiving S) : Type 0 where
    pub m : ℕ
    pub window : IsWindow msg got 2 (k + m) (w - m) r'.cap
    pub log : seen r'.host ≡ seen r.host ++ messages msg k m

  module _ (seen : S → List Packet) (laws : IsLog h seen) where
    Ran-stop :
        {k w : ℕ} (r : Receiving S)
        → IsWindow msg got 1 k w r.cap
        → (r.cap.cache_packets ((k + 1) % window_count)).is_keep ≡ false
        → Ran seen k w r r
    Ran-stop {k} {w} r v off = record {
      m = 0;
      window =
          let e : k + 0 ≡ k = omega arith in
          let e' : w - 0 ≡ w = omega arith in rw (e, e') (gap_at_one msg got v off);
      log = sym (append-nil (seen r.host));
    }

    host-run_kept :
        (i : ℕ) (p : Packet) (r : Receiving S)
        → (r.cap.cache_packets i).buffer ≡ some p
        → (run_kept h i r).host ≡ h.packet_parse p r.host
    unfolding run_kept
    host-run_kept i p r e = ground arith

    Ran-next :
        {k w : ℕ} (r r' : Receiving S)
        → IsWindow msg got 1 k w r.cap
        → (r.cap.cache_packets ((k + 1) % window_count)).is_keep ≡ true
        → Ran seen (k + 1) (w - 1) (run_kept h ((k + 1) % window_count) r) r'
        → Ran seen k w r r'
    Ran-next {k} {w} r r' v on ran = record {
      m = suc ran.m;
      window =
          let e : k + 1 + ran.m ≡ k + suc ran.m = omega arith in
          let e' : w - 1 - ran.m ≡ w - suc ran.m = omega arith in rw (← e, ← e') ran.window;
      log = rw (
        ran.log,
        host-run_kept ((k + 1) % window_count) (msg (k + 1)) r (kept_one msg got v on).3,
        laws.seen-parse,
        append_assoc,
      );
    }

    pub run_ahead-Ran :
        (fuel : ℕ) {k w : ℕ} (r : Receiving S)
        → w < fuel
        → IsWindow msg got 1 k w r.cap
        → Ran seen k w r (run_ahead h fuel (u32 k) r)
    run_ahead-Ran zero r lt v = absurd (omega arith)
    run_ahead-Ran (suc fuel) {k} {w} r lt v =
        elim (Bool-cases (r.cap.cache_packets ((k + 1) % window_count)).is_keep) [
          | inr off ↦ rw (run_ahead_off fuel r v off) (Ran-stop r v off)
          | inl on ↦ rw (run_ahead_on fuel r v on) (
              Ran-next r _ v on (
                run_ahead-Ran fuel (run_kept h ((k + 1) % window_count) r)
                  (omega (arith, (kept_one msg got v on).1)) (run_kept-IsWindow r v on)))
        ]
