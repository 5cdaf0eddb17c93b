-- ===== src/Channel/Keep.antt =====
-- A packet that is ahead within the window is kept in its slot.
use dubuframework.Base.{
  ℕ, ◌+◌, ◌-◌, ◌%◌, ◌^◌, ◌≤◌, ◌<◌, ◌≡◌, refl, sym, ◌∙◌, inl, inr, Bool, true, false, ◌&&◌, some,
  List, append-nil, arith, ◌==◌, if◌then◌else◌, Bool-cases, update, update_ne, update_self,
  update-same, u32, sub32, bit_or, ltb,
}
use native.Mathlib.Decide.{dec_lt, ℕ_discrete}
use dubuframework.Sequence.{IsStream}
use dubuframework.Packet.{Packet}
use dubuframework.PacketState.{window_count, RecvState}
use dubuframework.CachePool.{pop_packet_buffer}
use dubuframework.Host.{Host, IsLog}
use dubuframework.Sequence.{del_within, del_ahead, raise_true, raise_false}
use dubuframework.Channel.{CachePacket, CacheAlreadyPacket, Receiving, keep_ahead}
use dubuframework.Channel.Ahead.{SlotHolds, IsWindow}
use dubuframework.Channel.Next.{Outcome}

SlotHolds-wider :
    (msg : ℕ → Packet) (b : Bool) (w w' d n : ℕ) (c : CachePacket)
    → w ≤ w'
    → SlotHolds msg b 2 w d n c
    → SlotHolds msg b 2 w' d n c
SlotHolds-wider msg b w w' d n c le s = ground arith

-- The slot of message `n` alone changes.
module _ (msg : ℕ → Packet) (got : ℕ → Bool) {k w : ℕ} {cap : CacheAlreadyPacket}
    (v : IsWindow msg got 2 k w cap) (n : ℕ) (low : k + 2 ≤ n) (high : n < k + window_count) where
  -- The highest place.
  abbrev w' : ℕ
  w' = if ltb (n - k) w then w else n - k

  slot_kept :
      (c : CachePacket)
      → c.is_keep ≡ true
      → c.sequence_no ≡ u32 n
      → c.buffer ≡ some (msg n)
      → (d : ℕ) → d < window_count
      → SlotHolds msg
          (update got n true (k + d))
          2
          w'
          d
          (k + d)
          (update cap.cache_packets (n % window_count) c ((k + d) % window_count))
  slot_kept c on sq bf d lt = elim (ℕ_discrete (k + d) n) [
    | yes e ↦
        rw (e, update_self got n true, update_self cap.cache_packets (n % window_count) c)
          (ground arith)
    | no ne ↦
        rw
          (
            update_ne got n true (k + d) (λ q. ne (sym q)),
            update_ne cap.cache_packets (n % window_count) c ((k + d) % window_count) (omega arith),
          )
          (SlotHolds-wider msg (got (k + d)) w w' d (k + d)
            (cap.cache_packets ((k + d) % window_count)) (ground arith) (v.slots d lt))
  ]

  keep-IsWindow :
      (cap' : CacheAlreadyPacket) (c : CachePacket)
      → c.is_keep ≡ true
      → c.sequence_no ≡ u32 n
      → c.buffer ≡ some (msg n)
      → cap'.cache_packets ≡ update cap.cache_packets (n % window_count) c
      → cap'.rps.recv_repeat_seq ≡ u32 k
      → cap'.rps.last_repeat_seq ≡ u32 (k + w')
      → IsWindow msg (update got n true) 2 k w' cap'
  keep-IsWindow cap' c on sq bf ec er el = record {
    recv_at = er;
    last_at = el;
    within = ground (arith, v.within);
    slots = λ d lt. rw ec (slot_kept c on sq bf d lt);
    done = λ i le. ground (arith, v.done i);
    beyond = λ i le. ground (arith, v.beyond i);
  }

  highest :
      (if ltb (sub32 (u32 n) (u32 (k + w))) window_count then u32 n else u32 (k + w)) ≡ u32 (k + w')
  highest = elim (dec_lt (n - k) w) [
    | yes p ↦
        rw (raise_false k n (k + w) (omega (arith, v.within)) (omega arith) (omega arith))
          (ground arith)
    | no p ↦
        rw
          (raise_true k n (k + w) (omega arith) (omega (arith, v.within)) (omega arith)
            (omega arith))
          (ground arith)
  ]

module _ {S : Type 0} (h : Host S) (msg : ℕ → Packet) (stream : IsStream msg)
    (seen : S → List Packet) (laws : IsLog h seen) (got : ℕ → Bool) {k w : ℕ} (r : Receiving S)
    (v : IsWindow msg got 2 k w r.cap) (n : ℕ) (low : k + 2 ≤ n) (high : n < k + window_count) where
  abbrev slot : CachePacket
  slot = r.cap.cache_packets (n % window_count)

  abbrev fresh : CachePacket
  fresh = record {
    buffer = some (msg n);
    time_stamp = (h.clock r.host).0;
    sequence_no = (msg n).header.sequence_no;
    is_keep = true;
  }

  abbrev raised : RecvState
  raised = record r.cap.rps { last_repeat_seq = u32 (k + w' msg got v n low high) }

  index : u32 n % window_count ≡ n % window_count
  index = omega arith

  keep_again :
      (slot.is_keep && slot.sequence_no == u32 n) ≡ true
      → keep_ahead h (msg n) r ≡ (record r { cap = record r.cap { rps = raised } }, true)
  unfolding keep_ahead
  keep_again on = rw (
    stream.numbered n,
    v.recv_at,
    v.last_at,
    del_ahead k n (omega arith) high,
    index,
    on,
    highest msg got v n low high,
  )

  keep_fresh :
      (slot.is_keep && slot.sequence_no == u32 n) ≡ false
      → keep_ahead h (msg n) r ≡ (
        record {
          cap = record {
            rps = record raised {
              cache_repeat_count = bit_or r.cap.rps.cache_repeat_count (2 ^ (n - k - 1));
            };
            cache_packets = update r.cap.cache_packets (n % window_count) fresh;
          };
          caches = pop_packet_buffer r.caches;
          host = (h.clock r.host).1;
        },
        true,
      )
  unfolding keep_ahead
  keep_fresh off = rw (
    stream.numbered n,
    v.recv_at,
    v.last_at,
    del_ahead k n (omega arith) high,
    index,
    off,
    highest msg got v n low high,
    del_within k n (omega arith) high,
  )

  abbrev seqs : ℕ → Bool
  seqs = update got n true

  -- The slot of message `n` holds message `n`, if it is kept.
  slot_at :
      (slot.is_keep && slot.sequence_no == u32 n) ≡ true
      → (slot.is_keep ≡ true) × (slot.sequence_no ≡ u32 n) × (slot.buffer ≡ some (msg n))
  slot_at on =
      let e : k + (n - k) ≡ n = omega arith in
      let s = rw e at (v.slots (n - k) (omega arith)) in ground (arith, s)

  -- With no more parsed.
  unmoved :
      (r' : Receiving S)
      → IsWindow msg seqs 2 k (w' msg got v n low high) r'.cap
      → seen r'.host ≡ seen r.host
      → Outcome msg seen seqs k r r'
  unmoved r' win e = record {
    m = 0;
    w = w' msg got v n low high;
    window = let e : k + 0 ≡ k = omega arith in rw e win;
    log = e ∙ sym (append-nil (seen r.host));
  }

  pub keep_ahead-Outcome :
      (keep_ahead h (msg n) r).1 ≡ true × Outcome msg seen seqs k r (keep_ahead h (msg n) r).0
  keep_ahead-Outcome = elim (Bool-cases (slot.is_keep && slot.sequence_no == u32 n)) [
    | inl on ↦
        let (a, b, c) = slot_at on in
        rw (keep_again on) (
          refl,
          unmoved _
              (keep-IsWindow msg got v n low high _ slot a b c
                (sym (update-same r.cap.cache_packets (n % window_count))) v.recv_at refl)
              refl,
        )
    | inr off ↦ rw (keep_fresh off) (
      refl,
      unmoved _
          (keep-IsWindow msg got v n low high _ fresh refl (stream.numbered n) refl refl v.recv_at
            refl)
          (laws.seen-clock r.host),
    )
  ]
