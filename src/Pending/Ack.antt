-- ===== src/Pending/Ack.antt =====
-- AckProcess against the map of the buffers that wait.
use dubuframework.Base.{
  ℕ, ◌+◌, ◌-◌, ◌%◌, ◌^◌, ◌≤◌, ◌<◌, ◌≡◌, ◌≢◌, refl, sym, ap, ◌∙◌, true, false, Option, none, some,
  arith, ◌==◌, Bool-cases, Option-cases, inl, inr, update, update_self, update_ne, u32, sub32,
  ne→==, ==_iff,
}
use native.Mathlib.Decide.{dec_lt, ℕ_discrete}
use dubuframework.PacketState.{window_count}
use dubuframework.PacketManager.{PacketManager}
use dubuframework.Pending.{
  PendingPacket, SendState, AckState, advance_start, ack_slot, ack_process, is_null, release_buffer,
}
use dubuframework.Pending.Window.{
  SlotWaits, IsPending, Waits, Stops, is_null-none, advance_start-Stops,
}

-- The window once `n` no longer waits in it.
remove_window :
    (live : ℕ → Option ℕ) (k len n start end : ℕ) (pending : ℕ → PendingPacket) (p : PendingPacket)
    → IsPending live k len start end pending
    → k ≤ n
    → n < k + len
    → p.buffer ≡ none
    → IsPending (update live n none) k len start end (update pending (u32 n % window_count) p)
remove_window live k len n start end pending p v ge lt null = record {
  start_at = v.start_at;
  end_at = v.end_at;
  within = v.within;
  slots = λ d small. elim (ℕ_discrete (k + d) n) [
    | yes same ↦
        let i : u32 n % window_count ≡ (k + d) % window_count = omega arith in
        rw (i, same, update_self pending (n % window_count) p, update_self live n none)
          (null, λ h. cc h)
    | no other ↦
        let i : u32 n % window_count ≢ (k + d) % window_count = omega (arith, v.within) in
        let j : n ≢ k + d = λ e. other (sym e) in
        rw (update_ne pending _ p _ i, update_ne live n none (k + d) j) (v.slots d small)
  ];
  past =
      λ j below. let ne : n ≢ j = omega arith in rw (update_ne live n none j ne) (v.past j below);
  beyond =
      λ j above. let ne : n ≢ j = omega arith in rw (update_ne live n none j ne) (v.beyond j above);
}

-- The distance from `k` of the slot of `n`
pub slot_of :
    (k n : ℕ) → let d = (n % 64 + 64 - k % 64) % 64 in (d < 64) × ((k + d) % 64 ≡ u32 n % 64)
slot_of k n = (omega arith, omega arith)

module _ (smooth : ℕ → ℕ → ℕ) (now n : ℕ) (s : SendState) (rtt : ℕ) (m : PacketManager) where
  abbrev slot : PendingPacket
  slot = s.pending_packets (u32 n % window_count)

  ack_null : slot.buffer ≡ none → ack_process smooth now (u32 n) s rtt m ≡ (s, rtt, m)
  unfolding ack_process ack_slot
  ack_null null = elim (Bool-cases (slot.sequence_no == u32 n)) [
    | inl on ↦ rw (on, null)
    | inr off ↦ rw off
  ]

  ack_other :
      (slot.sequence_no == u32 n) ≡ false → ack_process smooth now (u32 n) s rtt m ≡ (s, rtt, m)
  unfolding ack_process
  ack_other off = rw off

  abbrev acked : SendState
  acked =
      let pending =
        update s.pending_packets (u32 n % window_count) (record slot { buffer = none }) in
      record s {
        pending_packets = pending;
        local_window_start =
            advance_start window_count pending s.local_seqence s.local_window_start;
      }

  ack_waits :
      (a : ℕ)
      → slot.buffer ≡ some a
      → slot.sequence_no ≡ u32 n
      → ack_process smooth now (u32 n) s rtt m
        ≡ (acked, smooth rtt (sub32 now slot.time_stamp), release_buffer a m)
  unfolding ack_process ack_slot
  ack_waits a at seq = let t : (slot.sequence_no == u32 n) ≡ true = (==_iff _ _).1 seq in rw (t, at)

  -- What the acknowledgement of message `n` does, by the buffer that waits for it.
  abbrev pub Acknowledged : (ℕ → Option ℕ) → ℕ → ℕ → AckState smooth → Option ℕ → Type 0
  Acknowledged live k len r none = r ≡ (s, rtt, m)
  Acknowledged live k len (s', rtt', m') (some a) =
      Stops (update live n none) k len s'.local_seqence s'.pending_packets s'.local_window_start
      × (rtt' ≡ smooth rtt (sub32 now slot.time_stamp))
      × (m' ≡ release_buffer a m)

  -- The slot holds another number, or nothing.
  ack_nothing :
      (live : ℕ → Option ℕ) (k len d : ℕ)
      → Waits live k len s
      → live n ≡ none
      → d < 64
      → (k + d) % 64 ≡ u32 n % 64
      → k + len ≤ n + 2 ^ 32
      → n < k + 2 ^ 32
      → ack_process smooth now (u32 n) s rtt m ≡ (s, rtt, m)
  ack_nothing live k len d v gone small at low high =
      let there : SlotWaits (live (k + d)) (k + d) slot = rw at at (v.slots d small) in
      elim (Bool-cases (is_null (live (k + d)))) [
        | inl null ↦ ack_null (there.0 ∙ is_null-none _ null)
        | inr full ↦
            let inside : d < len = elim (dec_lt d len) [
              | yes p ↦ p
              | no p ↦
                  let e : live (k + d) ≡ none = v.beyond (k + d) (omega arith) in
                  cc (full, ap is_null e)
            ] in
            let ne : k + d ≢ n = λ e. cc (full, ap is_null (ap live e ∙ gone)) in
            let ne' : slot.sequence_no ≢ u32 n =
              λ e. omega (arith, ne, there.1 full, e, v.within, inside) in
            ack_other (ne→== _ _ ne')
      ]

  ack_something :
      (live : ℕ → Option ℕ) (k len a : ℕ)
      → Waits live k len s
      → live n ≡ some a
      → Acknowledged live k len (ack_process smooth now (u32 n) s rtt m) (some a)
  ack_something live k len a v is =
      let ge : k ≤ n = elim (dec_lt n k) [ yes p ↦ cc (is, v.past n p) | no p ↦ omega arith ] in
      let lt : n < k + len = elim (dec_lt n (k + len)) [
        | yes p ↦ p
        | no p ↦ cc (is, v.beyond n (omega arith))
      ] in
      let e : k + (n - k) ≡ n = omega arith in
      let i : (k + (n - k)) % window_count ≡ u32 n % window_count = omega arith in
      let there : SlotWaits (some a) n slot =
        rw (i, e, is) at (v.slots (n - k) (omega (arith, v.within))) in
      rw (ack_waits a there.0 (there.1 refl)) (
        advance_start-Stops (update live n none) window_count k len s.local_seqence
            s.local_window_start _ v.within
            (remove_window live k len n s.local_window_start s.local_seqence s.pending_packets
              (record slot { buffer = none }) v ge lt refl),
        refl,
        refl,
      )

  -- The acknowledgement of message `n` takes away the buffer that waits for it, moves the window to
  -- the first message that still waits, smooths the round trip time and releases that buffer; if
  -- none waits for `n` (a repeated or a false acknowledgement), nothing changes. `n` is within the
  -- range in which 32 bits tell messages apart.
  pub ack_process-Acknowledged :
      (live : ℕ → Option ℕ) (k len : ℕ)
      → Waits live k len s
      → k + len ≤ n + 2 ^ 32
      → n < k + 2 ^ 32
      → Acknowledged live k len (ack_process smooth now (u32 n) s rtt m) (live n)
  ack_process-Acknowledged live k len v low high = elim (Option-cases (live n)) [
    | inl gone ↦ rw gone (ack_nothing live k len _ v gone (slot_of k n).0 (slot_of k n).1 low high)
    | inr (a, is) ↦ rw is (ack_something live k len a v is)
  ]
