-- ===== src/Pending/Send.antt =====
-- AddPendingPacket against the map of the buffers that wait.
use dubuframework.Base.{
  ℕ, ◌+◌, ◌-◌, ◌%◌, ◌^◌, ◌≤◌, ◌<◌, ◌≡◌, ◌≢◌, refl, sym, true, false, Option, some, arith, ltb, leb,
  if◌then◌else◌, update, update_self, update_ne, u32, sub32, succ32, lt→ltb, le→ltb,
}
use native.Mathlib.Decide.{dec_lt, ℕ_discrete}
use dubuframework.PacketState.{window_count}
use dubuframework.PacketManager.{PacketManager}
use dubuframework.Sequence.{del_ahead}
use dubuframework.Pending.{PendingPacket, SendState, add_pending_packet}
use dubuframework.Pending.Window.{IsPending, Waits}

-- A packet too far ahead for the window, and what it leaves.
add_far :
    (m : PacketManager) (opb : ℕ) (s : SendState) (k n : ℕ)
    → s.local_window_start ≡ u32 k
    → (m.buffers opb).packet.header.sequence_no ≡ u32 n
    → k + window_count ≤ n
    → n < k + 2 ^ 32
    → add_pending_packet m opb s ≡ (s, false)
unfolding add_pending_packet
add_far m opb s k n start seq far near =
    let t : leb window_count (sub32 (u32 n) (u32 k)) ≡ true =
      let e : window_count ≤ sub32 (u32 n) (u32 k) = omega arith in ground arith in
    rw (seq, start, t)

-- The window once `n` waits in it.
add_window :
    (live : ℕ → Option ℕ) (opb k len n start end end' : ℕ) (pending : ℕ → PendingPacket)
    (p : PendingPacket)
    → IsPending live k len start end pending
    → k + len ≤ n
    → n < k + window_count
    → end' ≡ u32 (n + 1)
    → p.buffer ≡ some opb
    → p.sequence_no ≡ u32 n
    → IsPending
        (update live n (some opb))
        k
        (n + 1 - k)
        start
        end'
        (update pending (u32 n % window_count) p)
add_window live opb k len n start end end' pending p v ge lt ends at seq = record {
  start_at = v.start_at;
  end_at = let e : k + (n + 1 - k) ≡ n + 1 = omega arith in rw e ends;
  within = omega arith;
  slots = λ d small. elim (ℕ_discrete (k + d) n) [
    | yes same ↦
        let i : u32 n % window_count ≡ (k + d) % window_count = omega arith in
        rw (i, same, update_self pending (n % window_count) p, update_self live n (some opb))
          (at, λ h. seq)
    | no other ↦
        let i : u32 n % window_count ≢ (k + d) % window_count = omega arith in
        let j : n ≢ k + d = λ e. other (sym e) in
        rw (update_ne pending _ p _ i, update_ne live n (some opb) (k + d) j) (v.slots d small)
  ];
  past = λ j below.
      let ne : n ≢ j = omega arith in rw (update_ne live n (some opb) j ne) (v.past j below);
  beyond = λ j above.
      let ne : n ≢ j = omega arith in
      rw (update_ne live n (some opb) j ne) (v.beyond j (omega arith));
}

add_end :
    (k len n end : ℕ)
    → end ≡ u32 (k + len)
    → u32 (k + len) ≤ u32 n
    → (if leb end (u32 n) then succ32 (u32 n) else end) ≡ u32 (n + 1)
add_end k len n end at le =
    let t : leb end (u32 n) ≡ true = let e : end ≤ u32 n = rw at le in ground arith in
    rw t (omega arith)

-- A packet within the window.
abbrev added : PacketManager → ℕ → SendState → SendState
added m opb s =
    let header = (m.buffers opb).packet.header in
    let n = header.sequence_no in
    record s {
      pending_packets = update s.pending_packets (n % window_count) (record {
        buffer = some opb;
        time_stamp = header.timestamp;
        sequence_no = n;
        is_sent = false;
      });
      local_seqence = if leb s.local_seqence n then succ32 n else s.local_seqence;
    }

add_near :
    (m : PacketManager) (opb : ℕ) (s : SendState) (k n : ℕ)
    → s.local_window_start ≡ u32 k
    → (m.buffers opb).packet.header.sequence_no ≡ u32 n
    → k ≤ n
    → n < k + window_count
    → add_pending_packet m opb s ≡ (added m opb s, true)
unfolding add_pending_packet
add_near m opb s k n start seq le lt =
    let t : leb window_count (sub32 (m.buffers opb).packet.header.sequence_no s.local_window_start)
        ≡ false =
      rw (seq, start) (del_ahead k n le lt) in
    rw t

-- AddPendingPacket keeps the packet until it is acknowledged exactly if fewer than 64 numbers lie
-- between it and the first one that waits, and otherwise changes nothing. The packets before it
-- wait on. Numbers may be left out, as long as the 32-bit number is not below the end of the window.
pub add_pending_packet-Waits :
    (m : PacketManager) (opb : ℕ) (s : SendState) (live : ℕ → Option ℕ) (k len n : ℕ)
    → Waits live k len s
    → (m.buffers opb).packet.header.sequence_no ≡ u32 n
    → k + len ≤ n
    → n < k + 2 ^ 32
    → u32 (k + len) ≤ u32 n
    → let (s', kept) = add_pending_packet m opb s in
      (kept ≡ ltb n (k + window_count))
      × Waits
          (if kept then update live n (some opb) else live)
          k
          (if kept then n + 1 - k else len)
          s'
add_pending_packet-Waits m opb s live k len n v seq ge near up =
    elim (dec_lt n (k + window_count)) [
      | yes lt ↦
          let e = add_near m opb s k n v.start_at seq (omega arith) lt in
          rw (e, seq)
            (
              sym (lt→ltb n _ lt),
              add_window live opb k len n s.local_window_start s.local_seqence _ s.pending_packets
                  (record {
                    buffer = some opb;
                    time_stamp = (m.buffers opb).packet.header.timestamp;
                    sequence_no = u32 n;
                    is_sent = false;
                  })
                  v ge lt (add_end k len n s.local_seqence v.end_at up) refl refl,
            )
      | no far ↦
          let e = add_far m opb s k n v.start_at seq (omega arith) near in
          rw e (sym (le→ltb n _ (omega arith)), v)
    ]
