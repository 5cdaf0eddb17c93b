-- ===== src/Sending/Numbers.antt =====
-- The numbers of a window: what is sent under the next number finds its slot free or is refused.
use dubuframework.Base.{
  ℕ, ◌+◌, ◌-◌, ◌%◌, ◌^◌, ◌≤◌, ◌<◌, ◌≡◌, inl, inr, sym, ap, ◌∙◌, subst, true, Option, none, some,
  arith, leb, ltb→lt, not, ◌&&◌, sub32, update, update_self, update_ne, u32, Bool-cases,
  Option-cases,
}
use native.Mathlib.Decide.{ℕ_discrete}
use dubuframework.PacketState.{window_count}
use dubuframework.PacketManager.{PacketManager}
use dubuframework.Pending.{SendState, update_send_sequence_no, add_pending_packet, ack_process}
use dubuframework.Pending.Window.{SlotWaits, Waits}
use dubuframework.Pending.Send.{add_pending_packet-Waits}
use dubuframework.Pending.Ack.{ack_process-Acknowledged}
use dubuframework.Link.Agree.{add_pending_packet-drawn, ack_process-drawn}
use dubuframework.Socket.{Addr, Net}
use dubuframework.Sending.{repeat_slot}

-- `count` numbers were drawn, and what waits in the window has some of them.
pub record IsNumbered (count : ℕ) (w : SendState) : Type 0 where
  pub live : ℕ → Option ℕ
  pub k : ℕ
  pub len : ℕ
  pub drawn : w.send_repeat_seq ≡ u32 count
  pub waits : Waits live k len w
  pub last : k + len ≤ count + 1

module _ (count : ℕ) (w : SendState) (few : count + 65 < 2 ^ 32) (v : IsNumbered count w) where
  abbrev drawn_once : SendState
  drawn_once = (update_send_sequence_no w).0

  pub next_number : (update_send_sequence_no w).1 ≡ u32 (count + 1)
  unfolding update_send_sequence_no
  next_number = omega (arith, v.drawn, few)

  -- AddPendingPacket under the next number: what it answers, and the slot when it takes the packet
  pub next-IsNumbered :
      (m : PacketManager) (a : ℕ)
      → (m.buffers a).packet.header.sequence_no ≡ u32 (count + 1)
      → IsNumbered (count + 1) (add_pending_packet m a drawn_once).0
        × ((add_pending_packet m a drawn_once).1 ≡ true
            → (w.pending_packets (u32 (count + 1) % window_count)).buffer ≡ none)
  unfolding update_send_sequence_no
  next-IsNumbered m a at =
      let n = count + 1 in
      let (kept, waits) =
        add_pending_packet-Waits m a drawn_once v.live v.k v.len n v.waits at v.last
          (omega (arith, few)) (omega (arith, v.last, few)) in
      let drawn = add_pending_packet-drawn m a drawn_once ∙ next_number in
      elim (Bool-cases (add_pending_packet m a drawn_once).1) [
        | inr off ↦ (
          record {
            live = v.live;
            k = v.k;
            len = v.len;
            drawn = drawn;
            waits = rw off at waits;
            last = omega (arith, v.last);
          },
          λ on. cc (sym on ∙ off),
        )
        | inl on ↦
            let near = ltb→lt n (v.k + window_count) (sym kept ∙ on) in
            let e : v.k + (n - v.k) ≡ n = omega (arith, v.last) in
            let i : (v.k + (n - v.k)) % window_count ≡ u32 n % window_count = omega (arith, e) in
            let there : SlotWaits (v.live n) n (w.pending_packets (u32 n % window_count)) =
              rw (i, e) at (v.waits.slots (n - v.k) (omega (arith, near))) in
            (
              record {
                live = update v.live n (some a);
                k = v.k;
                len = n + 1 - v.k;
                drawn = drawn;
                waits = rw on at waits;
                last = omega (arith, v.last);
              },
              λ _. there.0 ∙ v.waits.beyond n v.last,
            )
      ]

  pub ack-IsNumbered :
      (smooth : ℕ → ℕ → ℕ) (now ack rtt : ℕ) (m : PacketManager)
      → ack < 2 ^ 32
      → IsNumbered count (ack_process smooth now ack w rtt m).0
  ack-IsNumbered smooth now ack rtt m small =
      let whole : u32 ack ≡ ack = omega (arith, small) in
      let done =
        ack_process-Acknowledged smooth now ack w rtt m v.live v.k v.len v.waits
          (omega (arith, v.last, few)) (omega (arith, small)) in
      let drawn = ack_process-drawn smooth now ack w rtt m ∙ v.drawn in
      elim (Option-cases (v.live ack)) [
        | inl gone ↦
            let e : ack_process smooth now (u32 ack) w rtt m ≡ (w, rtt, m) = rw gone at done in
            let same : w ≡ (ack_process smooth now ack w rtt m).0 =
              sym (ap (λ r. r.0) (ap (λ x. ack_process smooth now x w rtt m) (sym whole) ∙ e)) in
            subst (IsNumbered count) same v
        | inr (a, is) ↦
            let stops = (rw (is, whole) at done).0 in
            record {
              live = update v.live ack none;
              k = v.k + stops.gone;
              len = v.len - stops.gone;
              drawn = drawn;
              waits = stops.window;
              last = omega (arith, v.last, stops.fits);
            }
      ]

  restamped-IsNumbered :
      (i now : ℕ)
      → IsNumbered count (record w {
        pending_packets =
            update w.pending_packets i (record (w.pending_packets i) { time_stamp = now });
      })
  restamped-IsNumbered i now = record {
    live = v.live;
    k = v.k;
    len = v.len;
    drawn = v.drawn;
    waits = record {
      start_at = v.waits.start_at;
      end_at = v.waits.end_at;
      within = v.waits.within;
      past = v.waits.past;
      beyond = v.waits.beyond;
      slots = λ d small. elim (ℕ_discrete i ((v.k + d) % window_count)) [
        | yes e ↦
            let p = record (w.pending_packets i) { time_stamp = now } in
            let here : SlotWaits (v.live (v.k + d)) (v.k + d) p =
              subst (λ j. SlotWaits (v.live (v.k + d)) (v.k + d) (w.pending_packets j)) (sym e)
                (v.waits.slots d small) in
            subst (λ j. SlotWaits (v.live (v.k + d)) (v.k + d) (update w.pending_packets i p j)) e
              (subst (SlotWaits (v.live (v.k + d)) (v.k + d))
                (sym (update_self w.pending_packets i p)) here)
        | no ne ↦
            subst (SlotWaits (v.live (v.k + d)) (v.k + d))
              (sym (update_ne w.pending_packets i _ ((v.k + d) % window_count) ne))
              (v.waits.slots d small)
      ];
    };
    last = v.last;
  }

  pub repeat-IsNumbered :
      {S : Type 0} (addr : Addr) (delay now : ℕ) (o : Option ℕ) (i : ℕ) (n : Net S)
      → IsNumbered count (repeat_slot addr delay now o i (w, n)).0
  unfolding repeat_slot
  repeat-IsNumbered addr delay now none i n = v
  repeat-IsNumbered addr delay now (some a) i n =
      let p = w.pending_packets i in
      elim (Bool-cases
        (not (n.packets.buffers a).obj_type.sending && leb delay (sub32 now p.time_stamp))) [
          | inr off ↦ rw off v
          | inl on ↦ rw on (restamped-IsNumbered i now)
        ]
