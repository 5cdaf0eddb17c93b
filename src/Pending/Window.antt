-- ===== src/Pending/Window.antt =====
-- The pending window, against the map from message numbers to the buffers that wait for an
-- acknowledgement.
use dubuframework.Base.{
  ℕ, zero, suc, ◌+◌, ◌-◌, ◌%◌, ◌≤◌, ◌<◌, ◌≡◌, ◌≢◌, ◌⊎◌, refl, sym, ap, ◌∙◌, inl, inr, true, false,
  Option, none, some, arith, ◌==◌, Bool-cases, ne→==, u32, succ32,
}
use native.Mathlib.Decide.{dec_lt, ℕ_discrete}
use dubuframework.PacketState.{window_count}
use dubuframework.Pending.{PendingPacket, SendState, is_null, advance_start}

-- The slot of message `n`: the buffer that waits there, if any, under the number of `n`.
abbrev pub SlotWaits : Option ℕ → ℕ → PendingPacket → Type 0
SlotWaits l n p = (p.buffer ≡ l) × (is_null l ≡ false → p.sequence_no ≡ u32 n)

-- `live` tells the buffers that wait; all of them are of messages from `k` on and below `k + len`.
pub record IsPending (live : ℕ → Option ℕ) (k len start end : ℕ) (pending : ℕ → PendingPacket)
    : Type 0 where
  pub start_at : start ≡ u32 k
  pub end_at : end ≡ u32 (k + len)
  pub within : len ≤ window_count
  pub slots :
      (d : ℕ)
      → d < window_count
      → SlotWaits (live (k + d)) (k + d) (pending ((k + d) % window_count))
  pub past : (n : ℕ) → n < k → live n ≡ none
  pub beyond : (n : ℕ) → k + len ≤ n → live n ≡ none

abbrev pub Waits : (ℕ → Option ℕ) → ℕ → ℕ → SendState → Type 0
Waits live k len s = IsPending live k len s.local_window_start s.local_seqence s.pending_packets

module _ (live : ℕ → Option ℕ) {end : ℕ} {pending : ℕ → PendingPacket} where
  -- The window goes on by one where nothing waits.
  IsPending-shift :
      {k len start : ℕ}
      → IsPending live k len start end pending
      → live k ≡ none
      → 1 ≤ len
      → IsPending live (k + 1) (len - 1) (succ32 start) end pending
  IsPending-shift {k} {len} v gone some_left = record {
    start_at = omega (arith, v.start_at);
    end_at = let e : k + 1 + (len - 1) ≡ k + len = omega arith in rw e v.end_at;
    within = omega (arith, v.within);
    slots = λ d lt. elim (dec_lt d 63) [
      | yes p ↦
          let e : k + (d + 1) ≡ k + 1 + d = omega arith in rw e at (v.slots (d + 1) (omega arith))
      | no p ↦
          let e : (k + 1 + d) % window_count ≡ (k + 0) % window_count = omega arith in
          let z : k + 0 ≡ k = omega arith in
          let none_there : live (k + 1 + d) ≡ none =
            v.beyond (k + 1 + d) (omega (arith, v.within)) in
          rw (e, none_there) ((v.slots 0 (omega arith)).0 ∙ (rw z gone), λ h. cc)
    ];
    past = λ n lt. elim (ℕ_discrete n k) [ yes e ↦ rw e gone | no ne ↦ v.past n (omega arith) ];
    beyond = λ n le. v.beyond n (omega arith);
  }

-- The window stops at the first message that waits, or at the end.
pub record Stops (live : ℕ → Option ℕ) (k len end : ℕ) (pending : ℕ → PendingPacket) (start : ℕ)
    : Type 0 where
  pub gone : ℕ
  pub fits : gone ≤ len
  pub window : IsPending live (k + gone) (len - gone) start end pending
  pub first : (gone ≡ len) ⊎ (is_null (live (k + gone)) ≡ false)

Stops-here :
    (live : ℕ → Option ℕ) {k len end start : ℕ} {pending : ℕ → PendingPacket}
    → IsPending live k len start end pending
    → (0 ≡ len) ⊎ (is_null (live k) ≡ false)
    → Stops live k len end pending start
Stops-here live {k} {len} v first =
    let z : k + 0 ≡ k = omega arith in
    let l : len - 0 ≡ len = omega arith in
    record { gone = 0; fits = omega arith; window = rw (z, l) v; first = rw z first }

Stops-later :
    (live : ℕ → Option ℕ) {k len end start : ℕ} {pending : ℕ → PendingPacket}
    → 1 ≤ len
    → Stops live (k + 1) (len - 1) end pending start
    → Stops live k len end pending start
Stops-later live {k} {len} some_left s =
    let e : k + (s.gone + 1) ≡ k + 1 + s.gone = omega arith in
    let l : len - (s.gone + 1) ≡ len - 1 - s.gone = omega arith in
    record {
      gone = s.gone + 1;
      fits = omega (arith, s.fits);
      window = rw (e, l) s.window;
      first = elim s.first [ inl q ↦ inl (omega arith) | inr q ↦ inr (rw e q) ];
    }

pub is_null-none : (l : Option ℕ) → is_null l ≡ true → l ≡ none
is_null-none none e = refl
is_null-none (some a) e = cc e

-- With at least as many rounds as the window is long, the loop of AckProcess stops at the first
-- packet that waits, or at the end of the window; no packet waits before.
pub advance_start-Stops :
    (live : ℕ → Option ℕ) (fuel k len end start : ℕ) (pending : ℕ → PendingPacket)
    → len ≤ fuel
    → IsPending live k len start end pending
    → Stops live k len end pending (advance_start fuel pending end start)
unfolding advance_start
advance_start-Stops live zero k len end start pending le v = Stops-here live v (inl (omega arith))
advance_start-Stops live (suc fuel) k len end start pending le v = elim (ℕ_discrete len 0) [
  | yes z ↦
      let l : k + len ≡ k = omega arith in
      let e : start ≡ end = v.start_at ∙ sym (v.end_at ∙ ap u32 l) in
      let t : (start == end) ≡ true = ground (arith, e) in
      rw (t, advance_start) (Stops-here live v (inl (sym z)))
  | no ne ↦
      let e : start ≢ end = λ q. omega (arith, v.start_at, v.end_at, v.within) in
      let t : (start == end) ≡ false = ne→== _ _ e in
      let z : k + 0 ≡ k = omega arith in
      let slot : (pending (start % window_count)).buffer ≡ live k =
        let i : start % window_count ≡ (k + 0) % window_count = omega (arith, v.start_at) in
        rw i ((v.slots 0 (omega arith)).0 ∙ ap live z) in
      elim (Bool-cases (is_null (live k))) [
        | inr off ↦ rw (t, slot, off, advance_start) (Stops-here live v (inr off))
        | inl on ↦
            let next = IsPending-shift live v (is_null-none _ on) (omega arith) in
            rw (t, slot, on, advance_start)
              (Stops-later live (omega arith) (
                advance_start-Stops live fuel (k + 1) (len - 1) end (succ32 start) pending
                  (omega arith) next))
      ]
]
