-- ===== src/Session/Acks.antt =====
-- What an acknowledgement for one stream leaves of the others.
use dubuframework.Base.{
  ℕ, ◌≡◌, ◌≢◌, refl, sym, ap, inl, inr, Bool, true, false, Option, none, some, Bool-cases, ltb,
  if◌then◌else◌, update, update_ne, bit_and,
}
use dubuframework.Packet.{Packet, channel_of}
use dubuframework.Packet.Flag
use dubuframework.PacketManager.{PacketManager}
use dubuframework.Pending.{SendState, ack_process}
use dubuframework.Session.{Session, World, recv_dispatch_ack}
use dubuframework.Session.Isolation.{Stream, receiver}

-- The window that an acknowledgement is for
abbrev pub acked_stream : ℕ → Stream
acked_stream flags =
    if ltb 0 (bit_and flags Flag.channel)
    then Stream.channel (channel_of flags)
    else Stream.unordered

-- The sending window of a stream; an unreliable stream has none.
abbrev pub window_of : Stream → Session → Option SendState
window_of (Stream.channel id) s = some (s.cache_sends id)
window_of Stream.unordered s = some s.rps_no.send
window_of Stream.unreliable s = none

set_channel :
    (q : Stream) (s : Session) (id : ℕ) (v : SendState) (rtt : ℕ)
    → q ≢ Stream.channel id
    → let s' : Session = record s { cache_sends = update s.cache_sends id v; rtt_millisec = rtt } in
      (window_of q s' ≡ window_of q s) × (receiver q s' ≡ receiver q s)
set_channel (Stream.channel j) s id v rtt ne =
    let other : id ≢ j = λ e. ne (ap Stream.channel (sym e)) in
    (ap some (update_ne s.cache_sends id v j other), refl)
set_channel Stream.unordered s id v rtt ne = (refl, refl)
set_channel Stream.unreliable s id v rtt ne = (refl, refl)

set_unordered :
    (q : Stream) (s : Session) (v : SendState) (rtt : ℕ)
    → q ≢ Stream.unordered
    → let s' : Session = record s { rps_no = record s.rps_no { send = v }; rtt_millisec = rtt } in
      (window_of q s' ≡ window_of q s) × (receiver q s' ≡ receiver q s)
set_unordered (Stream.channel j) s v rtt ne = (refl, refl)
set_unordered Stream.unordered s v rtt ne = absurd (ne refl)
set_unordered Stream.unreliable s v rtt ne = (refl, refl)

abbrev Kept : Stream → Session → Session → Type 0
Kept q s s' = (window_of q s' ≡ window_of q s) × (receiver q s' ≡ receiver q s)

unfoldable session_of : {S : Type 0} → Session → Option (Session × World S × Bool) → Session
session_of s none = s
session_of s (some (s', w', ok)) = s'

module _ {S : Type 0} (smooth : ℕ → ℕ → ℕ) (channel_mask now : ℕ) where
  abbrev channel_acked : Packet → Session → World S → SendState × ℕ × PacketManager
  channel_acked p s w =
      ack_process smooth now p.header.sequence_no (s.cache_sends (channel_of p.header.flags))
        s.rtt_millisec w.packets

  abbrev unordered_acked : Packet → Session → World S → SendState × ℕ × PacketManager
  unordered_acked p s w =
      ack_process smooth now p.header.sequence_no s.rps_no.send s.rtt_millisec w.packets

  ack_channel :
      (p : Packet) (s : Session) (w : World S)
      → s.is_connect ≡ true
      → ltb 0 (bit_and p.header.flags Flag.channel) ≡ true
      → ltb channel_mask (channel_of p.header.flags) ≡ false
      → recv_dispatch_ack smooth channel_mask now p s w
        ≡ some (
          record s {
            cache_sends = update s.cache_sends (channel_of p.header.flags) (channel_acked p s w).0;
            rtt_millisec = (channel_acked p s w).1;
          },
          record w { packets = (channel_acked p s w).2 },
          true,
        )
  unfolding recv_dispatch_ack
  ack_channel p s w on set fits = rw (on, set, fits) refl

  ack_unordered :
      (p : Packet) (s : Session) (w : World S)
      → s.is_connect ≡ true
      → ltb 0 (bit_and p.header.flags Flag.channel) ≡ false
      → recv_dispatch_ack smooth channel_mask now p s w
        ≡ some (
          record s {
            rps_no = record s.rps_no { send = (unordered_acked p s w).0 };
            rtt_millisec = (unordered_acked p s w).1;
          },
          record w { packets = (unordered_acked p s w).2 },
          true,
        )
  unfolding recv_dispatch_ack
  ack_unordered p s w on none_set = rw (on, none_set) refl

  ack_session :
      (p : Packet) (q : Stream) (s : Session) (w : World S)
      → q ≢ acked_stream p.header.flags
      → Kept q s (session_of s (recv_dispatch_ack smooth channel_mask now p s w))
  unfolding recv_dispatch_ack session_of
  ack_session p q s w ne =
      let flags = p.header.flags in
      elim (Bool-cases s.is_connect) [
        | inr off ↦
            let e : recv_dispatch_ack smooth channel_mask now p s w ≡ some (s, w, false) =
              rw off refl in
            rw e (refl, refl)
        | inl on ↦ elim (Bool-cases (ltb 0 (bit_and flags Flag.channel))) [
          | inl set ↦ elim (Bool-cases (ltb channel_mask (channel_of flags))) [
            | inl beyond ↦
                let e : recv_dispatch_ack smooth channel_mask now p s w ≡ none =
                  rw (on, set, beyond) refl in
                rw e (refl, refl)
            | inr fits ↦
                let e = ack_channel p s w on set fits in
                rw e (set_channel q s (channel_of flags) _ _ (rw set at ne))
          ]
          | inr none_set ↦
              let e = ack_unordered p s w on none_set in
              rw e (set_unordered q s _ _ (rw none_set at ne))
        ]
      ]

  -- An acknowledgement, if it is within the range of the channels, changes the window of no other
  -- stream, and nothing that is kept to receive that stream.
  pub recv_dispatch_ack-Isolated :
      (p : Packet) (q : Stream) (s : Session) (w : World S) (s' : Session) (w' : World S)
      (ok : Bool)
      → recv_dispatch_ack smooth channel_mask now p s w ≡ some (s', w', ok)
      → q ≢ acked_stream p.header.flags
      → (window_of q s' ≡ window_of q s) × (receiver q s' ≡ receiver q s)
  unfolding session_of
  recv_dispatch_ack-Isolated p q s w s' w' ok e ne = rw e at (ack_session p q s w ne)
