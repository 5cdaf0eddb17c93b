-- ===== src/Channel/Order.antt =====
-- Any sequence of arrivals on an ordered channel: lost, repeated, overtaken.
use dubuframework.Base.{
  ℕ, zero, suc, ◌+◌, ◌≤◌, ◌≡◌, sym, ap, Bool, true, false, List, [], ◌∷◌, ◌++◌, map, append-nil,
  append_assoc, arith,
}
use native.Mathlib.Decide.{dec_lt}
use dubuframework.Sequence.{IsStream}
use dubuframework.Packet.{Packet}
use dubuframework.PacketState.{window_count}
use dubuframework.Host.{Host, IsLog}
use dubuframework.Sequence.{IsNear}
use dubuframework.Channel.{CacheAlreadyPacket, Receiving, receive}
use dubuframework.Window.{admit, advance_lem}
use dubuframework.Channel.Spec.{Spec, spec_step, spec_run, AllNear}
use dubuframework.Channel.Ahead.{messages, IsWindow}
use dubuframework.Channel.Delivery.{receive-Result}

-- The packets of a channel, one call of RecvDispatch each.
unfoldable pub receive_all : {S : Type 0} → Host S → List Packet → Receiving S → Receiving S
receive_all h [] r = r
receive_all h (p ∷ ps) r = receive_all h ps (receive h p r).0

pub messages-add :
    (msg : ℕ → Packet) (k m j : ℕ)
    → messages msg k (m + j) ≡ messages msg k m ++ messages msg (k + m) j
messages-add msg k zero j =
    let e : 0 + j ≡ j = omega arith in let e' : k + 0 ≡ k = omega arith in rw (e, e')
messages-add msg k (suc m) j =
    let e : suc m + j ≡ suc (m + j) = omega arith in
    let e' : k + 1 + m ≡ k + suc m = omega arith in
    rw (e, ← e') (ap (λ l. msg (k + 1) ∷ l) (messages-add msg (k + 1) m j))

-- No message past the window is admitted.
short :
    (k n : ℕ) (got : ℕ → Bool) (m : ℕ)
    → ((j : ℕ) → k + window_count ≤ j → got j ≡ false)
    → admit k n got (k + m) ≡ true
    → m ≤ window_count
short k n got m beyond e = elim (dec_lt m window_count) [
  | yes p ↦ omega arith
  | no p ↦ absurd (ground (arith, beyond (k + m) (omega arith)))
]

-- The message after the delivered ones has not been received.
pub gap_after :
    (msg : ℕ → Packet) (got : ℕ → Bool) {k w : ℕ} {cap : CacheAlreadyPacket}
    → IsWindow msg got 2 k w cap
    → got (k + 1) ≡ false
gap_after msg got v = ground (arith, v.slots 1 (omega arith))

module _ {S : Type 0} (h : Host S) (msg : ℕ → Packet) (stream : IsStream msg)
    (seen : S → List Packet) (laws : IsLog h seen) where
  -- The state of a channel, against the specification.
  pub record Refines (s : Spec) (r : Receiving S) : Type 0 where
    pub w : ℕ
    pub window : IsWindow msg s.got 2 s.upto w r.cap

  step :
      (n : ℕ) (s : Spec) (r : Receiving S)
      → IsNear s.upto n
      → Refines s r
      → (m : ℕ) × ((spec_step n s).upto ≡ s.upto + m)
        × Refines (spec_step n s) (receive h (msg n) r).0
        × (seen (receive h (msg n) r).0.host ≡ seen r.host ++ messages msg s.upto m)
  unfolding spec_step
  step n s r near f =
      let out = (receive-Result h msg stream seen laws s.got r f.window n near).1 in
      let q =
        advance_lem window_count out.m (admit s.upto n s.got) s.upto
          (short s.upto n s.got out.m f.window.beyond
            (out.window.done (s.upto + out.m) (omega arith)))
          out.window.done (gap_after msg (admit s.upto n s.got) out.window) in
      (out.m, q, record { w = out.w; window = rw q out.window }, out.log)

  -- Whatever order the packets of a channel arrive in, however often they are sent again and
  -- whichever are lost, the code parses exactly the messages that follow those parsed before, each
  -- once and in the order of their numbers, as far as the specification goes, and its state agrees
  -- with the specification's. Each message arrives near enough to what is delivered by then.
  pub receive_all-Refines :
      (ns : List ℕ) (s : Spec) (r : Receiving S)
      → AllNear s ns
      → Refines s r
      → (m : ℕ) × ((spec_run ns s).upto ≡ s.upto + m)
        × Refines (spec_run ns s) (receive_all h (map msg ns) r)
        × (seen (receive_all h (map msg ns) r).host ≡ seen r.host ++ messages msg s.upto m)
  unfolding spec_run receive_all
  receive_all-Refines [] s r near f = (0, omega arith, f, sym (append-nil (seen r.host)))
  receive_all-Refines (n ∷ ns) s r near f =
      let (a, qa, fa, la) = step n s r near.0 f in
      let (b, qb, fb, lb) =
        receive_all-Refines ns (spec_step n s) (receive h (msg n) r).0 near.1 fa in
      (a + b, omega arith, fb, rw (lb, la, qa, messages-add msg s.upto a b, append_assoc))
