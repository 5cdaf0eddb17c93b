-- ===== src/Channel/Delivery.antt =====
-- One call of the channel branch of RecvDispatch, on each of its paths.
use dubuframework.Base.{
  ℕ, ◌+◌, ◌≤◌, ◌<◌, ◌≡◌, refl, sym, ◌⊎◌, Bool, true, false, List, append-nil, arith, if◌then◌else◌,
  le→ltb, lt→ltb, update-same, update,
}
use native.Mathlib.Decide.{dec_lt, ℕ_discrete}
use dubuframework.Sequence.{IsStream}
use dubuframework.Packet.{Packet}
use dubuframework.PacketState.{window_count}
use dubuframework.Sequence.{IsNear, again_true, again_false, next_false, next_true, del_far}
use dubuframework.Host.{Host, IsLog}
use dubuframework.Channel.{Receiving, receive, receive_next, keep_ahead}
use dubuframework.Window.{in_window}
use dubuframework.Channel.Next.{Outcome, receive_next-Outcome}
use dubuframework.Channel.Keep.{keep_ahead-Outcome}
use dubuframework.Channel.Ahead.{IsWindow}

module _ {S : Type 0} (h : Host S) (msg : ℕ → Packet) (stream : IsStream msg)
    (seen : S → List Packet) (laws : IsLog h seen) (got : ℕ → Bool) {k w : ℕ} (r : Receiving S)
    (v : IsWindow msg got 2 k w r.cap) where
  receive_again : (n : ℕ) → n ≤ k → k < n + window_count → receive h (msg n) r ≡ (r, true)
  unfolding receive
  receive_again n le lt = rw (stream.numbered n, v.recv_at, again_true k n le lt)

  receive_far :
      (n : ℕ)
      → IsNear k n
      → (n + window_count ≤ k) ⊎ (k + window_count ≤ n)
      → receive h (msg n) r ≡ (r, false)
  unfolding receive keep_ahead
  receive_far n near far = rw (
    stream.numbered n,
    v.recv_at,
    again_false k n near (omega arith),
    next_false k n near (omega arith),
    del_far k n near far,
  )

  receive_ahead :
      (n : ℕ) → k + 2 ≤ n → n < k + window_count → receive h (msg n) r ≡ keep_ahead h (msg n) r
  unfolding receive
  receive_ahead n ge lt = rw (
    stream.numbered n,
    v.recv_at,
    again_false k n (omega arith) (omega arith),
    next_false k n (omega arith) (omega arith),
  )

  receive_one : receive h (msg (k + 1)) r ≡ (receive_next h (msg (k + 1)) r, true)
  unfolding receive
  receive_one = rw (
    stream.numbered (k + 1),
    v.recv_at,
    again_false k (k + 1) (omega arith) (omega arith),
    next_true k (k + 1) refl,
  )

  -- A packet that changes nothing.
  same : Outcome msg seen got k r r
  same = record {
    m = 0;
    w = w;
    window = let e : k + 0 ≡ k = omega arith in rw e v;
    log = sym (append-nil (seen r.host));
  }

  -- The result of a call on message `n`, under the verdict `b`.
  abbrev pub Result : ℕ → Bool → Receiving S × Bool → Type 0
  Result n b out = (out.1 ≡ b) × Outcome msg seen (if b then update got n true else got) k r out.0

  again-Result : (n : ℕ) → n ≤ k → k < n + window_count → Result n true (receive h (msg n) r)
  again-Result n le lt =
      let e : update got n true ≡ got = rw (← v.done n le) (update-same got n) in
      rw (receive_again n le lt) (refl, rw e same)

  far-Result :
      (n : ℕ)
      → IsNear k n
      → (n + window_count ≤ k) ⊎ (k + window_count ≤ n)
      → Result n false (receive h (msg n) r)
  far-Result n near far = rw (receive_far n near far) (refl, same)

  ahead-Result : (n : ℕ) → k + 2 ≤ n → n < k + window_count → Result n true (receive h (msg n) r)
  ahead-Result n low high =
      rw (receive_ahead n low high) (keep_ahead-Outcome h msg stream seen laws got r v n low high)

  one-Result : Result (k + 1) true (receive h (msg (k + 1)) r)
  one-Result = rw receive_one (refl, receive_next-Outcome h msg stream seen laws got r v)

  -- Every packet of the stream that arrives near enough to the window leaves a window: what it makes
  -- ready is parsed, in order, and the answer tells whether it lies within the window.
  pub receive-Result : (n : ℕ) → IsNear k n → Result n (in_window k n) (receive h (msg n) r)
  receive-Result n near = elim (dec_lt k (n + window_count)) [
    | no p ↦ rw (le→ltb k (n + window_count) (omega arith)) (far-Result n near (omega arith))
    | yes p ↦ elim (dec_lt n (k + window_count)) [
      | no q ↦
          rw (lt→ltb k (n + window_count) p, le→ltb n (k + window_count) (omega arith))
            (far-Result n near (omega arith))
      | yes q ↦
          rw (lt→ltb k (n + window_count) p, lt→ltb n (k + window_count) q)
            (elim (dec_lt k n) [
              | no le ↦ again-Result n (omega arith) p
              | yes ge ↦ elim (ℕ_discrete n (k + 1)) [
                | yes e ↦ rw e one-Result
                | no ne ↦ ahead-Result n (omega arith) q
              ]
            ])
    ]
  ]
