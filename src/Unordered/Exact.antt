-- ===== src/Unordered/Exact.antt =====
-- One call of the branch against the specification.
use dubuframework.Base.{
  ℕ, ◌+◌, ◌-◌, ◌/◌, ◌^◌, ◌≤◌, ◌<◌, ◌≡◌, ◌⊎◌, refl, sym, ap, ◌∙◌, inl, inr, Bool, true, false, arith,
  Bool-cases, ◌==◌, le→ltb, lt→ltb, update, update_self, update-same, bit_or,
}
use native.Mathlib.Decide.{dec_lt, ℕ_discrete}
use dubuframework.Packet.{Packet}
use dubuframework.PacketState.{RecvState, window_count}
use dubuframework.Host.{Host}
use dubuframework.Sequence.{IsNear, IsStream}
use dubuframework.Window.{
  in_window, advance, EndsAtGap, advance-EndsAtGap, all_suc, advance_skip, advance_stays,
}
use dubuframework.Unordered.{Unordered, pass_received, receive_next, receive}
use dubuframework.Unordered.Spec.{Spec, spec_step}
use dubuframework.Unordered.Arrive.{arrived-IsMask, ahead-IsMask, IsMask-last}
use dubuframework.Unordered.Paths.{
  Refines, handle, highest, receive_again, receive_far, receive_one, receive_new, receive_known,
}
use dubuframework.Unordered.Mask.{IsMask, pass_received-IsMask}

module _ {S : Type 0} (h : Host S) (chunk : Packet → S → S) (msg : ℕ → Packet)
    (stream : IsStream msg) (s : Spec S) (u : Unordered S)
    (f : Refines h chunk msg stream s u) where
  -- The result of a call on message `n`.
  abbrev Result : ℕ → Unordered S × Bool → Type 0
  Result n out =
      (out.1 ≡ in_window s.upto n)
      × Refines h chunk msg stream (spec_step (handle h chunk msg stream) n s) out.0

  stays : advance window_count s.got s.upto ≡ s.upto
  stays = advance_stays window_count s.got s.upto f.gap

  spec_known :
      (n : ℕ)
      → in_window s.upto n ≡ true
      → s.got n ≡ true
      → spec_step (handle h chunk msg stream) n s ≡ s
  unfolding spec_step
  spec_known n inside old =
      let e : update s.got n true ≡ s.got = rw (← old) (update-same s.got n) in
      rw (inside, e, stays, old)

  spec_far : (n : ℕ) → in_window s.upto n ≡ false → spec_step (handle h chunk msg stream) n s ≡ s
  unfolding spec_step
  spec_far n out = rw (out, stays)

  spec_new :
      (n : ℕ)
      → in_window s.upto n ≡ true
      → s.got n ≡ false
      → spec_step (handle h chunk msg stream) n s ≡ record {
        upto = advance window_count (update s.got n true) s.upto;
        got = update s.got n true;
        host = handle h chunk msg stream n s.host;
      }
  unfolding spec_step
  spec_new n inside new = rw (inside, new)

  inside :
      (n : ℕ) → s.upto < n + window_count → n < s.upto + window_count → in_window s.upto n ≡ true
  inside n a b = rw (lt→ltb s.upto (n + window_count) a, lt→ltb n (s.upto + window_count) b)

  -- A packet received before changes nothing but the highest number.
  known :
      (n : ℕ) (rps : RecvState)
      → in_window s.upto n ≡ true
      → s.got n ≡ true
      → rps.recv_repeat_seq ≡ u.rps.recv_repeat_seq
      → rps.cache_repeat_count ≡ u.rps.cache_repeat_count
      → Refines h chunk msg stream
          (spec_step (handle h chunk msg stream) n s)
          (record u { rps = rps })
  known n rps within old er ec = rw (spec_known n within old) (record {
    mask = record {
      recv_at = er ∙ f.mask.recv_at;
      digits = λ j. rw ec (f.mask.digits j);
      done = f.mask.done;
      beyond = f.mask.beyond;
    };
    gap = f.gap;
    same_host = f.same_host;
  })

  -- A new packet is delivered.
  new-Refines :
      (n : ℕ) (rps : RecvState)
      → in_window s.upto n ≡ true
      → s.got n ≡ false
      → EndsAtGap (update s.got n true) s.upto (advance window_count (update s.got n true) s.upto)
      → IsMask (update s.got n true) (advance window_count (update s.got n true) s.upto) rps
      → Refines h chunk msg stream
          (spec_step (handle h chunk msg stream) n s)
          (record { rps = rps; host = handle h chunk msg stream n u.host })
  new-Refines n rps within new ends mask = rw (spec_new n within new) (record {
    mask = mask;
    gap = ends.gap;
    same_host = ap (handle h chunk msg stream n) f.same_host;
  })

  ends_at_gap :
      (n : ℕ)
      → n < s.upto + window_count
      → EndsAtGap (update s.got n true) s.upto (advance window_count (update s.got n true) s.upto)
  ends_at_gap n high =
      advance-EndsAtGap window_count (update s.got n true) s.upto
        (λ i le. ground (arith, f.mask.done i))
        (ground (arith, f.mask.beyond (s.upto + window_count) (omega arith)))

  one-IsMask :
      IsMask
        (update s.got (s.upto + 1) true)
        (advance window_count (update s.got (s.upto + 1) true) s.upto)
        (receive_next h chunk (msg (s.upto + 1)) u).rps
  unfolding receive_next
  one-IsMask =
      let got' = update s.got (s.upto + 1) true in
      let skip =
        advance_skip window_count got' s.upto
          (all_suc got' s.upto (λ n le. ground (arith, f.mask.done n))
            (update_self s.got (s.upto + 1) true))
          (ground (arith, f.mask.beyond (s.upto + window_count) (omega arith)))
          (ground (arith, f.mask.beyond (s.upto + 1 + window_count) (omega arith))) in
      let passed = pass_received window_count (record u.rps {
        recv_repeat_seq = (msg (s.upto + 1)).header.sequence_no;
        cache_repeat_count = u.rps.cache_repeat_count / 2;
      }) in
      IsMask-last got' (u.rps.recv_repeat_seq == u.rps.last_repeat_seq) passed
        passed.recv_repeat_seq
        (rw (← skip) (
          pass_received-IsMask got' window_count _
            (arrived-IsMask s.got f.mask _ (stream.numbered (s.upto + 1)) refl)))

  again-Result :
      (n : ℕ) → n ≤ s.upto → s.upto < n + window_count → Result n (receive h chunk (msg n) u)
  again-Result n le lt = rw (receive_again h chunk msg stream s u f n le lt) (
    sym (inside n lt (omega arith)),
    known n u.rps (inside n lt (omega arith)) (f.mask.done n le) refl refl,
  )

  far-Result :
      (n : ℕ)
      → IsNear s.upto n
      → (n + window_count ≤ s.upto) ⊎ (s.upto + window_count ≤ n)
      → in_window s.upto n ≡ false
      → Result n (receive h chunk (msg n) u)
  far-Result n near far out =
      rw (receive_far h chunk msg stream s u f n near far) (sym out, rw (spec_far n out) f)

  one-Result : Result (s.upto + 1) (receive h chunk (msg (s.upto + 1)) u)
  unfolding receive_next
  one-Result =
      let within = inside (s.upto + 1) (omega arith) (omega arith) in
      rw (receive_one h chunk msg stream s u f) (
        sym within,
        new-Refines (s.upto + 1) _ within f.gap (ends_at_gap (s.upto + 1) (omega arith)) one-IsMask,
      )

  marked-IsMask :
      (n : ℕ)
      → s.upto + 2 ≤ n
      → n < s.upto + window_count
      → s.got n ≡ false
      → IsMask
          (update s.got n true)
          (advance window_count (update s.got n true) s.upto)
          (record u.rps {
            last_repeat_seq = highest h chunk msg stream s u f n;
            cache_repeat_count = bit_or u.rps.cache_repeat_count (2 ^ (n - s.upto - 1));
          })
  marked-IsMask n low high new =
      rw (advance_stays window_count (update s.got n true) s.upto (ground (arith, f.gap)))
        (ahead-IsMask s.got f.mask n _ low high f.mask.recv_at refl)

  -- The answer of every call on a message near enough to the window tells whether it lies within
  -- the window, and the code's state goes on refining the specification's.
  pub receive-Exact : (n : ℕ) → IsNear s.upto n → Result n (receive h chunk (msg n) u)
  receive-Exact n near = elim (dec_lt s.upto (n + window_count)) [
    | no p ↦ far-Result n near (omega arith) (rw (le→ltb s.upto (n + window_count) (omega arith)))
    | yes p ↦ elim (dec_lt n (s.upto + window_count)) [
      | no q ↦
          far-Result n near (omega arith) (
            rw (lt→ltb s.upto (n + window_count) p, le→ltb n (s.upto + window_count) (omega arith)))
      | yes q ↦ elim (dec_lt s.upto n) [
        | no le ↦ again-Result n (omega arith) p
        | yes ge ↦ elim (ℕ_discrete n (s.upto + 1)) [
          | yes e ↦ rw e one-Result
          | no ne ↦ elim (Bool-cases (s.got n)) [
            | inl old ↦
                rw (receive_known h chunk msg stream s u f n (omega arith) q old)
                  (sym (inside n p q), known n _ (inside n p q) old refl refl)
            | inr new ↦ rw (receive_new h chunk msg stream s u f n (omega arith) q new) (
              sym (inside n p q),
              new-Refines n _ (inside n p q) new (ends_at_gap n q)
                  (marked-IsMask n (omega arith) q new),
            )
          ]
        ]
      ]
    ]
  ]
