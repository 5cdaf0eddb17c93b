-- ===== src/Unordered/Mask.antt =====
-- The mask of the packets that came ahead, against the set of those received.
use dubuframework.Base.{
  ℕ, zero, suc, ◌+◌, ◌/◌, ◌%◌, ◌≤◌, ◌≡◌, refl, inl, inr, Bool, true, false, arith, Bool-cases, ◌==◌,
  u32, bit_and, bit, bit_and-one,
}
use dubuframework.PacketState.{RecvState, window_count}
use dubuframework.Window.{advance, all_suc}
use dubuframework.Unordered.{pass_received}

abbrev pub digit : Bool → ℕ
digit true = 1
digit false = 0

-- All messages up to `k` are received, and digit `j` of the mask says whether message `k + 1 + j`
-- is.
pub record IsMask (got : ℕ → Bool) (k : ℕ) (s : RecvState) : Type 0 where
  pub recv_at : s.recv_repeat_seq ≡ u32 k
  pub digits : (j : ℕ) → bit s.cache_repeat_count j ≡ digit (got (k + 1 + j))
  pub done : (n : ℕ) → n ≤ k → got n ≡ true
  pub beyond : (n : ℕ) → k + window_count ≤ n → got n ≡ false

module _ (got : ℕ → Bool) where
  -- Going on by one when the next message is received.
  IsMask-shift :
      {k : ℕ} {s : RecvState} (s' : RecvState)
      → IsMask got k s
      → got (k + 1) ≡ true
      → s'.recv_repeat_seq ≡ u32 (k + 1)
      → s'.cache_repeat_count ≡ s.cache_repeat_count / 2
      → IsMask got (k + 1) s'
  IsMask-shift {k} {s} s' v on er ec = record {
    recv_at = er;
    digits =
        λ j. let e : k + 1 + suc j ≡ k + 1 + 1 + j = omega arith in rw (ec, ← e) (v.digits (suc j));
    done = all_suc got k v.done on;
    beyond = λ n le. v.beyond n (omega arith);
  }

  test_next :
      {k : ℕ} {s : RecvState} → IsMask got k s → (bit_and s.cache_repeat_count 1 == 1) ≡ got (k + 1)
  test_next {k} {s} v =
      let e : k + 1 + 0 ≡ k + 1 = omega arith in
      let d : s.cache_repeat_count % 2 ≡ digit (got (k + 1)) = rw e at (v.digits 0) in
      rw (bit_and-one s.cache_repeat_count) (ground (arith, d))

  pub pass_received-IsMask :
      (fuel : ℕ) {k : ℕ} (s : RecvState)
      → IsMask got k s
      → IsMask got (advance fuel got k) (pass_received fuel s)
  unfolding advance pass_received
  pass_received-IsMask zero s v = v
  pass_received-IsMask (suc fuel) {k} s v = elim (Bool-cases (got (k + 1))) [
    | inr off ↦ rw (test_next v, off, advance) v
    | inl on ↦
        rw (test_next v, on, advance)
          (pass_received-IsMask fuel _ (IsMask-shift _ v on (omega (arith, v.recv_at)) refl))
  ]
