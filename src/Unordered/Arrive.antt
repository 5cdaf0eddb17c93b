-- ===== src/Unordered/Arrive.antt =====
-- The mask after a packet has arrived.
use dubuframework.Base.{
  ℕ, suc, ◌+◌, ◌-◌, ◌/◌, ◌^◌, ◌≤◌, ◌<◌, ◌≡◌, refl, sym, Bool, true, false, arith, if◌then◌else◌,
  u32, update, update_self, update_ne, bit_or, bit, bit-or-pow_self, bit-or-pow_ne,
}
use native.Mathlib.Decide.{ℕ_discrete}
use dubuframework.PacketState.{RecvState, window_count}
use dubuframework.Window.{all_suc}
use dubuframework.Unordered.Mask.{digit, IsMask}

module _ (got : ℕ → Bool) {k : ℕ} {rps : RecvState} (v : IsMask got k rps) where
  -- Message `k + 1` has arrived.
  pub arrived-IsMask :
      (s' : RecvState)
      → s'.recv_repeat_seq ≡ u32 (k + 1)
      → s'.cache_repeat_count ≡ rps.cache_repeat_count / 2
      → IsMask (update got (k + 1) true) (k + 1) s'
  arrived-IsMask s' er ec = record {
    recv_at = er;
    digits = λ j.
        let e : k + 1 + suc j ≡ k + 1 + 1 + j = omega arith in
        rw (ec, update_ne got (k + 1) true (k + 1 + 1 + j) (omega arith), ← e) (v.digits (suc j));
    done =
        all_suc (update got (k + 1) true) k (λ n le. ground (arith, v.done n))
          (update_self got (k + 1) true);
    beyond = λ n le. ground (arith, v.beyond n);
  }

  -- Message `n`, ahead in the window, has arrived.
  pub ahead-IsMask :
      (n : ℕ) (s' : RecvState)
      → k + 2 ≤ n
      → n < k + window_count
      → s'.recv_repeat_seq ≡ u32 k
      → s'.cache_repeat_count ≡ bit_or rps.cache_repeat_count (2 ^ (n - k - 1))
      → IsMask (update got n true) k s'
  ahead-IsMask n s' low high er ec = record {
    recv_at = er;
    digits = λ j. elim (ℕ_discrete (k + 1 + j) n) [
      | yes e ↦
          let i : j ≡ n - k - 1 = omega arith in
          rw (ec, e, i, update_self got n true, bit-or-pow_self rps.cache_repeat_count (n - k - 1))
            refl
      | no ne ↦
          rw
            (
              ec,
              update_ne got n true (k + 1 + j) (λ q. ne (sym q)),
              bit-or-pow_ne rps.cache_repeat_count (n - k - 1) j (omega arith),
            )
            (v.digits j)
    ];
    done = λ i le. ground (arith, v.done i);
    beyond = λ i le. ground (arith, v.beyond i);
  }

  pub digit_at : (n : ℕ) → k + 1 ≤ n → bit rps.cache_repeat_count (n - k - 1) ≡ digit (got n)
  digit_at n le = let e : k + 1 + (n - k - 1) ≡ n = omega arith in rw e at (v.digits (n - k - 1))

-- The highest number is of no matter to the mask.
pub IsMask-last :
    (got : ℕ → Bool) {k : ℕ} (b : Bool) (s : RecvState) (l : ℕ)
    → IsMask got k s
    → IsMask got k (if b then record s { last_repeat_seq = l } else s)
IsMask-last got true s l v = record {
  recv_at = v.recv_at;
  digits = v.digits;
  done = v.done;
  beyond = v.beyond;
}
IsMask-last got false s l v = v
