-- ===== src/Channel/Enough.antt =====
-- How many rounds the loop over the kept packets takes.
use dubuframework.Base.{
  ℕ, zero, suc, ◌+◌, ◌%◌, ◌<◌, ◌≡◌, sym, ◌∙◌, inl, inr, Bool, arith, Bool-cases, u32,
}
use dubuframework.Packet.{Packet}
use dubuframework.PacketState.{window_count}
use dubuframework.Host.{Host}
use dubuframework.Channel.{Receiving, run_kept, run_ahead}
use dubuframework.Channel.Ahead.{IsWindow, kept_one, run_ahead_off, run_ahead_on, run_kept-IsWindow}

module _ {S : Type 0} (h : Host S) (msg : ℕ → Packet) (got : ℕ → Bool) where
  -- In a window whose highest message is `w` places ahead, any two counts of rounds above `w` give
  -- the same state.
  pub run_ahead_enough :
      (f f' : ℕ) {k w : ℕ} (r : Receiving S)
      → IsWindow msg got 1 k w r.cap
      → w < f
      → w < f'
      → run_ahead h f (u32 k) r ≡ run_ahead h f' (u32 k) r
  run_ahead_enough zero f' r v lt lt' = absurd (omega arith)
  run_ahead_enough (suc f) zero r v lt lt' = absurd (omega arith)
  run_ahead_enough (suc f) (suc f') {k} {w} r v lt lt' =
      elim (Bool-cases (r.cap.cache_packets ((k + 1) % window_count)).is_keep) [
        | inr off ↦ run_ahead_off h msg got f r v off ∙ sym (run_ahead_off h msg got f' r v off)
        | inl on ↦
            let one = kept_one msg got v on in
            run_ahead_on h msg got f r v on
            ∙ (run_ahead_enough f f' (run_kept h ((k + 1) % window_count) r)
                  (run_kept-IsWindow h msg got r v on) (omega (arith, one.1)) (omega (arith, one.1))
                ∙ sym (run_ahead_on h msg got f' r v on))
      ]
