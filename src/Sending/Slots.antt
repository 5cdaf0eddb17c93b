-- ===== src/Sending/Slots.antt =====
-- The buffers in the slots of a window when one slot changes.
use dubuframework.Base.{ℕ, ◌≡◌, refl, sym, fun_ext, update, update_self, update_ne}
use native.Mathlib.Decide.{ℕ_discrete}
use dubuframework.Pending.{PendingPacket}

pub slots_update :
    (pending : ℕ → PendingPacket) (i : ℕ) (p : PendingPacket)
    → (λ j. (update pending i p j).buffer) ≡ update (λ j. (pending j).buffer) i p.buffer
slots_update pending i p = fun_ext (λ j. elim (ℕ_discrete i j) [
  | yes e ↦
      rw (sym e, update_self pending i p, update_self (λ j. (pending j).buffer) i p.buffer) refl
  | no ne ↦
      rw (update_ne pending i p j ne, update_ne (λ j. (pending j).buffer) i p.buffer j ne) refl
])
