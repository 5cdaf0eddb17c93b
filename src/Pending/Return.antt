-- ===== src/Pending/Return.antt =====
-- ReturnBuffers and Reset against the buffers in the slots.
use dubuframework.Base.{
  ℕ, zero, suc, ◌+◌, ◌<◌, ◌≡◌, refl, ap, ◌∙◌, inl, inr, Option, none, some, List, [], ◌∷◌, arith,
  Option-cases, update, update_ne,
}
use dubuframework.PacketState.{window_count}
use dubuframework.PacketManager.{PacketManager}
use dubuframework.Pending.{
  PendingPacket, SendState, release_buffer, return_slot, return_from, return_buffers, reset,
}
use dubuframework.Pending.Window.{Waits}

abbrev cons_some : Option ℕ → List ℕ → List ℕ
cons_some none l = l
cons_some (some a) l = a ∷ l

-- The buffers in `rounds` slots from `i` on
unfoldable pub occupied : ℕ → ℕ → (ℕ → PendingPacket) → List ℕ
occupied zero i pending = []
occupied (suc rounds) i pending = cons_some (pending i).buffer (occupied rounds (i + 1) pending)

unfoldable pub release_all : List ℕ → PacketManager → PacketManager
release_all [] m = m
release_all (a ∷ rest) m = release_all rest (release_buffer a m)

occupied_later :
    (rounds i j : ℕ) (pending : ℕ → PendingPacket) (p : PendingPacket)
    → j < i
    → occupied rounds i (update pending j p) ≡ occupied rounds i pending
unfolding occupied
occupied_later zero i j pending p lt = refl
occupied_later (suc rounds) i j pending p lt =
    rw (
      update_ne pending j p i (omega arith),
      occupied_later rounds (i + 1) j pending p (omega arith),
    )

return_from_lem :
    (rounds i : ℕ) (s : SendState) (m : PacketManager)
    → (return_from rounds i s m).1 ≡ release_all (occupied rounds i s.pending_packets) m
unfolding return_from return_slot occupied release_all
return_from_lem zero i s m = refl
return_from_lem (suc rounds) i s m = elim (Option-cases (s.pending_packets i).buffer) [
  | inl gone ↦ rw (gone, return_from, return_slot) (return_from_lem rounds (i + 1) s m)
  | inr (a, is) ↦
      rw (is, return_from, return_slot)
        (return_from_lem rounds (i + 1) _ (release_buffer a m)
          ∙ ap (λ l. release_all l (release_buffer a m))
              (occupied_later rounds (i + 1) i s.pending_packets _ (omega arith)))
]

-- The loop leaves the numbers of the window alone.
return_from_keeps :
    (rounds i : ℕ) (s : SendState) (m : PacketManager)
    → let s' = (return_from rounds i s m).0 in
      (s'.send_repeat_seq ≡ s.send_repeat_seq)
      × (s'.local_window_start ≡ s.local_window_start)
      × (s'.local_seqence ≡ s.local_seqence)
unfolding return_from return_slot
return_from_keeps zero i s m = (refl, refl, refl)
return_from_keeps (suc rounds) i s m = elim (Option-cases (s.pending_packets i).buffer) [
  | inl gone ↦ rw (gone, return_from, return_slot) (return_from_keeps rounds (i + 1) s m)
  | inr (a, is) ↦
      rw (is, return_from, return_slot) (return_from_keeps rounds (i + 1) _ (release_buffer a m))
]

-- Reset releases every buffer of the window once, slot by slot, and starts again with no buffer
-- that waits and the number 0, whatever the state was.
pub reset-Waits :
    (s : SendState) (m : PacketManager)
    → let (s', m') = reset s m in
      Waits (λ _. none) 0 0 s'
      × (s'.send_repeat_seq ≡ 0)
      × (m' ≡ release_all (occupied window_count 0 s.pending_packets) m)
unfolding reset return_buffers
reset-Waits s m =
    let zeroed = record s { send_repeat_seq = 0; local_window_start = 0; local_seqence = 0 } in
    let kept = return_from_keeps window_count 0 zeroed m in
    (
      record {
        start_at = kept.1;
        end_at = kept.2;
        within = omega arith;
        slots = λ d lt. (refl, λ h. cc h);
        past = λ n lt. refl;
        beyond = λ n le. refl;
      },
      kept.0,
      return_from_lem window_count 0 zeroed m,
    )
