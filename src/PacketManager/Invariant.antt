-- ===== src/PacketManager/Invariant.antt =====
-- The invariant of the manager: where each buffer is.
use dubuframework.Base.{
  ◌==◌, if◌then◌else◌, refl, digit, ℕ, ◌+◌, ◌≡◌, true, false, List, [], ◌∷◌, arith, ltb,
  update_self,
}
use dubuframework.PacketManager.{PacketManager, pop_from, pop_packet_buffer, push_packet_buffer}
use dubuframework.PacketManager.Count.{count}

-- Every buffer that was allocated stands once in `list_` or is in use, and never both.
pub record IsPool (m : PacketManager) : Type 0 where
  pub once : (a : ℕ) → count a m.list + digit (m.use_list a) ≡ digit (ltb a m.next)

popped :
    (m : PacketManager) (l : List ℕ)
    → ((b : ℕ) → count b l + digit (m.use_list b) ≡ digit (ltb b m.next))
    → let (m', a) = pop_from l m in
      IsPool m'
      × (m.use_list a ≡ false)
      × ((b : ℕ) → m'.use_list b ≡ (if a == b then true else m.use_list b))
unfolding pop_from
popped m [] h = (record { once = λ b. ground (arith, h b) }, ground (arith, h m.next), λ b. refl)
popped m (a ∷ rest) h =
    (record { once = λ b. ground (arith, h b, h a) }, ground (arith, h a), λ b. refl)

-- The buffer that PopPacketBuffer returns was in nobody's use, and is marked as used; no other
-- buffer changes hands, and the invariant is kept.
pub pop-IsPool :
    {m : PacketManager}
    → IsPool m
    → let (m', a) = pop_packet_buffer m in
      IsPool m'
      × (m.use_list a ≡ false)
      × ((b : ℕ) → m'.use_list b ≡ (if a == b then true else m.use_list b))
unfolding pop_packet_buffer
pop-IsPool {m} v = popped m m.list v.once

-- A buffer that is in use can be given back: the invariant is kept, and the buffer is free.
pub push-IsPool :
    {m : PacketManager} (a : ℕ)
    → IsPool m
    → m.use_list a ≡ true
    → IsPool (push_packet_buffer a m) × ((push_packet_buffer a m).use_list a ≡ false)
unfolding push_packet_buffer
push-IsPool {m} a v used =
    (record { once = λ b. ground (arith, v.once b, v.once a) }, update_self m.use_list a false)
