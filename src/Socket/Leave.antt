-- ===== src/Socket/Leave.antt =====
-- The loops of EndServer and EndClient (RUDPSocket.cpp), which give back what the kernel holds.
use dubuframework.Base.{
  ℕ, ◌+◌, ◌≤◌, ◌≡◌, refl, true, Option, none, some, List, [], ◌∷◌, digit, arith, ◌==◌, ==_iff,
}
use dubuframework.PacketManager.{PacketManager, push_packet_buffer}
use dubuframework.PacketManager.Count.{count}
use dubuframework.PacketManager.Invariant.{IsPool, push-IsPool}
use dubuframework.Socket.{Net, drain, push}

-- The buffers of the completions
abbrev pub completed : List (Option ℕ) → List ℕ
completed [] = []
completed (none ∷ rest) = completed rest
completed (some a ∷ rest) = a ∷ completed rest

-- Each buffer stands at most once among the completions, and only if it is in use.
abbrev pub AreHeld : List (Option ℕ) → PacketManager → Type 0
AreHeld l m = (b : ℕ) → count b (completed l) ≤ digit (m.use_list b)

module _ {S : Type 0} where
  pub push-AreHeld :
      (a : ℕ) (rest : List (Option ℕ)) (n : Net S)
      → AreHeld (some a ∷ rest) n.packets
      → (n.packets.use_list a ≡ true) × AreHeld rest (push a n).packets
  unfolding push_packet_buffer
  push-AreHeld a rest n h = (
    let t : (a == a) ≡ true = (==_iff a a).1 refl in ground (arith, h a, t),
    λ b. ground (arith, h b),
  )

  -- If each completion that the loop gets is that of another buffer in use, the loop gives each of
  -- them back once: the manager stays well-formed, and in use are exactly the buffers that were
  -- in use before and are not among the completions.
  pub drain-IsPool :
      (l : List (Option ℕ)) (n : Net S)
      → IsPool n.packets
      → AreHeld l n.packets
      → let n' = drain l n in
        IsPool n'.packets
        × ((b : ℕ)
            → digit (n'.packets.use_list b) + count b (completed l) ≡ digit (n.packets.use_list b))
  unfolding drain push_packet_buffer
  drain-IsPool [] n v h = (v, λ b. omega arith)
  drain-IsPool (none ∷ rest) n v h = drain-IsPool rest n v h
  drain-IsPool (some a ∷ rest) n v h =
      let (used, held) = push-AreHeld a rest n h in
      let (pool, left) = drain-IsPool rest (push a n) (push-IsPool a v used).0 held in
      (pool, λ b. ground (arith, left b, h b, used))
