-- ===== src/Host.antt =====
-- What the receiving code calls: Session::PacketParse, which runs a packet's handler, and
-- GetRelativeTimeMs. A handler may send on the session; it has no access to the receiving state,
-- which is private to Session.
use dubuframework.Base.{ℕ, ◌≡◌, List, [], ◌∷◌, ◌++◌}
use dubuframework.Packet.{Packet}

-- `S` is the rest of the program's state.
pub record Host (S : Type 0) : Type 0 where
  pub packet_parse : Packet → S → S
  pub clock : S → ℕ × S

-- `seen` reads off the packets that were parsed, oldest first.
pub record IsLog {S : Type 0} (h : Host S) (seen : S → List Packet) : Type 0 where
  pub seen-parse : (p : Packet) (s : S) → seen (h.packet_parse p s) ≡ seen s ++ p ∷ []
  pub seen-clock : (s : S) → seen (h.clock s).1 ≡ seen s
