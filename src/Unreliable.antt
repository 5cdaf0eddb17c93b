-- ===== src/Unreliable.antt =====
-- The branch of Session::RecvDispatch for packets that are not resent (Session.cpp; the same code
-- stands in Client.cpp and InternalClient.cpp): a packet is parsed if it is newer than all before it.
mod Newest
mod Tests
use dubuframework.Base.{ℕ, Bool, true, false, ◌||◌, leb, ◌==◌, if◌then◌else◌, sub32}
use dubuframework.Packet.{Packet}
use dubuframework.PacketState.{RecvState, update_recv_sequence_no}
use dubuframework.Host.{Host}

-- NO_REPEAT_ACCEPT_RANGE
abbrev pub no_repeat_accept_range : ℕ
no_repeat_accept_range = 0x1fff

-- `rps` is the source's `rNopsNo_`.
pub record Unreliable (S : Type 0) : Type 0 where
  pub rps : RecvState
  pub host : S

unfoldable pub receive : {S : Type 0} → Host S → Packet → Unreliable S → Unreliable S × Bool
receive h p u =
    let del = sub32 p.header.sequence_no u.rps.recv_repeat_seq in
    if del == 0 || leb no_repeat_accept_range del then (u, false) else (
      record {
        rps = update_recv_sequence_no p.header.sequence_no u.rps;
        host = h.packet_parse p u.host;
      },
      true,
    )
