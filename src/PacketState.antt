-- ===== src/PacketState.antt =====
-- PacketStateBase.h and .cpp, the receiving half: the highest sequence number up to which all has
-- been received, the highest one received, and the mask of those received ahead.
use dubuframework.Base.{ℕ}

pub record RecvState : Type 0 where
  pub recv_repeat_seq : ℕ  -- Uint32
  pub last_repeat_seq : ℕ  -- Uint32
  pub cache_repeat_count : ℕ  -- Uint64

-- DEFAULT_WINDOW_COUNT
abbrev pub window_count : ℕ
window_count = 64

-- PacketStateBase::Reset, the receiving half
unfoldable pub reset : RecvState → RecvState
reset s = record { recv_repeat_seq = 0; last_repeat_seq = 0; cache_repeat_count = 0 }

-- UpdateRecvSequenceNo
abbrev pub update_recv_sequence_no : ℕ → RecvState → RecvState
update_recv_sequence_no n s = record s { recv_repeat_seq = n }
