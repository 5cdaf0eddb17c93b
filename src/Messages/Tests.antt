-- ===== src/Messages/Tests.antt =====
-- The acknowledgements of some packets, run.
use dubuframework.Base.{ℕ, ◌≡◌, refl}
use dubuframework.Worker.{ack_options}
use dubuframework.Messages.{ack_flags}

-- A reliable packet on channel 2
abbrev flags : ℕ
flags = 0b00010101

flags_run : ack_flags (ack_options flags) ≡ 0b10010100
unfolding ack_flags
flags_run = refl
