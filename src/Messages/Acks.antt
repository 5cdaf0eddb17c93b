-- ===== src/Messages/Acks.antt =====
-- An acknowledgement (Server::SendAck, Client::SendAck) where it arrives.
use dubuframework.Base.{
  ℕ, zero, suc, ◌≤◌, ◌≡◌, refl, Bool, true, false, arith, ltb, if◌then◌else◌, bit_and,
  bit_and-below, inl, inr, Bool-cases,
}
use dubuframework.Packet.{PacketOpctions, channel_of, has_flag}
use dubuframework.Packet.Flag
use dubuframework.Worker.{Handling, handling, ack_options}
use dubuframework.Messages.{ack_flags}

-- The tests that a receiver makes of the flags of an acknowledgement
pub record IsAck (flags : ℕ) (order : Bool) (id : ℕ) : Type 0 where
  pub handled : handling flags ≡ Handling.ack
  pub ordered : ltb 0 (bit_and flags Flag.channel) ≡ order
  pub channel : channel_of flags ≡ id
  pub single : has_flag flags Flag.repeat ≡ false

abbrev on_channel : PacketOpctions → ℕ → PacketOpctions
on_channel opt id = record opt { order = true; channel_id = id }

abbrev plain_options : PacketOpctions
plain_options = record {
  reliable = true;
  order = false;
  channel_id = 0;
  is_chunck = false;
  chunck_flag = 0;
  chunck_total = 0;
}

plain-IsAck : (opt : PacketOpctions) → opt.order ≡ false → IsAck (ack_flags opt) false 0
unfolding ack_flags handling
plain-IsAck opt off =
    rw off (record { handled = refl; ordered = refl; channel = refl; single = refl })

channel_of-small : (flags : ℕ) → channel_of flags ≤ 7
channel_of-small flags = omega (arith, bit_and-below 6 flags Flag.channel_mask (omega arith))

channel-IsAck :
    (opt : PacketOpctions) (id : ℕ) → id ≤ 7 → IsAck (ack_flags (on_channel opt id)) true id
unfolding ack_flags handling
channel-IsAck opt zero h = record { handled = refl; ordered = refl; channel = refl; single = refl }
channel-IsAck opt (suc zero) h = record {
  handled = refl;
  ordered = refl;
  channel = refl;
  single = refl;
}
channel-IsAck opt (suc (suc zero)) h = record {
  handled = refl;
  ordered = refl;
  channel = refl;
  single = refl;
}
channel-IsAck opt (suc (suc (suc zero))) h = record {
  handled = refl;
  ordered = refl;
  channel = refl;
  single = refl;
}
channel-IsAck opt (suc (suc (suc (suc zero)))) h = record {
  handled = refl;
  ordered = refl;
  channel = refl;
  single = refl;
}
channel-IsAck opt (suc (suc (suc (suc (suc zero))))) h = record {
  handled = refl;
  ordered = refl;
  channel = refl;
  single = refl;
}
channel-IsAck opt (suc (suc (suc (suc (suc (suc zero)))))) h = record {
  handled = refl;
  ordered = refl;
  channel = refl;
  single = refl;
}
channel-IsAck opt (suc (suc (suc (suc (suc (suc (suc zero))))))) h = record {
  handled = refl;
  ordered = refl;
  channel = refl;
  single = refl;
}
channel-IsAck opt (suc (suc (suc (suc (suc (suc (suc (suc k)))))))) h = absurd (omega arith)

-- The acknowledgement of a packet of any flags is taken for one and for nothing else; it is that of a
-- channel exactly if the packet is, and then of the same channel.
ack_flags-IsAck :
    (flags : ℕ)
    → let order = has_flag flags Flag.channel in
      IsAck (ack_flags (ack_options flags)) order (if order then channel_of flags else 0)
ack_flags-IsAck flags = elim (Bool-cases (has_flag flags Flag.channel)) [
  | inr off ↦ rw off (plain-IsAck plain_options refl)
  | inl on ↦ rw on (channel-IsAck plain_options (channel_of flags) (channel_of-small flags))
]
