-- ===== src/Unordered.antt =====
-- The branch of Session::RecvDispatch for reliable packets of no channel (Session.cpp; the same
-- code stands in Client.cpp and InternalClient.cpp): a packet is parsed when it arrives, and once.
pub mod Spec
mod Mask
mod Arrive
pub mod Paths
pub mod Exact
mod Once
mod Tests
use dubuframework.Base.{
  ℕ, zero, suc, ◌-◌, ◌/◌, ◌^◌, Bool, true, false, not, ltb, leb, ◌==◌, if◌then◌else◌, sub32, add32,
  succ32, bit_and, bit_or,
}
use dubuframework.Packet.{Packet}
use dubuframework.Packet.Flag
use dubuframework.PacketState.{RecvState, window_count, update_recv_sequence_no}
use dubuframework.Host.{Host}

pub record Unordered (S : Type 0) : Type 0 where
  pub rps : RecvState
  pub host : S

-- `while ((cacheRepeatCount_ & 1) == 1)`; the first argument bounds its rounds.
unfoldable pub pass_received : ℕ → RecvState → RecvState
pass_received zero s = s
pass_received (suc fuel) s =
    let rest = pass_received fuel (record s {
      recv_repeat_seq = succ32 s.recv_repeat_seq;
      cache_repeat_count = s.cache_repeat_count / 2;
    }) in
    if bit_and s.cache_repeat_count 1 == 1 then rest else s

-- `recv_chunck_packet` is Session::RecvChunckPacket.
module _ {S : Type 0} (h : Host S) (recv_chunck_packet : Packet → S → S) where
  -- A packet that carries a part of a larger one goes to the chunks.
  unfoldable pub deliver : Packet → S → S
  deliver p s =
      if bit_and p.header.flags Flag.chunk == 0 then h.packet_parse p s else recv_chunck_packet p s

  unfoldable pub receive_next : Packet → Unordered S → Unordered S
  unfolding deliver
  receive_next p u =
      let rps = u.rps in
      let is_last_update = rps.recv_repeat_seq == rps.last_repeat_seq in
      let updated = update_recv_sequence_no p.header.sequence_no rps in
      let shifted : RecvState = record updated {
        cache_repeat_count = updated.cache_repeat_count / 2;
      } in
      let passed = pass_received window_count shifted in
      record {
        rps =
            if is_last_update
            then record passed { last_repeat_seq = passed.recv_repeat_seq }
            else passed;
        host = deliver p u.host;
      }

  unfoldable pub receive_ahead : Packet → Unordered S → Unordered S × Bool
  unfolding deliver
  receive_ahead p u =
      let seq = p.header.sequence_no in
      let rps = u.rps in
      let del = sub32 seq rps.recv_repeat_seq in
      let fwd = sub32 seq rps.last_repeat_seq in
      let last = if ltb fwd window_count then seq else rps.last_repeat_seq in
      let bit = 2 ^ (del - 1) in
      if leb window_count del
      then (u, false)
      else if not (bit_and rps.cache_repeat_count bit == bit)
      then (
        record {
          rps = record rps {
            last_repeat_seq = last;
            cache_repeat_count = bit_or rps.cache_repeat_count bit;
          };
          host = deliver p u.host;
        },
        true,
      )
      else (record u { rps = record rps { last_repeat_seq = last } }, true)

  -- The result tells the caller whether to acknowledge the packet.
  unfoldable pub receive : Packet → Unordered S → Unordered S × Bool
  receive p u =
      let seq = p.header.sequence_no in
      let recv = u.rps.recv_repeat_seq in
      if ltb (sub32 recv seq) window_count
      then (u, true)
      else if not (seq == add32 recv 1)
      then receive_ahead p u
      else (receive_next p u, true)
