-- ===== src/Pending.antt =====
-- ReliablePacketState.h and .cpp, the sending half: packets that wait for their acknowledgement,
-- in a window of 64 sequence numbers.
pub mod Window
pub mod Send
pub mod Ack
pub mod Repeat
pub mod Return
mod Tests
use dubuframework.Base.{
  ℕ, zero, suc, ◌+◌, ◌%◌, Bool, true, false, not, ◌&&◌, ◌||◌, Option, none, some, List, [], ◌∷◌,
  ltb, leb, ◌==◌, if◌then◌else◌, update, sub32, succ32,
}
use dubuframework.PacketState.{window_count}
use dubuframework.PacketManager.{
  ObjType, OverlappedPacketBuffer, PacketManager, modify, set_type, push_packet_buffer,
}

-- struct PendingPacket; the buffer is an address of the packet manager's.
pub record PendingPacket : Type 0 where
  pub buffer : Option ℕ
  pub time_stamp : ℕ
  pub sequence_no : ℕ
  pub is_sent : Bool

-- struct ReliablePacketState with the sending half of PacketStateBase
pub record SendState : Type 0 where
  pub send_repeat_seq : ℕ
  pub pending_packets : ℕ → PendingPacket  -- an array of 64
  pub local_window_start : ℕ
  pub local_seqence : ℕ

-- UpdateSendSequenceNo
unfoldable pub update_send_sequence_no : SendState → SendState × ℕ
update_send_sequence_no s =
    let n = succ32 s.send_repeat_seq in (record s { send_repeat_seq = n }, n)

-- AddPendingPacket
unfoldable pub add_pending_packet : PacketManager → ℕ → SendState → SendState × Bool
add_pending_packet m opb s =
    let header = (m.buffers opb).packet.header in
    let n = header.sequence_no in
    let del = sub32 n s.local_window_start in
    if leb window_count del then (s, false) else (
      record s {
        pending_packets = update s.pending_packets (n % window_count) (record {
          buffer = some opb;
          time_stamp = header.timestamp;
          sequence_no = n;
          is_sent = false;
        });
        local_seqence = if leb s.local_seqence n then succ32 n else s.local_seqence;
      },
      true,
    )

-- The buffer leaves the window: RELIABLE is cleared, and unless the kernel still sends it, it goes
-- back to the manager.
unfoldable pub release_buffer : ℕ → PacketManager → PacketManager
release_buffer a m =
    let old = (m.buffers a).obj_type in
    let cleared = modify a (set_type (record old { reliable = false })) m in
    if not old.sending then push_packet_buffer a cleared else cleared

abbrev pub is_null : Option ℕ → Bool
is_null none = true
is_null (some a) = false

-- The loop of AckProcess: the window starts at the first packet that still waits. The first
-- argument bounds its rounds.
unfoldable pub advance_start : ℕ → (ℕ → PendingPacket) → ℕ → ℕ → ℕ
advance_start zero pending end start = start
advance_start (suc fuel) pending end start =
    let rest = advance_start fuel pending end (succ32 start) in
    if not (start == end) && is_null (pending (start % window_count)).buffer then rest else start

-- `(Uint32)(rttMillisec_ * 0.8f + rtt * 0.2f)`: the rounding of the floats is a parameter.
module _ (smooth : ℕ → ℕ → ℕ) where
  abbrev AckState : Type 0
  AckState = SendState × ℕ × PacketManager

  unfoldable pub ack_slot : Option ℕ → ℕ → ℕ → SendState → ℕ → PacketManager → AckState
  ack_slot none now ack s rtt m = (s, rtt, m)
  ack_slot (some a) now ack s rtt m =
      let i = ack % window_count in
      let p = s.pending_packets i in
      let pending = update s.pending_packets i (record p { buffer = none }) in
      (
        record s {
          pending_packets = pending;
          local_window_start =
              advance_start window_count pending s.local_seqence s.local_window_start;
        },
        smooth rtt (sub32 now p.time_stamp),
        release_buffer a m,
      )

  -- AckProcess; `now` is what GetRelativeTimeMs returns.
  unfoldable pub ack_process : ℕ → ℕ → SendState → ℕ → PacketManager → AckState
  unfolding ack_slot
  ack_process now ack s rtt m =
      let p = s.pending_packets (ack % window_count) in
      if p.sequence_no == ack then ack_slot p.buffer now ack s rtt m else (s, rtt, m)

-- IsRepeat
unfoldable pub is_repeat : SendState → Bool
is_repeat s = not (s.local_window_start == s.local_seqence)

unfoldable pub return_slot : Option ℕ → ℕ → SendState → PacketManager → SendState × PacketManager
return_slot none i s m = (s, m)
return_slot (some a) i s m =
    let p = s.pending_packets i in
    (
      record s { pending_packets = update s.pending_packets i (record p { buffer = none }) },
      release_buffer a m,
    )

-- The loop of ReturnBuffers over the slots from `i` on.
unfoldable pub return_from : ℕ → ℕ → SendState → PacketManager → SendState × PacketManager
return_from zero i s m = (s, m)
return_from (suc rounds) i s m =
    let (s', m') = return_slot (s.pending_packets i).buffer i s m in
    return_from rounds (i + 1) s' m'

-- ReturnBuffers
unfoldable pub return_buffers : SendState → PacketManager → SendState × PacketManager
return_buffers s m = return_from window_count 0 s m

-- Reset, with that of PacketStateBase
unfoldable pub reset : SendState → PacketManager → SendState × PacketManager
reset s m =
    let zeroed = record s { send_repeat_seq = 0; local_window_start = 0; local_seqence = 0 } in
    let (s', m') = return_buffers zeroed m in
    (
      record s' {
        pending_packets =
            λ _. record { buffer = none; time_stamp = 0; sequence_no = 0; is_sent = false };
      },
      m',
    )
