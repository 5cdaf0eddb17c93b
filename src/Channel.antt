-- ===== src/Channel.antt =====
-- The channel branch of Session::RecvDispatch (Session.cpp; the same code stands in Client.cpp and
-- InternalClient.cpp): packets of an ordered channel are parsed in the order of their sequence
-- numbers, and up to 63 that arrive ahead are kept.
mod Spec
pub mod Ahead
pub mod Next
mod Keep
pub mod Delivery
pub mod Order
mod Enough
mod Tests
use dubuframework.Base.{
  ℕ, zero, suc, ◌-◌, ◌/◌, ◌%◌, ◌^◌, Bool, true, false, not, ◌&&◌, ◌||◌, Option, none, some, ltb,
  leb, ◌==◌, if◌then◌else◌, update, sub32, add32, succ32, bit_or,
}
use dubuframework.Packet.{Packet}
use dubuframework.PacketState.{RecvState, window_count, update_recv_sequence_no}
use dubuframework.CachePool.{CachePool, pop_packet_buffer, push_packet_buffer}
use dubuframework.Host.{Host}

-- struct CachePacket; the buffer and its size are the packet copied into it.
pub record CachePacket : Type 0 where
  pub buffer : Option Packet
  pub time_stamp : ℕ
  pub sequence_no : ℕ
  pub is_keep : Bool

-- struct CacheAlreadyPacket, less the sending half of its ReliablePacketState
pub record CacheAlreadyPacket : Type 0 where
  pub rps : RecvState
  pub cache_packets : ℕ → CachePacket  -- an array of 64

-- What the receiving code of a channel works on.
pub record Receiving (S : Type 0) : Type 0 where
  pub cap : CacheAlreadyPacket
  pub caches : CachePool
  pub host : S

module _ {S : Type 0} (h : Host S) where
  -- The body of the loop: parse the kept packet, give its buffer back, and go on by one.
  unfoldable pub run_kept : ℕ → Receiving S → Receiving S
  run_kept i r =
      let c = r.cap.cache_packets i in
      let rps = r.cap.rps in
      record {
        cap = record {
          rps = record rps {
            recv_repeat_seq = succ32 rps.recv_repeat_seq;
            cache_repeat_count = rps.cache_repeat_count / 2;
          };
          cache_packets =
              update r.cap.cache_packets i (record c { buffer = none; is_keep = false });
        };
        caches = push_packet_buffer r.caches;
        host = elim c.buffer [ none ↦ r.host | some p ↦ h.packet_parse p r.host ];
      }

  -- The loop over the packets kept ahead. The first argument bounds its rounds.
  unfoldable pub run_ahead : ℕ → ℕ → Receiving S → Receiving S
  unfolding run_kept
  run_ahead zero idx r = r
  run_ahead (suc fuel) idx r =
      let next = succ32 idx in
      let i = next % window_count in
      let c = r.cap.cache_packets i in
      let rest = run_ahead fuel next (run_kept i r) in
      if idx == r.cap.rps.last_repeat_seq
      then r
      else if not c.is_keep || not (c.sequence_no == next)
      then r
      else rest

  -- The packet is the next one.
  unfoldable pub receive_next : Packet → Receiving S → Receiving S
  receive_next p r =
      let rps = r.cap.rps in
      let is_last_update = rps.recv_repeat_seq == rps.last_repeat_seq in
      let parsed : Receiving S = record {
        cap = record r.cap {
          rps =
              update_recv_sequence_no p.header.sequence_no
                (record rps { cache_repeat_count = rps.cache_repeat_count / 2 });
        };
        caches = r.caches;
        host = h.packet_parse p r.host;
      } in
      let done = run_ahead window_count p.header.sequence_no parsed in
      if is_last_update
      then record done {
        cap = record done.cap {
          rps = record done.cap.rps { last_repeat_seq = done.cap.rps.recv_repeat_seq };
        };
      }
      else done

  -- The packet is ahead: it is kept, if it lies within the window.
  unfoldable pub keep_ahead : Packet → Receiving S → Receiving S × Bool
  unfolding pop_packet_buffer
  keep_ahead p r =
      let seq = p.header.sequence_no in
      let rps = r.cap.rps in
      let del = sub32 seq rps.recv_repeat_seq in
      let fwd = sub32 seq rps.last_repeat_seq in
      let last = if ltb fwd window_count then seq else rps.last_repeat_seq in
      let i = seq % window_count in
      let c = r.cap.cache_packets i in
      let (now, host) = h.clock r.host in
      if leb window_count del
      then (r, false)
      else if c.is_keep && c.sequence_no == seq
      then (record r { cap = record r.cap { rps = record rps { last_repeat_seq = last } } }, true)
      else (
        record {
          cap = record {
            rps = record rps {
              last_repeat_seq = last;
              cache_repeat_count = bit_or rps.cache_repeat_count (2 ^ (del - 1));
            };
            cache_packets =
                update r.cap.cache_packets i
                  (record { buffer = some p; time_stamp = now; sequence_no = seq; is_keep = true });
          };
          caches = pop_packet_buffer r.caches;
          host = host;
        },
        true,
      )

  -- The result tells the caller whether to acknowledge the packet.
  unfoldable pub receive : Packet → Receiving S → Receiving S × Bool
  receive p r =
      let seq = p.header.sequence_no in
      let recv = r.cap.rps.recv_repeat_seq in
      if ltb (sub32 recv seq) window_count
      then (r, true)
      else if not (seq == add32 recv 1)
      then keep_ahead p r
      else (receive_next p r, true)
