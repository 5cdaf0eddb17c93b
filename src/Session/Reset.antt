-- ===== src/Session/Reset.antt =====
-- Session::Reset (Session.cpp), with the resets of the windows that it calls, on the members of the
-- record Session.
mod Slots
pub mod Fresh
use dubuframework.Base.{ℕ, zero, suc, ◌+◌, false, Option, none, some, update}
use dubuframework.Packet.{Packet}
use dubuframework.PacketState as State
use dubuframework.PacketState.{window_count}
use dubuframework.CachePool.{CachePool, push_packet_buffer}
use dubuframework.Pending as Window
use dubuframework.Channel.{CachePacket}
use dubuframework.Session.{Session, World}

-- The body of the inner loop: the buffer of a kept packet is given back.
unfoldable pub reset_slot :
    Option Packet → ℕ → (ℕ → CachePacket) → CachePool → (ℕ → CachePacket) × CachePool
reset_slot none i slots caches = (slots, caches)
reset_slot (some p) i slots caches = (
  update slots i (record { buffer = none; time_stamp = 0; sequence_no = 0; is_keep = false }),
  push_packet_buffer caches,
)

-- The inner loop, over the slots from `i` on
unfoldable pub reset_slots : ℕ → ℕ → (ℕ → CachePacket) → CachePool → (ℕ → CachePacket) × CachePool
reset_slots zero i slots caches = (slots, caches)
reset_slots (suc rounds) i slots caches =
    let (slots', caches') = reset_slot (slots i).buffer i slots caches in
    reset_slots rounds (i + 1) slots' caches'

module _ {S : Type 0} where
  -- The body of the outer loop
  unfoldable pub reset_channel : ℕ → Session → World S → Session × World S
  reset_channel id s w =
      let cap = s.cache_already_packets id in
      let (send, packets) = Window.reset (s.cache_sends id) w.packets in
      let (slots, caches) = reset_slots window_count 0 cap.cache_packets w.caches in
      (
        record s {
          cache_sends = update s.cache_sends id send;
          cache_already_packets =
              update s.cache_already_packets id
                (record { rps = State.reset cap.rps; cache_packets = slots });
        },
        record w { packets = packets; caches = caches },
      )

  -- The outer loop, over the channels from `id` on
  unfoldable pub reset_channels : ℕ → ℕ → Session → World S → Session × World S
  reset_channels zero id s w = (s, w)
  reset_channels (suc rounds) id s w =
      let (s', w') = reset_channel id s w in reset_channels rounds (id + 1) s' w'

  -- Reset; `now` is what GetRelativeTimeMs returns, and `default_rtt` is g_defaultRttMs.
  unfoldable pub reset : ℕ → ℕ → ℕ → Session → World S → Session × World S
  reset channel_mask default_rtt now s w =
      let (send, packets) = Window.reset s.rps_no.send w.packets in
      reset_channels (channel_mask + 1) 0
        (record s {
          is_connect = false;
          timestamp = now;
          rtt_millisec = default_rtt;
          r_nops_no = State.reset s.r_nops_no;
          rps_no = record { recv = State.reset s.rps_no.recv; send = send };
        })
        (record w { packets = packets })
