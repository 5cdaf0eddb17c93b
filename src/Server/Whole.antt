-- ===== src/Server/Whole.antt =====
-- SessionWorker::ProcessPacket as a whole (SessionWorker.cpp): the tables of the server, and what is done
-- with a packet of a session that is found.
use dubuframework.Base.{ℕ, ◌+◌, ◌≤◌, ◌≡◌, refl, Option, none, some, update, inl, inr, Option-cases}
use dubuframework.Packet.{Packet, PacketOpctions}
use dubuframework.Host.{Host}
use dubuframework.CachePool.{CachePool}
use dubuframework.Session.{Session, World}
use dubuframework.SessionManager.{get_session}
use dubuframework.Socket.{Addr, Net}
use dubuframework.Worker.{process_known}
use dubuframework.Server.{Connection, Server, put_session, send_ack, process_packet}
use dubuframework.Server.Paired.{sessions_of, same-IsPaired}
use dubuframework.Server.Tables.{Paired, process_packet-Paired}

-- Apart from the tables: the other members of the sessions, the cache buffers, and all else
pub record Inside (S : Type 0) : Type 0 where
  pub members : ℕ → Session
  pub caches : CachePool
  pub host : S

-- The acknowledgement that is to be sent, if any
pub record Acked (S : Type 0) : Type 0 where
  pub ack : Option (ℕ × PacketOpctions)
  pub host : S

module _ {S : Type 0} where
  abbrev acked_host : Host S → Host (Acked S)
  acked_host h = record {
    packet_parse = λ p r. record r { host = h.packet_parse p r.host };
    clock = λ r. let (now, host) = h.clock r.host in (now, record r { host = host });
  }

  abbrev to_ack : ℕ → PacketOpctions → Acked S → Acked S
  to_ack seq opt r = record r { ack = some (seq, opt) }

  abbrev world_of : Server (Inside S) → World (Acked S)
  world_of v = record {
    packets = v.net.packets;
    caches = v.net.host.caches;
    host = record { ack = none; host = v.net.host.host };
  }

  module _ (crc_u32 crc_u8 : ℕ → ℕ → ℕ) (now : ℕ) where
    -- SetTimestamp, and SendAck if there is one to be sent
    unfoldable pub answered :
        ℕ → Option Connection → Option (ℕ × PacketOpctions) → Server (Inside S) → Server (Inside S)
    answered id none ack v = v
    answered id (some c) none v = put_session id (record c { timestamp = now }) v
    answered id (some c) (some (seq, opt)) v =
        send_ack crc_u32 crc_u8 now seq c opt (put_session id (record c { timestamp = now }) v)

    -- An access out of range has no result; a channel is at most 7, so that there is none.
    unfoldable pub known_result :
        ℕ → Option (Session × World (Acked S)) → Server (Inside S) → Server (Inside S)
    known_result id none v = v
    known_result id (some (s, w)) v = answered id (get_session id v.sessions) w.host.ack (record v {
      net = record v.net {
        packets = w.packets;
        host = record {
          members = update v.net.host.members id s;
          caches = w.caches;
          host = w.host.host;
        };
      };
    })

    module _ (h : Host S) (smooth : ℕ → ℕ → ℕ) (channel_mask : ℕ) where
      -- What is done with the packet `p` of the session `id`, which is found
      unfoldable pub known_packet : ℕ → Packet → Server (Inside S) → Server (Inside S)
      known_packet id p v =
          known_result id
            (process_known (acked_host h) to_ack smooth channel_mask now p (v.net.host.members id)
              (world_of v))
            v

      -- ProcessPacket
      unfoldable pub process_whole :
          (Connection → Net (Inside S) → Net (Inside S))
          → (ℕ → ℕ)
          → ℕ
          → Connection
          → Packet
          → Addr
          → Server (Inside S)
          → Server (Inside S)
      process_whole destroy draws fuel pop p addr v =
          process_packet crc_u32 crc_u8 now destroy draws fuel pop known_packet p addr v

    answered-Paired :
        (id : ℕ) (ack : Option (ℕ × PacketOpctions)) (v : Server (Inside S))
        → Paired v
        → Paired (answered id (get_session id v.sessions) ack v)
    unfolding answered get_session
    answered-Paired id ack v paired = elim (Option-cases (sessions_of v id)) [
      | inl gone ↦ rw (gone, answered) paired
      | inr (c, at) ↦
          let same = same-IsPaired paired id c (record c { timestamp = now }) at refl refl in
          elim (Option-cases ack) [
            | inl quiet ↦ rw (at, quiet, answered) same
            | inr (o, is) ↦ rw (at, is, answered) same
          ]
    ]

    module _ (h : Host S) (smooth : ℕ → ℕ → ℕ) (channel_mask : ℕ) where
      known_packet-Paired :
          (id : ℕ) (p : Packet) (v : Server (Inside S))
          → Paired v
          → Paired (known_packet h smooth channel_mask id p v)
      unfolding known_packet known_result
      known_packet-Paired id p v paired =
          elim (Option-cases (
            process_known (acked_host h) to_ack smooth channel_mask now p (v.net.host.members id)
              (world_of v))) [
                | inl out ↦ rw (out, known_result) paired
                | inr (r, is) ↦ rw (is, known_result) (answered-Paired id r.1.host.ack _ paired)
              ]

      -- If every session has one peer and every peer one session, under its address, then it is so after
      -- ProcessPacket of any packet: of a new address, of a known one, and of a session that has moved to
      -- another address. One of the numbers drawn for a new session within the bound is free.
      pub process_whole-Paired :
          (v : Server (Inside S)) (destroy : Connection → Net (Inside S) → Net (Inside S))
          (draws : ℕ → ℕ) (fuel j : ℕ) (pop : Connection) (p : Packet) (addr : Addr)
          → Paired v
          → j ≤ fuel
          → get_session (draws (v.sessions.drawn + j)) v.sessions ≡ none
          → Paired (process_whole h smooth channel_mask destroy draws fuel pop p addr v)
      unfolding process_whole
      process_whole-Paired v destroy draws fuel j pop p addr paired le free =
          process_packet-Paired crc_u32 crc_u8 now v paired destroy draws fuel j pop
            (known_packet h smooth channel_mask) p addr le free known_packet-Paired
