-- ===== src/Server.antt =====
-- Server.h and .cpp, Peer.h, and what SessionWorker.cpp does with the tables of the server: the
-- sessions by their identifiers, the peers by their addresses.
mod Key
pub mod Paired
mod Tables
mod Whole
mod Tests
use dubuframework.Base.{
  ℕ, zero, suc, ◌+◌, ◌-◌, ◌*◌, ◌/◌, ◌%◌, Bool, true, false, not, ◌&&◌, ◌||◌, Option, none, some,
  List, [], ◌∷◌, ltb, leb, ◌==◌, if◌then◌else◌, bit_or, length, update, sub32, succ32,
}
use dubuframework.Packet.{Packet, PacketOpctions}
use dubuframework.Packet.Flag
use dubuframework.PacketState.{window_count}
use dubuframework.SessionManager.{SessionManager, add_session, remove_session, get_session}
use dubuframework.Socket.{Addr, Net, push}
use dubuframework.Messages.{send_header, connect_header, disconnect_header, ping_header, ack_header}

-- Server::PeerKey; the ports of an Addr are in the host's order.
unfoldable pub peer_key : Addr → ℕ
peer_key addr = bit_or (addr.ip * 65536) addr.port

-- The members of Session that the server and CheckSessions use
pub record Connection : Type 0 where
  pub session_id : ℕ
  pub addr : Addr
  pub is_connect : Bool
  pub timestamp : ℕ
  pub last_ping_sent_time : ℕ
  pub last_pong_seq : ℕ
  pub ping_count : ℕ
  pub aways_connect : Bool
  pub ready_disconnect : Bool

-- struct Peer; the session is named by its identifier.
pub record Peer : Type 0 where
  pub key : ℕ
  pub addr : Addr
  pub session : ℕ

-- class Server, with the socket
pub record Server (S : Type 0) : Type 0 where
  pub sessions : SessionManager Connection
  pub peer_map : ℕ → Option Peer
  pub net : Net S

abbrev pub is_null : {A : Type 0} → Option A → Bool
is_null none = true
is_null (some a) = false

-- Session::SetSessionId, SetSockAddr and Disconnect
abbrev pub set_session_id : ℕ → Connection → Connection
set_session_id id c = record c { session_id = id }

abbrev pub set_sock_addr : Addr → ℕ → Connection → Connection
set_sock_addr addr now c = record c { addr = addr; is_connect = true; timestamp = now }

abbrev pub disconnect : Connection → Connection
disconnect c = record c { is_connect = false }

-- A session that the manager knows, as it now is
abbrev pub put_session : {S : Type 0} → ℕ → Connection → Server S → Server S
put_session id c v = record v {
  sessions = record v.sessions { session_map = update v.sessions.session_map id (some c) };
}

module _ {S : Type 0} (now : ℕ) where
  -- CreateSession. `draws` are the random numbers, `fuel` bounds them, `pop` is a session from the
  -- pool.
  unfoldable pub create_session : (ℕ → ℕ) → ℕ → Connection → Addr → Server S → Server S × Connection
  create_session draws fuel pop addr v =
      let (m, id) = add_session draws pop set_session_id fuel v.sessions in
      let c = set_sock_addr addr now (set_session_id id pop) in
      (put_session id c (record v { sessions = m }), c)

module _ {S : Type 0} (crc_u32 crc_u8 : ℕ → ℕ → ℕ) (now : ℕ) where
  -- ConnectMessage, DisconnectMessage and SendAck
  abbrev pub connect_message : Connection → Server S → Server S
  connect_message c v = record v {
    net = send_header crc_u32 crc_u8 (connect_header c.session_id) c.addr v.net;
  }

  abbrev pub disconnect_message : Connection → Server S → Server S
  disconnect_message c v = record v {
    net = send_header crc_u32 crc_u8 (disconnect_header c.session_id now) c.addr v.net;
  }

  abbrev pub send_ack : ℕ → Connection → PacketOpctions → Server S → Server S
  send_ack seq c opt v = record v {
    net = send_header crc_u32 crc_u8 (ack_header c.session_id seq opt now) c.addr v.net;
  }

  -- SendPing, which counts: the session afterwards
  unfoldable pub send_ping : Connection → Net S → Connection × Net S
  send_ping c n =
      let seq = succ32 c.last_pong_seq in
      (
        record c { last_pong_seq = seq; ping_count = succ32 c.ping_count },
        send_header crc_u32 crc_u8 (ping_header c.session_id seq now) c.addr n,
      )

  -- ProcessPacket for a SESSION packet: a session and a peer if the address has none, and the answer
  -- in any case. The source follows the peer's pointer to the session; here its number is looked up in
  -- the table, where the session of every peer stands (Server.Tables).
  unfoldable pub open_session : (ℕ → ℕ) → ℕ → Connection → Addr → Option Peer → Server S → Server S
  open_session draws fuel pop addr none v =
      let (v', c) = create_session now draws fuel pop addr v in
      let peer : Peer = record { key = peer_key addr; addr = addr; session = c.session_id } in
      let answered = connect_message c v' in
      record answered { peer_map = update answered.peer_map (peer_key addr) (some peer) }
  open_session draws fuel pop addr (some peer) v = elim (get_session peer.session v.sessions) [
    | none ↦ v
    | some c ↦ connect_message c v
  ]

-- `destroy` is DestroySession, which is virtual.
module _ {S : Type 0} (destroy : Connection → Net S → Net S) where
  -- RemoveSession
  unfoldable pub remove_found : ℕ → Option Connection → Server S → Server S
  remove_found id none v = v
  remove_found id (some c) v = record {
    sessions = remove_session id v.sessions;
    peer_map = update v.peer_map (peer_key c.addr) none;
    net = destroy c v.net;
  }

  unfoldable pub remove_session_of : ℕ → Server S → Server S
  unfolding remove_found
  remove_session_of id v = remove_found id (get_session id v.sessions) v

module _ {S : Type 0} (now : ℕ) (destroy : Connection → Net S → Net S) where
  -- ProcessPacket for a packet of session `c` from an address that has no peer: the peer moves to
  -- the address. The answer tells whether the packet is handled.
  unfoldable pub move_peer : ℕ → Connection → Addr → Option Peer → Server S → Server S × Bool
  move_peer id c addr none v =
      (remove_session_of destroy c.session_id (put_session id (disconnect c) v), false)
  move_peer id c addr (some peer) v =
      let peer' : Peer = record peer { addr = addr; key = peer_key addr } in
      let moved = put_session id (set_sock_addr addr now c) v in
      (
        record moved {
          peer_map = update (update v.peer_map (peer_key addr) (some peer')) (peer_key c.addr) none;
        },
        true,
      )

  unfoldable pub find_session : ℕ → Addr → Option Connection → Server S → Server S × Bool
  find_session id addr none v = (v, false)
  find_session id addr (some c) v =
      if is_null (v.peer_map (peer_key addr))
      then move_peer id c addr (v.peer_map (peer_key c.addr)) v
      else (v, true)

module _ {S : Type 0} (crc_u32 crc_u8 : ℕ → ℕ → ℕ) (now : ℕ)
    (destroy : Connection → Net S → Net S) where
  -- ProcessPacket; `known` is what is done with a packet once its session is found, which is
  -- known_packet of Server.Whole.
  unfoldable pub process_packet :
      (ℕ → ℕ)
      → ℕ
      → Connection
      → (ℕ → Packet → Server S → Server S)
      → Packet
      → Addr
      → Server S
      → Server S
  process_packet draws fuel pop known p addr v =
      let id = p.header.session_id in
      let (found, ok) = find_session now destroy id addr (get_session id v.sessions) v in
      if p.header.flags == Flag.session
      then open_session crc_u32 crc_u8 now draws fuel pop addr (v.peer_map (peer_key addr)) v
      else if ltb 0 id
      then if ok then known id p found else found
      else v
