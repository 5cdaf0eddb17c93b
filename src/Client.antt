-- ===== src/Client.antt =====
-- Client.h and .cpp: the connection of a client, and what it does with a datagram. InternalClient.cpp
-- is the same code.
mod Connect
mod Buffers
pub mod Receive
pub mod Send
mod Tests
use dubuframework.Base.{
  ℕ, zero, suc, ◌+◌, ◌*◌, Bool, true, false, not, List, [], ◌∷◌, ltb, leb, ◌==◌, if◌then◌else◌,
  sub32, succ32,
}
use dubuframework.Packet.{Packet, PacketOpctions, has_flag}
use dubuframework.Packet.Flag
use dubuframework.PacketManager.{set_type, modify, pop_packet_buffer}
use dubuframework.Socket.{Addr, Net, no_flags, push, send_to}
use dubuframework.Worker.{ack_options}
use dubuframework.Messages.{send_header, connect_header, disconnect_header, pong_header, ack_header}

-- DEFAULT_REQUEST_CONNECT_NO
abbrev pub request_connect_no : ℕ
request_connect_no = 10

-- The members of Client that belong to the connection; `addr` is the address of the server.
pub record Client : Type 0 where
  pub client_id : ℕ
  pub is_connect : Bool
  pub timestamp : ℕ
  pub last_pong_seq : ℕ
  pub conn_no : ℕ
  pub addr : Addr

abbrev pub State : Type 0 → Type 0
State S = Client × Net S

-- `clock` is GetRelativeTimeMs.
abbrev pub read_clock : {S : Type 0} → (S → ℕ × S) → Net S → ℕ × Net S
read_clock clock n = let (now, host) = clock n.host in (now, record n { host = host })

module _ {S : Type 0} (crc_u32 crc_u8 : ℕ → ℕ → ℕ) where
  -- ConnectMessage
  unfoldable pub connect_message : State S → State S
  connect_message (c, n) = if leb request_connect_no c.conn_no then (c, n) else (
    record c { conn_no = succ32 c.conn_no },
    send_header crc_u32 crc_u8 (connect_header 0) c.addr n,
  )

  -- RepeatPongMessage: the buffer is taken first.
  unfoldable pub repeat_pong_message : ℕ → State S → State S
  repeat_pong_message sequence_no (c, n) =
      let (m, a) = pop_packet_buffer n.packets in
      if leb c.last_pong_seq sequence_no
      then (
        record c { last_pong_seq = sequence_no },
        send_header crc_u32 crc_u8 (pong_header c.client_id sequence_no) c.addr n,
      )
      else (c, record n { packets = m })

  -- Disconnect, with DisconnectMessage and Reset; `reset` is what Reset, which is virtual, does with
  -- the windows and their buffers.
  unfoldable pub disconnect : (Net S → Net S) → State S → State S
  disconnect reset (c, n) = (
    record c { is_connect = false },
    reset (send_header crc_u32 crc_u8 (disconnect_header c.client_id 0) c.addr n),
  )

module _ {S : Type 0} (crc_u32 crc_u8 : ℕ → ℕ → ℕ) (clock : S → ℕ × S) where
  -- Connect
  unfoldable pub connect : State S → State S
  connect (c, n) =
      let (c1, n1) = connect_message crc_u32 crc_u8 (c, n) in
      let (now, n2) = read_clock clock n1 in (record c1 { timestamp = now }, n2)

  -- ConnectTimes: the loop from `time` on, with `left` rounds to `count`; `dispatch` is Dispatch.
  unfoldable pub connect_times : (State S → State S) → ℕ → State S → State S
  connect_times dispatch zero cn = cn
  connect_times dispatch (suc left) (c, n) =
      let next = connect_times dispatch left (dispatch (connect (c, n))) in
      if not c.is_connect then next else (c, n)

  -- SendAck
  unfoldable pub send_ack : ℕ → PacketOpctions → State S → State S
  send_ack seq opt (c, n) =
      let (now, n') = read_clock clock n in
      (c, send_header crc_u32 crc_u8 (ack_header c.client_id seq opt now) c.addr n')

  -- The body of OnRecvFrom for the packet `p`. `recv_dispatch` and `recv_dispatch_ack` are
  -- RecvDispatch and RecvDispatchACK.
  module _ (reset : Net S → Net S) (recv_dispatch : Packet → State S → State S × Bool)
      (recv_dispatch_ack : Packet → State S → State S) where
    unfoldable pub acknowledge : Packet → State S × Bool → State S
    acknowledge p (cn, ok) =
        if ok then send_ack p.header.sequence_no (ack_options p.header.flags) cn else cn

    unfoldable pub handle : Packet → State S → State S
    handle p (c, n) =
        let flags = p.header.flags in
        if flags == Flag.session
        then (record c { client_id = p.header.session_id; is_connect = true }, n)
        else if flags == Flag.ping
        then repeat_pong_message crc_u32 crc_u8 p.header.sequence_no (c, n)
        else if flags == Flag.disconnect
        then disconnect crc_u32 crc_u8 reset (c, n)
        else if flags == Flag.none
        then (recv_dispatch p (c, n)).0
        else if has_flag flags Flag.repeat
        then acknowledge p (recv_dispatch p (c, n))
        else if has_flag flags Flag.ack
        then recv_dispatch_ack p (c, n)
        else (c, n)

    -- OnRecvFrom for the packet in buffer `a`
    unfoldable pub on_recv_from : ℕ → State S → State S
    on_recv_from a (c, n) =
        let p = (n.packets.buffers a).packet in
        let (now, n1) = read_clock clock n in
        let (c2, n2) = handle p (record c { timestamp = now }, n1) in (c2, push a n2)

  -- CheckPending; `repeat_all` is RepeatMessageAll with the delay, and `rtt_delay` is
  -- `rttMillisec_ * 2 + g_defaultRttMsDelay`.
  unfoldable pub check_pending :
      (Net S → Net S) → ℕ → ℕ → (ℕ → State S → State S) → State S → State S
  check_pending reset client_timeout rtt_delay repeat_all (c, n) =
      let (now, n') = read_clock clock n in
      repeat_all rtt_delay (
        if ltb client_timeout (sub32 now c.timestamp)
        then disconnect crc_u32 crc_u8 reset (c, n')
        else (c, n'))
