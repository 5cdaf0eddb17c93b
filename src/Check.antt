-- ===== src/Check.antt =====
-- SessionWorker.h and .cpp: the queue of a worker, and CheckSessions, which looks after the sessions
-- that the worker owns.
mod Expired
mod Queue
mod Tests
use dubuframework.Base.{
  ℕ, zero, suc, ◌+◌, ◌%◌, Bool, true, false, not, ◌&&◌, ◌||◌, Option, none, some, List, [], ◌∷◌,
  ◌++◌, ltb, leb, ◌==◌, if◌then◌else◌, length, sub32, update,
}
use dubuframework.PacketState.{window_count}
use dubuframework.SessionManager.{get_session}
use dubuframework.Socket.{Net, push}
use dubuframework.Server.{
  Connection, Server, is_null, put_session, disconnect, disconnect_message, send_ping,
  remove_session_of,
}

-- struct SessionJob; the buffer is an address of the packet manager's.
pub record SessionJob : Type 0 where
  pub key : ℕ
  pub opb : Option ℕ

-- The capacity of `queue_`
abbrev pub capacity : ℕ
capacity = 8192

-- PushPacketBuffer of a job's buffer
abbrev pub give_back : {S : Type 0} → Option ℕ → Net S → Net S
give_back none n = n
give_back (some a) n = push a n

-- Whether the session is that of worker `num`, connected, and not one that is always kept
unfoldable pub is_checked : ℕ → ℕ → Connection → Bool
is_checked worker_count num c =
    (c.session_id % worker_count == num) && (c.is_connect && not c.aways_connect)

unfoldable pub is_expired : ℕ → ℕ → Connection → Bool
is_expired now session_timeout c = ltb session_timeout (sub32 now c.timestamp) || c.ready_disconnect

unfoldable pub wants_ping : ℕ → ℕ → Connection → Bool
wants_ping now ping_timeout c =
    ltb ping_timeout (sub32 now c.timestamp) && leb ping_timeout (sub32 now c.last_ping_sent_time)

module _ {S : Type 0} where
  -- Push; the oldest job is the first of the list.
  unfoldable pub push_job : SessionJob → List SessionJob × Net S → List SessionJob × Net S
  push_job job (queue, n) =
      if ltb (length queue) capacity then (queue ++ job ∷ [], n) else (queue, give_back job.opb n)

  -- Server::OnRecvFrom for the packet in buffer `a`: the worker is the session's, modulo their
  -- number.
  unfoldable pub on_recv_from :
      ℕ → ℕ → ℕ → (ℕ → List SessionJob) × Net S → (ℕ → List SessionJob) × Net S
  on_recv_from worker_count a size (queues, n) =
      let header = (n.packets.buffers a).packet.header in
      let target = header.session_id % worker_count in
      let (queue, n') =
        push_job (record { key = header.session_id; opb = some a }) (queues target, n) in
      if worker_count == 0
      then (queues, push a n)
      else if not (header.total_size == size)
      then (queues, push a n)
      else (update queues target queue, n')

  -- ReturnBuffers
  unfoldable pub return_buffers : List SessionJob → Net S → Net S
  return_buffers [] n = n
  return_buffers (job ∷ rest) n = return_buffers rest (give_back job.opb n)

  -- A job of the loop of Process: the buffer is given back here, and not by the socket.
  unfoldable pub run_job : (ℕ → Server S → Server S) → Option ℕ → Server S → Server S
  run_job process_packet none v = v
  run_job process_packet (some a) v =
      let v' = process_packet a v in record v' { net = push a v'.net }

  -- The loop of Process; `process_packet` is ProcessPacket of the packet in a buffer, and the number
  -- bounds the jobs of one round.
  unfoldable pub consume :
      (ℕ → Server S → Server S) → ℕ → List SessionJob × Server S → List SessionJob × Server S
  consume process_packet zero (queue, v) = (queue, v)
  consume process_packet (suc left) ([], v) = ([], v)
  consume process_packet (suc left) (job ∷ rest, v) =
      consume process_packet left (rest, run_job process_packet job.opb v)

  module _ (crc_u32 crc_u8 : ℕ → ℕ → ℕ)
      (now session_timeout ping_timeout worker_count num : ℕ) where
    -- The round of the loop for one session that is not null; `repeat_all` is RepeatMessageAll of the session.
    unfoldable pub check_session :
        (ℕ → Server S → Server S) → ℕ → Option Connection → List ℕ × Server S → List ℕ × Server S
    check_session repeat_all id none (removes, v) = (removes, v)
    check_session repeat_all id (some c) (removes, v) =
        let (c', n) = send_ping crc_u32 crc_u8 now c v.net in
        let pinged =
          put_session id (record c' { last_ping_sent_time = now }) (record v { net = n }) in
        if not (is_checked worker_count num c)
        then (removes, v)
        else if is_expired now session_timeout c
        then (
          if ltb (length removes) window_count then removes ++ id ∷ [] else removes,
          repeat_all id v,
        )
        else (removes, repeat_all id (if wants_ping now ping_timeout c then pinged else v))

    -- The loop over the sessions, whose identifiers are in the order of the map. A null session ends
    -- CheckSessions; the answer tells whether the loop came to its end.
    unfoldable pub check_from :
        (ℕ → Server S → Server S) → List ℕ → List ℕ × Server S → (List ℕ × Server S) × Bool
    check_from repeat_all [] state = (state, true)
    check_from repeat_all (id ∷ rest) (removes, v) =
        let later =
          check_from repeat_all rest
            (check_session repeat_all id (get_session id v.sessions) (removes, v)) in
        if is_null (get_session id v.sessions) then ((removes, v), false) else later

    abbrev pub check_all :
        (ℕ → Server S → Server S) → List ℕ → List ℕ × Server S → List ℕ × Server S
    check_all repeat_all ids state = (check_from repeat_all ids state).0

  module _ (crc_u32 crc_u8 : ℕ → ℕ → ℕ) (now : ℕ) (destroy : Connection → Net S → Net S) where
    -- A session that is removed is told so.
    unfoldable pub end_session : ℕ → Option Connection → Server S → Server S
    end_session id none v = remove_session_of destroy id v
    end_session id (some c) v =
        remove_session_of destroy id
          (put_session id (disconnect c) (disconnect_message crc_u32 crc_u8 now c v))

    unfoldable pub end_sessions : List ℕ → Server S → Server S
    end_sessions [] v = v
    end_sessions (id ∷ rest) v = end_sessions rest (end_session id (get_session id v.sessions) v)

    -- CheckSessions
    unfoldable pub check_sessions :
        ℕ → ℕ → ℕ → ℕ → (ℕ → Server S → Server S) → List ℕ → Server S → Server S
    check_sessions session_timeout ping_timeout worker_count num repeat_all ids v =
        let ((removes, v'), whole) =
          check_from crc_u32 crc_u8 now session_timeout ping_timeout worker_count num repeat_all ids
            ([], v) in
        if worker_count == 0 then v else if whole then end_sessions removes v' else v'

module _ {S : Type 0} (process_packet : ℕ → Server S → Server S) (check : Server S → Server S) where
  -- Process at the time `now`; `check` is CheckSessions, which runs if 50 ms are over.
  unfoldable pub process : ℕ → ℕ × List SessionJob × Server S → ℕ × List SessionJob × Server S
  process now (last_check_time, queue, v) =
      let (queue', v') = consume process_packet window_count (queue, v) in
      if leb 50 (sub32 now last_check_time)
      then (now, queue', check v')
      else (last_check_time, queue', v')
