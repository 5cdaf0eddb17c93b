-- ===== src/Lib.antt =====
-- The reliable UDP library of DUBUFrameWork/: what a session does with the packets it sends and
-- receives.
--
-- A packet carries a header (Packet.h) whose flags choose how it is treated. An unreliable packet is
-- sent once. A reliable one waits in a window of 64 until it is acknowledged, and the receiver must
-- tell a packet that is repeated from a new one; on an ordered channel it must also parse packets in
-- the order in which they were sent. Session::RecvDispatch (Session.cpp) is the receiver; the same
-- code stands in Client.cpp and InternalClient.cpp. ReliablePacketState is the sending window. The
-- buffers come from two managers (BufferManager.cpp).
--
-- The files and what they model:
--   Base           machine words, bits, arrays as functions of the index, Boolean tests
--   Packet         the header and its flags, PacketOpctions (Packet.h, Packet.cpp)
--   PacketState    the receiving half of PacketStateBase (PacketStateBase.h and .cpp)
--   Host           what the receiving code calls: PacketParse and the clock
--   CachePool      CachePacketManager (BufferManager.cpp)
--   PacketManager  PacketManager and OverlappedPacketBuffer (BufferManager.cpp, OverlappedObj.h)
--   Sequence       sequence numbers as message numbers modulo 2 ^ 32
--   Window         the receiver's window with no 32-bit numbers
--   Lock           the read-write spin lock (RWLock.h and .cpp), as steps of threads
--   Chunk          messages in parts: ChunkPacket.h and .cpp, and SendPacketChunk and
--                  RecvChunckPacket (Session.cpp)
--   Channel        RecvDispatch for a packet of an ordered channel (Session.cpp)
--   Unordered      RecvDispatch for a reliable packet of no channel (Session.cpp)
--   Unreliable     RecvDispatch for a packet that is not resent (Session.cpp)
--   Session        RecvDispatch as a whole, RecvDispatchACK, RecvDispatchPong, Reset, PacketParse
--                  (Session.h, Session.cpp)
--   Worker         SessionWorker::ProcessPacket, once the session is found (SessionWorker.cpp)
--   SessionManager the sessions by their identifiers (SessionManager.h, SessionManager.cpp)
--   Wire           the bytes of a packet and its checksum (Packet.h, Packet.cpp)
--   Socket         the requests to the kernel and their completion (RUDPSocket.h, RUDPSocket.cpp)
--   Sending        SendPacket, RepeatMessage, RepeatMessageAll (Session.cpp), and the life of a
--                  packet buffer between the window and the kernel
--   Messages       the packets that are a header only (Server.cpp, Client.cpp)
--   Server         the sessions and peers of the server (Server.h, Server.cpp, Peer.h) and
--                  SessionWorker::ProcessPacket, in Server.Whole with what Worker does
--   Check          the queue of a worker, Server::OnRecvFrom, CheckSessions (SessionWorker.cpp)
--   Client         the connection of a client, its OnRecvFrom (Client.h, Client.cpp); Client.Send has
--                  SendPacket of both clients and Client.Receive their RecvDispatch, PacketParse
--                  and Reset (Client.cpp, InternalClient.cpp)
--   Gateway        what the gateway passes on, and to whom (GateWay/GatewayServer.cpp,
--                  GateWay/GatewaySessionHandler.cpp, extra/GatewaySubHeader.h)
--   Link           an ordered channel from end to end: the sender's window, a network that loses,
--                  repeats and reorders, and the receiver (Session.cpp, SessionWorker.cpp)
--   Ring           the queue of 64 places (RingBuffer.h), for calls one after another; Ring.Threads
--                  has the atomic accesses of any number of threads as steps
--   Pool           the blocks of memory, their chunks, Pop and Push (Pool.h, Pool.cpp)
--   Pending        ReliablePacketState: AddPendingPacket, AckProcess, IsRepeat, Reset
--
-- State is passed explicitly: a handler takes the record of the members it works on and returns it
-- with its result. A function that the code calls on the rest of the program (PacketParse, which is
-- modelled in Session.Parse, the clock, Server::SendAck, the rounding of the smoothed round trip time)
-- is an argument. The unordered receiver also takes RecvChunckPacket as an argument, which Session
-- fills with that of Chunk. Arrays are functions of the index; the windows are accessed modulo their
-- size, 64. In Session.Whole PacketParse also has what the session keeps to send, which SendPacket
-- changes.
-- A buffer that two owners share (the pending window and the kernel) is an address into the
-- manager; a CachePacketBuffer, which has one owner, is the packet copied into it.
--
-- Numbers are natural; 32-bit arithmetic has its wrap written out. A message has an unbounded number,
-- and its sequence number is that modulo 2 ^ 32; the theorems ask that a message arrives near enough
-- to the window that the 32 bits are not those of a message of another round.
--
-- Loops over the windows run on fuel, 64 rounds, as many as a window is long; the loops that shift a
-- flag of 16 bits run 16 rounds. RepeatMessage runs as many rounds as its window is long. The drawing
-- of a session's identifier has a bound as an argument, and its theorem asks that a free number is
-- drawn within it. Push and Pop of the ring buffer have a bound too; one round is enough for a single
-- thread.
--
-- The kernel is the list of the requests made of it; the theorem on the life of a packet buffer has the
-- kernel's completions as steps of their own, in any order.
--
-- Not modelled: the set-up of the sockets, which only calls Winsock, and the completion thread; the
-- start and the stop of the server, its statistics; the loop of Client::Dispatch, which is an argument,
-- and what of Client.cpp and InternalClient.cpp repeats RecvChunckPacket, SendPacketChunk and
-- RepeatMessage of Session.cpp; the large objects of the memory pool (PushBig, PopBig, ObjectPool),
-- but for the size that PopBig may be asked for, which Chunk tests; the
-- set-up of the gateway, its Broadcast and its main program; the flatbuffers, which are generated; the
-- logs, the configuration, crash dumps, tests and examples. Apart from Lock and
-- Ring.Threads, where each atomic access is a step, a handler is a single step.
pub mod Base
pub mod Packet
pub mod PacketState
pub mod Host
pub mod CachePool
pub mod Sequence
pub mod Window
pub mod PacketManager
pub mod Pending
pub mod Lock
pub mod Chunk
pub mod Channel
pub mod Unordered
pub mod Unreliable
pub mod Session
pub mod Worker
pub mod SessionManager
pub mod Wire
pub mod Socket
pub mod Sending
pub mod Messages
pub mod Server
pub mod Check
pub mod Client
pub mod Gateway
pub mod Link
pub mod Ring
pub mod Pool
