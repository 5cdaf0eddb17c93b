-- ===== src/PacketManager.antt =====
-- OverlappedObj.h and PacketManager of BufferManager.cpp: the buffers of outgoing and incoming
-- packets, which the sending code, the pending window and the kernel share by address.
pub mod Count
pub mod Invariant
mod Tests
use dubuframework.Base.{ℕ, ◌+◌, Bool, true, false, List, [], ◌∷◌, update}
use dubuframework.Packet.{Packet, packet_max_size}

-- The flags of OverlappedObjType in an `OverlappedObj::type_`; RELIABLE is sixteen bits that are
-- only set and cleared together.
pub record ObjType : Type 0 where
  pub recvefrom : Bool
  pub sendto : Bool
  pub sending : Bool
  pub reliable : Bool

-- struct OverlappedPacketBuffer: `type_`, and `buffer_` with `size_`
pub record OverlappedPacketBuffer : Type 0 where
  pub obj_type : ObjType
  pub packet : Packet

-- `next` is the first address that was never allocated.
pub record PacketManager : Type 0 where
  pub list : List ℕ  -- back first
  pub use_list : ℕ → Bool
  pub next : ℕ
  pub buffers : ℕ → OverlappedPacketBuffer

-- `buffer->…` on one buffer
abbrev pub modify :
    ℕ → (OverlappedPacketBuffer → OverlappedPacketBuffer) → PacketManager → PacketManager
modify a f m = record m { buffers = update m.buffers a (f (m.buffers a)) }

-- OverlappedObj::SetType
abbrev pub set_type : ObjType → OverlappedPacketBuffer → OverlappedPacketBuffer
set_type t b = record b { obj_type = t }

abbrev no_type : ObjType
no_type = record { recvefrom = false; sendto = false; sending = false; reliable = false }

-- `ptr->size_ = sizeof(ptr->buffer_)`
abbrev whole : OverlappedPacketBuffer → OverlappedPacketBuffer
whole b = record b { packet = record b.packet { size = packet_max_size } }

-- PopPacketBuffer: the back of the list, or a new buffer
unfoldable pub pop_from : List ℕ → PacketManager → PacketManager × ℕ
pop_from [] m = (
  modify m.next (λ b. set_type no_type (whole b))
      (record m { list = []; use_list = update m.use_list m.next true; next = m.next + 1 }),
  m.next,
)
pop_from (a ∷ rest) m =
    (modify a whole (record m { list = rest; use_list = update m.use_list a true }), a)

unfoldable pub pop_packet_buffer : PacketManager → PacketManager × ℕ
unfolding pop_from
pop_packet_buffer m = pop_from m.list m

-- PushPacketBuffer
unfoldable pub push_packet_buffer : ℕ → PacketManager → PacketManager
push_packet_buffer a m = record m { list = a ∷ m.list; use_list = update m.use_list a false }
