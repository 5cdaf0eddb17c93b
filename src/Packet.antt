-- ===== src/Packet.antt =====
-- Packet.h and Packet.cpp: the header of a packet, its flags, and the options read back from them.
pub mod Flag
use dubuframework.Base.{ℕ, ◌/◌, ◌≤◌, Bool, true, false, List, leb, ◌==◌, if◌then◌else◌, bit_and}

-- struct ChunkInfo
pub record ChunkInfo : Type 0 where
  pub size : ℕ  -- Uint16
  pub flag : ℕ  -- Uint16

-- struct PacketHeader
pub record PacketHeader : Type 0 where
  pub total_size : ℕ  -- Uint16
  pub packet_code : ℕ  -- Uint8
  pub flags : ℕ  -- Uint8
  pub session_id : ℕ  -- Uint32
  pub sequence_no : ℕ  -- Uint32
  pub timestamp : ℕ  -- Uint32
  pub checksum : ℕ  -- Uint32
  pub chunk_info : ChunkInfo

-- A buffer of `size` bytes that begins with a header: the pair `Uint8* buffer, Uint16 size` of
-- the source. `body` is what follows the header.
pub record Packet : Type 0 where
  pub header : PacketHeader
  pub body : List ℕ
  pub size : ℕ

-- sizeof(PacketHeader) under pack(4)
abbrev pub header_size : ℕ
header_size = 24

-- PACKET_MAX_SIZE
abbrev pub packet_max_size : ℕ
packet_max_size = 1024

-- struct PacketOpctions
pub record PacketOpctions : Type 0 where
  pub reliable : Bool
  pub order : Bool
  pub channel_id : ℕ
  pub is_chunck : Bool
  pub chunck_flag : ℕ
  pub chunck_total : ℕ

-- Packet::PacketHeaderCheck
unfoldable pub packet_header_check : ℕ → Bool
packet_header_check len = if leb header_size len then true else false

-- `(flags & f) == f`
abbrev pub has_flag : ℕ → ℕ → Bool
has_flag flags f = bit_and flags f == f

-- `(flags & CHANNELMASK) >> 3`
abbrev pub channel_of : ℕ → ℕ
channel_of flags = bit_and flags Flag.channel_mask / 8

-- PacketOpctions::HeaderToOptions
unfoldable pub header_to_options : PacketHeader → PacketOpctions
header_to_options header =
    let opt : PacketOpctions = record {
      reliable = has_flag header.flags Flag.repeat;
      order = false;
      channel_id = 0;
      is_chunck = false;
      chunck_flag = 0;
      chunck_total = 0;
    } in
    if has_flag header.flags Flag.channel
    then record opt { order = true; channel_id = channel_of header.flags }
    else opt
