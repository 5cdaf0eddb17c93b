-- ===== src/Chunk.antt =====
-- ChunkPacket.h and .cpp, with Session::SendPacketChunk and Session::RecvChunckPacket (Session.cpp):
-- a message that is too large for one packet is sent in up to 16 parts, each of which carries its
-- place as a bit of a flag, and is joined when all parts are there.
mod Split
mod Flags
mod Collect
mod Join
mod Rejoin
mod Tests
use dubuframework.Base.{
  ℕ, zero, suc, ◌+◌, ◌-◌, ◌*◌, ◌/◌, ◌%◌, ◌^◌, Bool, true, false, not, ◌&&◌, Option, none, some,
  List, [], ◌∷◌, ◌++◌, ltb, leb, ◌==◌, if◌then◌else◌, take, drop, length, get_or, update, u16,
  sub32, bit_and, bit_or,
}
use dubuframework.Packet.{PacketHeader, Packet, PacketOpctions, header_size, packet_max_size}
use dubuframework.Packet.Flag
use dubuframework.Host.{Host}
use dubuframework.CachePool.{CachePool, pop_packet_buffer, push_packet_buffer}

-- DEFAULT_CHUNCK_MAX_SIZE
abbrev pub chunck_max_size : ℕ
chunck_max_size = 16

-- DEFAULT_CHUNK_END_MASK
abbrev pub chunk_end_mask : ℕ
chunk_end_mask = 0b1000000000000000

-- struct ChunkPacket; a buffer is the packet copied into it.
pub record ChunkPacket : Type 0 where
  pub buffers : ℕ → Option Packet  -- an array of 16
  pub flag : ℕ
  pub size : ℕ
  pub count : ℕ
  pub is_end : Bool

-- ChunkPacket{}
abbrev pub new_chunk : ChunkPacket
new_chunk = record { buffers = λ _. none; flag = 0; size = 0; count = 0; is_end = false }

-- The loops that shift a flag until its lowest bit is found. The first argument bounds the rounds.
unfoldable pub lowest_bit : ℕ → ℕ → ℕ → ℕ
lowest_bit zero count flag = count
lowest_bit (suc fuel) count flag =
    let rest = lowest_bit fuel (count + 1) (flag / 2) in
    if ltb 0 flag then if ltb 0 (bit_and flag 1) then count else rest else count

-- SetBuffer
unfoldable pub set_buffer : ℕ → Packet → ChunkPacket → ChunkPacket × Bool
set_buffer flag buffer c = if ltb 0 (bit_and c.flag flag) then (c, false) else (
  record c {
    count = u16 (c.count + 1);
    flag = bit_or c.flag flag;
    is_end = if bit_and flag chunk_end_mask == chunk_end_mask then true else c.is_end;
    buffers =
        if ltb 0 flag
        then update c.buffers (lowest_bit chunck_max_size 0 flag) (some buffer)
        else c.buffers;
  },
  true,
)

-- IsPull
unfoldable pub is_pull : ChunkPacket → Bool
is_pull c = if c.is_end && 0 == u16 (c.flag + 1) then true else false

-- class ChunkPacketInj: a map from the number of the first part
abbrev pub ChunkPacketInj : Type 0
ChunkPacketInj = ℕ → Option ChunkPacket

-- StartSequnceNum
unfoldable pub start_sequnce_num : ℕ → ℕ → ℕ
start_sequnce_num seq flag = sub32 seq (lowest_bit chunck_max_size 0 flag)

abbrev or_new : Option ChunkPacket → ChunkPacket
or_new none = new_chunk
or_new (some c) = c

-- Update: the packet of this part, a new one if there is none. The caller writes it back, as it
-- does through the reference in the source.
unfoldable pub update_chunk : ℕ → ℕ → ChunkPacketInj → ChunkPacket
update_chunk seq flag inj = or_new (inj (start_sequnce_num seq flag))

-- Remove
unfoldable pub remove_chunk : ℕ → ℕ → ChunkPacketInj → ChunkPacketInj
remove_chunk seq flag inj = update inj (start_sequnce_num seq flag) none

-- What RecvChunckPacket works on.
pub record Chunks (S : Type 0) : Type 0 where
  pub inj : ChunkPacketInj
  pub caches : CachePool
  pub host : S

-- The size of a sub-header, its second byte, if the packet's code says that there is one.
unfoldable pub sub_header_size : Packet → ℕ
sub_header_size p = if ltb 0 (p.header.packet_code / 32) then get_or p.body 1 0 else 0

-- The loop that copies the parts from `i` on: their bytes after the headers, and their buffers
-- given back. A missing part would be a null pointer; the loop copies nothing for it.
abbrev copy_part : ℕ → Option Packet → List ℕ × ℕ → List ℕ × ℕ
copy_part sub none (bytes, offset) = (bytes, offset)
copy_part sub (some p) (bytes, offset) =
    (bytes ++ drop sub p.body, u16 (offset + (p.size - (header_size + sub))))

unfoldable pub copy_parts : ℕ → ℕ → ℕ → (ℕ → Option Packet) → List ℕ × ℕ → List ℕ × ℕ
copy_parts zero i sub buffers out = out
copy_parts (suc n) i sub buffers out =
    copy_parts n (i + 1) sub buffers (copy_part sub (buffers i) out)

unfoldable pub push_all : ℕ → CachePool → CachePool
push_all zero caches = caches
push_all (suc n) caches = push_all n (push_packet_buffer caches)

-- The joined packet: the first part whole, and of the others what follows the headers.
abbrev join_from : ℕ → ChunkPacket → Option Packet → Packet → Packet
join_from sub c none last = last
join_from sub c (some first) last =
    let (bytes, offset) = copy_parts (c.count - 1) 1 sub c.buffers (first.body, first.size) in
    record { header = first.header; body = bytes; size = offset }

-- `last` is the packet that arrived last, whose sub-header is read.
unfoldable pub join : ChunkPacket → Packet → Packet
join c last = join_from (sub_header_size last) c (c.buffers 0) last

-- `PopBig(chunckPacket.size_ + headerSize)` and the copies into it: whether PopBig's assertion holds, and
-- whether the parts lie within the memory that it returns.
unfoldable pub has_room : ChunkPacket → Packet → Bool
has_room c last =
    let size = u16 (c.size + (header_size + sub_header_size last)) in
    leb size 8192 && leb (header_size + length (join c last).body) size

-- RecvChunckPacket. Where PopBig asserts in vain, or the parts are larger than the first of them
-- says and overrun the memory, the source's behaviour is not defined; here the packet changes nothing.
module _ {S : Type 0} (h : Host S) where
  unfoldable pub recv_chunck_packet : Packet → Chunks S → Chunks S
  recv_chunck_packet p u =
      let seq = p.header.sequence_no in
      let info = p.header.chunk_info in
      let chunck_packet = (set_buffer info.flag p (update_chunk seq info.flag u.inj)).0 in
      let filled : ChunkPacket = record chunck_packet { size = info.size } in
      let caches = pop_packet_buffer u.caches in
      if bit_and p.header.flags Flag.chunk == Flag.chunk
      then if is_pull filled
        then if has_room filled p
          then record {
            inj = remove_chunk seq info.flag u.inj;
            caches = push_all filled.count caches;
            host = h.packet_parse (join filled p) u.host;
          }
          else u
        else record {
          inj = update u.inj (start_sequnce_num seq info.flag) (some filled);
          caches = caches;
          host = u.host;
        }
      else u

-- The options of a part
abbrev pub chunk_options : ℕ → ℕ → PacketOpctions
chunk_options flag total = record {
  reliable = true;
  order = false;
  channel_id = 0;
  is_chunck = true;
  chunck_flag = flag;
  chunck_total = total;
}

-- SendPacketChunk. `send_packet` is SendPacket with the code and the sub-header. The length of the
-- buffer is the argument `size`, a 16-bit number; beyond 16 parts the flags are 0.
module _ {S : Type 0} (send_packet : List ℕ → PacketOpctions → S → S) where
  -- The loop from part `i` on, with `left` parts to go; `rest` is what starts at `buffer + offset`.
  unfoldable pub send_parts : ℕ → ℕ → ℕ → ℕ → ℕ → List ℕ → S → S
  send_parts zero i last_bit chunck_size total rest s = s
  send_parts (suc zero) i last_bit chunck_size total rest s =
      let last = total % chunck_size in
      let send_size = if ltb 0 last then last else chunck_size in
      send_packet (take send_size rest) (chunk_options last_bit total) s
  send_parts (suc (suc left)) i last_bit chunck_size total rest s =
      send_parts (suc left) (i + 1) (u16 (last_bit * 2)) chunck_size total (drop chunck_size rest)
        (send_packet (take chunck_size rest) (chunk_options (u16 (2 ^ i)) total) s)

  unfoldable pub send_packet_chunk : List ℕ → ℕ → S → S
  send_packet_chunk buffer sub_header_size s =
      let size = length buffer in
      let chunck_size = packet_max_size - header_size - sub_header_size in
      let whole = size / chunck_size in
      let count = if ltb 0 (size % chunck_size) then whole + 1 else whole in
      send_parts count 0 0xFFFF chunck_size size buffer s
