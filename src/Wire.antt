-- ===== src/Wire.antt =====
-- The bytes of a packet (Packet.h, Packet.cpp): the layout of the header under pack(4), the copying
-- functions, and the checksum, for which the two intrinsics of nmmintrin.h are parameters.
mod Layout
mod Crc
mod Tests
use dubuframework.Base.{
  ℕ, ◌+◌, ◌*◌, ◌/◌, ◌%◌, Option, none, some, List, [], ◌∷◌, ◌++◌, take, drop, bit_xor,
}
use dubuframework.Packet.{PacketHeader, Packet, header_size}

-- A Uint16 and a Uint32 in memory, lowest byte first, before the bytes of `rest`
abbrev pub le16 : ℕ → List ℕ → List ℕ
le16 n rest = n % 256 ∷ n / 256 % 256 ∷ rest

abbrev pub le32 : ℕ → List ℕ → List ℕ
le32 n rest = n % 256 ∷ n / 256 % 256 ∷ n / 65536 % 256 ∷ n / 16777216 % 256 ∷ rest

abbrev pub half : ℕ → ℕ → ℕ
half a b = a + 256 * b

abbrev pub word : ℕ → ℕ → ℕ → ℕ → ℕ
word a b c d = a + 256 * b + 65536 * c + 16777216 * d

-- The memory of a PacketHeader, before the bytes of `rest`
unfoldable pub header_bytes : PacketHeader → List ℕ → List ℕ
header_bytes h rest = le16 h.total_size (
    h.packet_code % 256
    ∷ h.flags % 256
    ∷ le32 h.session_id (
        le32 h.sequence_no (
          le32 h.timestamp
            (le32 h.checksum (le16 h.chunk_info.size (le16 h.chunk_info.flag rest))))))

-- `reinterpret_cast<PacketHeader*>` on a buffer, with the bytes after the header; `none` if they are
-- fewer than a header's.
unfoldable pub read_header : List ℕ → Option (PacketHeader × List ℕ)
read_header
      (a ∷ b ∷ c ∷ d ∷ e ∷ f ∷ g ∷ h ∷ i ∷ j ∷ k ∷ l ∷ m ∷ n ∷ o ∷ p ∷ q ∷ r ∷ s ∷ t ∷ u ∷ v ∷ w ∷ x
        ∷ rest) =
    some (
      record {
        total_size = half a b;
        packet_code = c;
        flags = d;
        session_id = word e f g h;
        sequence_no = word i j k l;
        timestamp = word m n o p;
        checksum = word q r s t;
        chunk_info = record { size = half u v; flag = half w x };
      },
      rest,
    )
read_header _ = none

-- The memory of a packet's buffer
abbrev pub packet_bytes : Packet → List ℕ
packet_bytes p = header_bytes p.header p.body

-- Packet::PacketCopy: what `dest` is afterwards
unfoldable pub packet_copy : List ℕ → ℕ → List ℕ → List ℕ
packet_copy ptr len dest = take len ptr ++ drop len dest

-- Packet::PacketHeaderCopy
unfoldable pub packet_header_copy : List ℕ → List ℕ → List ℕ
packet_header_copy ptr dest = take header_size ptr ++ drop header_size dest

-- `crc_u32` and `crc_u8` are `_mm_crc32_u32` and `_mm_crc32_u8`.
module _ (crc_u32 crc_u8 : ℕ → ℕ → ℕ) where
  -- The loop over the bytes that are left
  unfoldable pub crc_tail : List ℕ → ℕ → ℕ
  crc_tail [] crc = crc
  crc_tail (a ∷ rest) crc = crc_tail rest (crc_u8 crc a)

  -- The loop over four bytes at a time, then the loop over the rest
  unfoldable pub crc_words : List ℕ → ℕ → ℕ
  unfolding crc_tail
  crc_words (a ∷ b ∷ c ∷ d ∷ rest) crc = crc_words rest (crc_u32 crc (word a b c d))
  crc_words rest crc = crc_tail rest crc

  -- Packet::CRC32
  unfoldable pub crc32 : List ℕ → ℕ → ℕ
  unfolding crc_words
  crc32 ptr len = bit_xor (crc_words (take len ptr) 0xFFFFFFFF) 0xFFFFFFFF
