-- ===== src/Wire/Layout.antt =====
-- The bytes of a header and the header that is read from them (Packet.h, Packet.cpp).
use dubuframework.Base.{ℕ, ◌/◌, ◌%◌, ◌<◌, ◌≡◌, refl, some, List, drop, arith}
use dubuframework.Packet.{PacketHeader}
use dubuframework.Wire.{half, word, header_bytes, read_header, packet_header_copy}

-- The fields are within their types.
pub record IsHeader (h : PacketHeader) : Type 0 where
  pub total_size : h.total_size < 65536
  pub packet_code : h.packet_code < 256
  pub flags : h.flags < 256
  pub session_id : h.session_id < 4294967296
  pub sequence_no : h.sequence_no < 4294967296
  pub timestamp : h.timestamp < 4294967296
  pub checksum : h.checksum < 4294967296
  pub size : h.chunk_info.size < 65536
  pub flag : h.chunk_info.flag < 65536

half-bytes : (n : ℕ) → n < 65536 → half (n % 256) (n / 256 % 256) ≡ n
half-bytes n h = omega arith

word-bytes :
    (n : ℕ)
    → n < 4294967296
    → word (n % 256) (n / 256 % 256) (n / 65536 % 256) (n / 16777216 % 256) ≡ n
word-bytes n h = omega arith

byte : (n : ℕ) → n < 256 → n % 256 ≡ n
byte n h = omega arith

read-bytes :
    (h : PacketHeader) (rest : List ℕ)
    → IsHeader h
    → read_header (header_bytes h rest) ≡ some (h, rest)
unfolding header_bytes read_header
read-bytes h rest v =
    rw
      (
        half-bytes h.total_size v.total_size,
        byte h.packet_code v.packet_code,
        byte h.flags v.flags,
        word-bytes h.session_id v.session_id,
        word-bytes h.sequence_no v.sequence_no,
        word-bytes h.timestamp v.timestamp,
        word-bytes h.checksum v.checksum,
        half-bytes h.chunk_info.size v.size,
        half-bytes h.chunk_info.flag v.flag,
      )
      refl

-- A header whose fields are within their types, written over the beginning of a buffer by
-- PacketHeaderCopy from the memory of a packet, is the header that is read there, and what follows
-- in the buffer is as before.
pub copy-read :
    (h : PacketHeader) (body dest : List ℕ)
    → IsHeader h
    → read_header (packet_header_copy (header_bytes h body) dest) ≡ some (h, drop 24 dest)
unfolding packet_header_copy header_bytes
copy-read h body dest v = read-bytes h (drop 24 dest) v
