-- ===== src/Wire/Tests.antt =====
-- A header with all fields, and a checksum in place of the intrinsics.
use dubuframework.Base.{
  ℕ, ◌+◌, ◌*◌, ◌/◌, ◌%◌, ◌≡◌, refl, some, List, [], ◌∷◌, drop, take, arith, bit_xor, zero, suc,
}
use dubuframework.Packet.{PacketHeader}
use dubuframework.Wire.{word, header_bytes, read_header, packet_header_copy, crc32}
use dubuframework.Wire.Layout.{IsHeader, copy-read}
use dubuframework.Wire.Crc.{AreBytes, IsWordwise, reference, crc32-reference}

abbrev header : PacketHeader
header = record {
  total_size = 1000;
  packet_code = 7;
  flags = 5;
  session_id = 70000;
  sequence_no = 4294967295;
  timestamp = 123456;
  checksum = 305419896;
  chunk_info = record { size = 300; flag = 2 };
}

header-IsHeader : IsHeader header
header-IsHeader = record {
  total_size = omega arith;
  packet_code = omega arith;
  flags = omega arith;
  session_id = omega arith;
  sequence_no = omega arith;
  timestamp = omega arith;
  checksum = omega arith;
  size = omega arith;
  flag = omega arith;
}

copy-read_example :
    read_header (packet_header_copy (header_bytes header (1 ∷ [])) (9 ∷ 8 ∷ []))
    ≡ some (header, drop 24 (9 ∷ 8 ∷ []))
copy-read_example = copy-read header (1 ∷ []) (9 ∷ 8 ∷ []) header-IsHeader

-- A checksum of one byte, and of the four bytes of a word
abbrev sum_u8 : ℕ → ℕ → ℕ
sum_u8 crc a = (crc * 31 + a) % 4294967296

abbrev sum_u32 : ℕ → ℕ → ℕ
sum_u32 crc w =
    sum_u8 (sum_u8 (sum_u8 (sum_u8 crc (w % 256)) (w / 256 % 256)) (w / 65536 % 256))
      (w / 16777216 % 256)

sum-IsWordwise : IsWordwise sum_u32 sum_u8
sum-IsWordwise crc a b c d ha hb hc hd =
    let e : word a b c d % 256 ≡ a = omega arith in
    let f : word a b c d / 256 % 256 ≡ b = omega arith in
    let g : word a b c d / 65536 % 256 ≡ c = omega arith in
    let h : word a b c d / 16777216 % 256 ≡ d = omega arith in rw (e, f, g, h) refl

abbrev buffer : List ℕ
buffer = 255 ∷ 1 ∷ 2 ∷ 3 ∷ 4 ∷ 5 ∷ []

buffer-AreBytes : AreBytes buffer
buffer-AreBytes zero = omega arith
buffer-AreBytes (suc zero) = omega arith
buffer-AreBytes (suc (suc zero)) = omega arith
buffer-AreBytes (suc (suc (suc zero))) = omega arith
buffer-AreBytes (suc (suc (suc (suc zero)))) = omega arith
buffer-AreBytes (suc (suc (suc (suc (suc zero))))) = omega arith
buffer-AreBytes (suc (suc (suc (suc (suc (suc i)))))) = omega arith

crc32-reference_example :
    crc32 sum_u32 sum_u8 buffer 6 ≡ bit_xor (reference sum_u8 (take 6 buffer) 0xFFFFFFFF) 0xFFFFFFFF
crc32-reference_example = crc32-reference sum_u32 sum_u8 sum-IsWordwise buffer 6 buffer-AreBytes
