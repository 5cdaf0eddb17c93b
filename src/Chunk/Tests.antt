-- ===== src/Chunk/Tests.antt =====
-- A message of three parts under the numbers 2 ^ 32 - 1, 0 and 1, and its sender.
use dubuframework.Base.{
  bit, digit, ◌==◌, ◌<◌, ℕ, ◌+◌, ◌-◌, ◌^◌, ◌≡◌, refl, false, arith, u32, none, List, [], ◌∷◌, ◌++◌,
  map,
}
use dubuframework.Packet.{Packet}
use dubuframework.Host.{Host}
use dubuframework.Chunk.{
  Chunks, recv_chunck_packet, has_room, set_buffer, is_pull, start_sequnce_num, update_chunk,
  remove_chunk, lowest_bit, join, copy_parts, push_all, sub_header_size, send_packet_chunk,
}
use dubuframework.Chunk.Flags.{part_flag, last_flag, owner}
use dubuframework.Chunk.Join.{tails, IsParts}
use dubuframework.Chunk.Rejoin.{Completes, Joined, recv_all, recv_all-whole}
use dubuframework.Chunk.Split.{pieces, bytes_of, parts_count, log_part, send_packet_chunk-pieces}

abbrev logging : Host (List Packet)
logging = record { packet_parse = λ p s. s ++ p ∷ []; clock = λ s. (0, s) }

abbrev part : ℕ → Packet
part i = record {
  header = record {
    total_size = 26;
    packet_code = 1;
    flags = 3;
    session_id = 7;
    sequence_no = u32 (2 ^ 32 - 1 + i);
    timestamp = 0;
    checksum = 0;
    chunk_info = record { size = 6; flag = part_flag 3 i };
  };
  body = i ∷ (i + 10) ∷ [];
  size = 26;
}

part-IsParts : IsParts 3 (2 ^ 32 - 1) 0 part
unfolding sub_header_size tails
part-IsParts = record {
  numbered = λ i lt. refl;
  placed = λ i lt. refl;
  marked = λ i lt. refl;
  sub_size = λ i lt. refl;
  whole_size = λ i lt. refl;
  small = λ i lt. omega arith;
  holds_sub = λ i lt. omega arith;
  total = λ i lt. refl;
  room = omega arith;
}

abbrev empty : Chunks (List Packet)
empty = record { inj = λ _. none; caches = record { list = 0; use_list = 4 }; host = [] }

abbrev order : List ℕ
order = 0 ∷ 1 ∷ []

order-Completes : Completes 3 (λ _. false) 2 order
order-Completes =
    (omega arith, refl, (omega arith, refl, (omega arith, refl, λ j lt. ground arith)))

recv_all_runs :
    map (λ p. p.body) (recv_all logging (map part (2 ∷ order)) empty).host
    ≡ (0 ∷ 10 ∷ 1 ∷ 11 ∷ 2 ∷ 12 ∷ []) ∷ []
unfolding recv_all recv_chunck_packet has_room set_buffer is_pull start_sequnce_num update_chunk
    remove_chunk lowest_bit join copy_parts push_all sub_header_size last_flag
recv_all_runs = refl

recv_all-whole_example :
    Joined 3
      (2 ^ 32 - 1)
      0
      (omega arith)
      (omega arith)
      part
      part-IsParts
      logging
      []
      4
      (recv_all logging (map part (2 ∷ order)) empty)
recv_all-whole_example =
    recv_all-whole 3 (2 ^ 32 - 1) 0 (omega arith) (omega arith) part part-IsParts logging empty refl
      2 order order-Completes

-- With a sub-header of 998 bytes, two bytes fit in a part.
send_packet_chunk-pieces_example :
    (send_packet_chunk log_part (1 ∷ 2 ∷ 3 ∷ []) 998 [] ≡ pieces 2 2 0 2 3 (1 ∷ 2 ∷ 3 ∷ []))
    × (bytes_of (pieces 2 2 0 2 3 (1 ∷ 2 ∷ 3 ∷ [])) ≡ 1 ∷ 2 ∷ 3 ∷ [])
    × ((i j : ℕ) → i < 2 → j < 16 → bit (part_flag 2 i) j ≡ digit (owner 2 j == i))
unfolding parts_count
send_packet_chunk-pieces_example =
    send_packet_chunk-pieces (1 ∷ 2 ∷ 3 ∷ []) 998 (omega arith) (omega arith) (omega arith)
