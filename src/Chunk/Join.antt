-- ===== src/Chunk/Join.antt =====
-- RecvChunckPacket on the parts of one message: once the last one is there, they are joined.
use dubuframework.Base.{
  ℕ, zero, suc, ◌+◌, ◌-◌, ◌≤◌, ◌<◌, ◌≡◌, refl, ap, ap₂, ◌∙◌, Bool, true, false, arith, ◌==◌,
  bit_and, u16, u32, update, Option, none, some, List, [], ◌∷◌, ◌++◌, length, drop, length-append,
  append_assoc, append-nil,
}
use dubuframework.Packet.{Packet, header_size, packet_max_size}
use dubuframework.Packet.Flag
use dubuframework.Host.{Host}
use dubuframework.CachePool.{pop_packet_buffer}
use dubuframework.Chunk.{
  ChunkPacket, Chunks, or_new, set_buffer, start_sequnce_num, update_chunk, remove_chunk,
  sub_header_size, has_room, copy_parts, push_all, join, recv_chunck_packet,
}
use dubuframework.Chunk.Flags.{part_flag, part_flag-place}
use dubuframework.Chunk.Collect.{
  IsCollected, count_got, count_got-all, added, set_buffer-added, added-IsCollected, is_pull-all,
  is_pull-missing,
}

module _ (sub : ℕ) (part : ℕ → Packet) where
  -- What follows the headers, of `m` parts from `i` on.
  unfoldable pub tails : ℕ → ℕ → List ℕ
  tails zero i = []
  tails (suc m) i = drop sub (part i).body ++ tails m (i + 1)

-- The parts of a message, `n` of them, under consecutive numbers from `first` on. `sub` is the size
-- of the sub-header that each carries; each says how large the message is, which has at most 8192
-- bytes with its headers.
pub record IsParts (n first sub : ℕ) (part : ℕ → Packet) : Type 0 where
  pub numbered : (i : ℕ) → i < n → (part i).header.sequence_no ≡ u32 (first + i)
  pub placed : (i : ℕ) → i < n → (part i).header.chunk_info.flag ≡ part_flag n i
  pub marked : (i : ℕ) → i < n → (bit_and (part i).header.flags Flag.chunk == Flag.chunk) ≡ true
  pub sub_size : (i : ℕ) → i < n → sub_header_size (part i) ≡ sub
  pub whole_size : (i : ℕ) → i < n → (part i).size ≡ header_size + length (part i).body
  pub small : (i : ℕ) → i < n → (part i).size ≤ packet_max_size
  pub holds_sub : (i : ℕ) → i < n → sub ≤ length (part i).body
  pub total :
      (i : ℕ)
      → i < n
      → length ((part 0).body ++ tails sub part (n - 1) 1) ≡ (part i).header.chunk_info.size + sub
  pub room : header_size + length ((part 0).body ++ tails sub part (n - 1) 1) ≤ 8192

pub length-drop : (k : ℕ) (l : List ℕ) → length (drop k l) ≡ length l - k
length-drop zero l = omega arith
length-drop (suc k) [] = omega arith
length-drop (suc k) (x ∷ l) = omega (arith, length-drop k l)

module _ (sub : ℕ) (part : ℕ → Packet) where
  -- The message: the first part, and of the others what follows the headers.
  abbrev pub whole : ℕ → Packet
  whole n =
      let body = (part 0).body ++ tails sub part (n - 1) 1 in
      record { header = (part 0).header; body = body; size = u16 (header_size + length body) }

  copy_parts_lem :
      (m i : ℕ) (buffers : ℕ → Option Packet) (bytes : List ℕ) (offset : ℕ)
      → ((j : ℕ) → i ≤ j → j < i + m → buffers j ≡ some (part j))
      → ((j : ℕ) → i ≤ j → j < i + m → (part j).size ≡ header_size + length (part j).body)
      → ((j : ℕ) → i ≤ j → j < i + m → sub ≤ length (part j).body)
      → offset ≡ u16 (header_size + length bytes)
      → copy_parts m i sub buffers (bytes, offset)
        ≡ (bytes ++ tails sub part m i, u16 (header_size + length (bytes ++ tails sub part m i)))
  unfolding copy_parts tails
  copy_parts_lem zero i buffers bytes offset at sizes subs e = rw (append-nil bytes, e) refl
  copy_parts_lem (suc m) i buffers bytes offset at sizes subs e =
      let next =
        copy_parts_lem m (i + 1) buffers (bytes ++ drop sub (part i).body)
          (u16 (offset + ((part i).size - (header_size + sub))))
          (λ j low high. at j (omega arith) (omega arith))
          (λ j low high. sizes j (omega arith) (omega arith))
          (λ j low high. subs j (omega arith) (omega arith))
          (omega (
            arith,
            e,
            sizes i (omega arith) (omega arith),
            subs i (omega arith) (omega arith),
            length-append bytes (drop sub (part i).body),
            length-drop sub (part i).body,
          )) in
      rw (at i (omega arith) (omega arith))
        (next ∙ rw (append_assoc bytes (drop sub (part i).body) (tails sub part m (i + 1))) refl)

module _ (n first sub : ℕ) (few : n ≤ 16) (parts : 1 ≤ n) (part : ℕ → Packet)
    (ps : IsParts n first sub part) where
  start_key : (i : ℕ) → i < n → start_sequnce_num (u32 (first + i)) (part_flag n i) ≡ u32 first
  unfolding start_sequnce_num
  start_key i lt = rw (part_flag-place n i few lt) (omega arith)

  join_all :
      (got : ℕ → Bool) (c : ChunkPacket) (i : ℕ)
      → IsCollected n part got c
      → ((j : ℕ) → j < n → got j ≡ true)
      → i < n
      → join c (part i) ≡ whole sub part n
  unfolding join
  join_all got c i v all lt =
      let z : c.count ≡ n = v.count ∙ count_got-all n got all in
      rw (v.buffers 0 (omega arith) (all 0 (omega arith)), ps.sub_size i lt, z)
        (let copied =
            copy_parts_lem sub part (n - 1) 1 c.buffers (part 0).body (part 0).size
              (λ j low high. v.buffers j (omega arith) (all j (omega arith)))
              (λ j low high. ps.whole_size j (omega arith))
              (λ j low high. ps.holds_sub j (omega arith))
              (omega (arith, ps.whole_size 0 (omega arith), ps.small 0 (omega arith))) in
          rw copied refl)

  module _ {S : Type 0} (h : Host S) where
    -- What the receiver has of the message; `used` cache buffers are in use for others.
    pub record Holding (got : ℕ → Bool) (used : ℕ) (host : S) (u : Chunks S) : Type 0 where
      pub collected : IsCollected n part got (or_new (u.inj (u32 first)))
      pub in_use : u.caches.use_list ≡ used + count_got n got
      pub same_host : u.host ≡ host

    module _ (got : ℕ → Bool) (used : ℕ) (host : S) (u : Chunks S) (v : Holding got used host u)
        (i : ℕ) (lt : i < n) (new : got i ≡ false) where
      abbrev pub filled : ChunkPacket
      filled = record (added n few part got (or_new (u.inj (u32 first))) v.collected i lt new) {
        size = (part i).header.chunk_info.size;
      }

      pub filled-IsCollected : IsCollected n part (update got i true) filled
      filled-IsCollected =
          let w =
            added-IsCollected n few part got (or_new (u.inj (u32 first))) v.collected i lt new in
          record {
            flag_fits = w.flag_fits;
            digits = w.digits;
            buffers = w.buffers;
            count = w.count;
            is_end = w.is_end;
          }

      abbrev info_flag : ℕ
      info_flag = (part i).header.chunk_info.flag

      key : start_sequnce_num (part i).header.sequence_no info_flag ≡ u32 first
      key = ap₂ start_sequnce_num (ps.numbered i lt) (ps.placed i lt) ∙ start_key i lt

      filling :
          set_buffer info_flag (part i) (or_new (u.inj (u32 first)))
          ≡ (added n few part got (or_new (u.inj (u32 first))) v.collected i lt new, true)
      filling =
          ap (λ f. set_buffer f (part i) (or_new (u.inj (u32 first)))) (ps.placed i lt)
          ∙ set_buffer-added n few part got (or_new (u.inj (u32 first))) v.collected i lt new

      room_there : ((j : ℕ) → j < n → update got i true j ≡ true) → has_room filled (part i) ≡ true
      unfolding has_room
      room_there all =
          rw (join_all (update got i true) filled i filled-IsCollected all lt, ps.sub_size i lt)
            (ground (arith, ps.total i lt, ps.room))

      pub recv_last :
          ((j : ℕ) → j < n → update got i true j ≡ true)
          → recv_chunck_packet h (part i) u ≡ record {
            inj = update u.inj (u32 first) none;
            caches = push_all filled.count (pop_packet_buffer u.caches);
            host = h.packet_parse (whole sub part n) u.host;
          }
      unfolding recv_chunck_packet update_chunk remove_chunk
      recv_last all =
          rw
            (
              ps.marked i lt,
              key,
              filling,
              is_pull-all n part (update got i true) filled parts few filled-IsCollected all,
              room_there all,
              join_all (update got i true) filled i filled-IsCollected all lt,
            )
            refl

      pub recv_other :
          (j : ℕ)
          → j < n
          → update got i true j ≡ false
          → recv_chunck_packet h (part i) u ≡ record {
            inj = update u.inj (u32 first) (some filled);
            caches = pop_packet_buffer u.caches;
            host = u.host;
          }
      unfolding recv_chunck_packet update_chunk
      recv_other j lt' missing =
          rw
            (
              ps.marked i lt,
              key,
              filling,
              is_pull-missing n part (update got i true) filled j few filled-IsCollected lt'
                  missing,
            )
            refl
