-- ===== src/Chunk/Split.antt =====
-- SendPacketChunk: the parts that it sends.
use dubuframework.Base.{
  ℕ, zero, suc, ◌+◌, ◌-◌, ◌*◌, ◌/◌, ◌%◌, ◌^◌, ◌≤◌, ◌<◌, ◌≡◌, refl, sym, ap, ◌∙◌, inl, inr,
  Bool-cases, ne→==, true, false, arith, ltb, bit, digit, ◌==◌, lt→ltb, if◌then◌else◌, u16, List,
  [], ◌∷◌, ◌++◌, take, drop, length, append-nil, append_assoc,
}
use native.Mathlib.Decide.{dec_lt, ℕ_discrete}
use native.Mathlib.Nat.{div-eq-sub-div, mod-eq-sub-mod, div-eq_of_lt, mod-eq_of_lt}
use dubuframework.Packet.{PacketOpctions, header_size, packet_max_size}
use dubuframework.Chunk.{chunk_options, send_parts, send_packet_chunk}
use dubuframework.Chunk.Join.{length-drop}
use dubuframework.Chunk.Flags.{part_flag, last_flag, owner, part_flag-bit}

-- The parts `i`, …, `n - 1` of a message of `total` bytes, in slices of `size` of what is left.
unfoldable pub pieces : ℕ → ℕ → ℕ → ℕ → ℕ → List ℕ → List (List ℕ × PacketOpctions)
pieces zero n i size total rest = []
pieces (suc left) n i size total rest =
    (take size rest, chunk_options (part_flag n i) total)
    ∷ pieces left n (i + 1) size total (drop size rest)

-- The bytes of the parts, one after another.
pub bytes_of : List (List ℕ × PacketOpctions) → List ℕ
bytes_of [] = []
bytes_of ((bytes, opt) ∷ ps) = bytes ++ bytes_of ps

-- `len` bytes fill `left` parts, of which the last one may be shorter but not empty.
abbrev pub Fills : ℕ → ℕ → ℕ → Type 0
Fills zero size len = len ≡ 0
Fills (suc zero) size len = (0 < len) × (len ≤ size)
Fills (suc (suc left)) size len = (size < len) × Fills (suc left) size (len - size)

take_all : (k : ℕ) (l : List ℕ) → length l ≤ k → take k l ≡ l
take_all zero [] le = refl
take_all zero (x ∷ l) le = absurd (omega arith)
take_all (suc k) [] le = refl
take_all (suc k) (x ∷ l) le = ap (λ t. x ∷ t) (take_all k l (omega arith))

take-drop : (k : ℕ) (l : List ℕ) → take k l ++ drop k l ≡ l
take-drop zero l = refl
take-drop (suc k) [] = refl
take-drop (suc k) (x ∷ l) = ap (λ t. x ∷ t) (take-drop k l)

pub bytes_of-pieces :
    (left n i size total : ℕ) (rest : List ℕ)
    → Fills left size (length rest)
    → bytes_of (pieces left n i size total rest) ≡ rest
unfolding pieces bytes_of
bytes_of-pieces zero n i size total [] f = refl
bytes_of-pieces zero n i size total (x ∷ rest) f = absurd (omega (arith, f))
bytes_of-pieces (suc zero) n i size total rest f =
    append-nil (take size rest) ∙ take_all size rest f.1
bytes_of-pieces (suc (suc left)) n i size total rest f =
    rw
      (bytes_of-pieces (suc left) n (i + 1) size total (drop size rest)
        (rw (length-drop size rest) f.1))
      (take-drop size rest)

-- The count of parts fills them.
unfoldable pub parts_count : ℕ → ℕ → ℕ
parts_count size len = if ltb 0 (len % size) then len / size + 1 else len / size

Fills-more : (c size len : ℕ) → size < len → Fills c size (len - size) → Fills (suc c) size len
Fills-more zero size len lt f = absurd (omega (arith, f))
Fills-more (suc c) size len lt f = (lt, f)

pub parts_count-Fills :
    (fuel size len : ℕ) → len ≤ fuel → 0 < size → 0 < len → Fills (parts_count size len) size len
unfolding parts_count
parts_count-Fills zero size len le pos full = absurd (omega arith)
parts_count-Fills (suc fuel) size len le pos full = elim (dec_lt len size) [
  | yes lt ↦
      let d : len / size ≡ 0 = div-eq_of_lt lt in
      let r : len % size ≡ len = mod-eq_of_lt lt in rw (d, r, lt→ltb 0 len full) (full, omega arith)
  | no ge ↦
      let d : len / size ≡ (len - size) / size + 1 = div-eq-sub-div pos (omega arith) in
      let r : len % size ≡ (len - size) % size = mod-eq-sub-mod (omega arith) in
      elim (ℕ_discrete len size) [
        | yes e ↦
            let z : len - size ≡ 0 = omega arith in
            let dz : 0 / size ≡ 0 = div-eq_of_lt pos in
            let rz : 0 % size ≡ 0 = mod-eq_of_lt pos in rw (d, r, z, dz, rz) (full, omega arith)
        | no ne ↦
            let more =
              Fills-more (parts_count size (len - size)) size len (omega arith)
                (parts_count-Fills fuel size (len - size) (omega arith) pos (omega arith)) in
            let c : parts_count size len ≡ suc (parts_count size (len - size)) =
              rw (d, r)
                (elim (Bool-cases (ltb 0 ((len - size) % size))) [
                  | inl on ↦ rw on (omega arith)
                  | inr off ↦ rw off (omega arith)
                ]) in
            rw c more
      ]
]

-- SendPacketChunk against these parts, with a sender that logs.
abbrev pub log_part :
    List ℕ → PacketOpctions → List (List ℕ × PacketOpctions) → List (List ℕ × PacketOpctions)
log_part bytes opt sent = sent ++ (bytes, opt) ∷ []

last_flag-more : (i : ℕ) → last_flag (i + 1) ≡ u16 (last_flag i * 2)
unfolding last_flag
last_flag-more i = let e : i + 1 ≡ suc i = omega arith in rw e refl

send_parts-pieces :
    (left n i size total : ℕ) (rest : List ℕ) (sent : List (List ℕ × PacketOpctions))
    → i + left ≡ n
    → 0 < size
    → Fills left size (length rest)
    → total % size ≡ length rest % size
    → send_parts log_part left i (last_flag i) size total rest sent
      ≡ sent ++ pieces left n i size total rest
unfolding send_parts pieces
send_parts-pieces zero n i size total rest sent at pos f same = sym (append-nil sent)
send_parts-pieces (suc zero) n i size total rest sent at pos f same =
    let t : (i + 1 == n) ≡ true = ground arith in
    let whole : take (if ltb 0 (total % size) then total % size else size) rest ≡ take size rest =
      rw same (elim (dec_lt (length rest) size) [
        | yes lt ↦
            let r : length rest % size ≡ length rest = mod-eq_of_lt lt in
            rw (r, lt→ltb 0 (length rest) f.0)
              (take_all (length rest) rest (omega arith) ∙ sym (take_all size rest f.1))
        | no ge ↦
            let e : length rest ≡ size = omega (arith, f.1) in
            let r : length rest % size ≡ 0 =
              mod-eq-sub-mod (omega arith)
              ∙ (let z : length rest - size ≡ 0 = omega arith in rw z (mod-eq_of_lt pos)) in
            rw r refl
      ]) in
    rw (t, whole) refl
send_parts-pieces (suc (suc left)) n i size total rest sent at pos f same =
    let t : (i + 1 == n) ≡ false = ne→== _ _ (omega arith) in
    let next =
      send_parts-pieces (suc left) n (i + 1) size total (drop size rest)
        (sent ++ (take size rest, chunk_options (u16 (2 ^ i)) total) ∷ []) (omega arith) pos
        (rw (length-drop size rest) f.1)
        (same ∙ (mod-eq-sub-mod (omega (arith, f.0)) ∙ rw (length-drop size rest) refl)) in
    rw (t, ← last_flag-more i)
      (next
        ∙ append_assoc sent ((take size rest, chunk_options (u16 (2 ^ i)) total) ∷ [])
            (pieces (suc left) n (i + 1) size total (drop size rest)))

-- SendPacketChunk sends consecutive slices of a message that is not empty, of as many bytes as fit
-- in a packet beside the headers, each with the flag of its place and the total size; and the
-- slices, one after another, are the message. Each of the 16 bits is in the flag of one part: bit `j` in
-- that of part `j`, or of the last part if there are fewer. The message needs at most 16 parts.
pub send_packet_chunk-pieces :
    (buffer : List ℕ) (sub : ℕ)
    → sub < packet_max_size - header_size
    → 0 < length buffer
    → parts_count (packet_max_size - header_size - sub) (length buffer) ≤ 16
    → let size = packet_max_size - header_size - sub in
      let n = parts_count size (length buffer) in
      (send_packet_chunk log_part buffer sub [] ≡ pieces n n 0 size (length buffer) buffer)
      × (bytes_of (pieces n n 0 size (length buffer) buffer) ≡ buffer)
      × ((i j : ℕ) → i < n → j < 16 → bit (part_flag n i) j ≡ digit (owner n j == i))
unfolding send_packet_chunk parts_count last_flag
send_packet_chunk-pieces buffer sub room full few =
    let size = packet_max_size - header_size - sub in
    let n = parts_count size (length buffer) in
    let fills =
      parts_count-Fills (length buffer) size (length buffer) (omega arith) (omega arith) full in
    (
      send_parts-pieces n n 0 size (length buffer) buffer [] (omega arith) (omega arith) fills refl,
      bytes_of-pieces n n 0 size (length buffer) buffer fills,
      λ i j lt small. part_flag-bit n i j few lt small,
    )
