-- ===== src/Pool/Enough.antt =====
-- Pop has a chunk for every object of 3 to 1024 bytes.
use dubuframework.Base.{
  ℕ, zero, suc, ◌+◌, ◌*◌, ◌≤◌, ◌<◌, ◌≡◌, inl, inr, refl, sym, some, List, [], ◌∷◌, arith, leb,
  Bool-cases, update, update_self,
}
use dubuframework.PacketManager.Count.{count}
use dubuframework.Pool.{
  ChunkList, Pool, chunk_count, cut_chunks, cut_sizes, new_block, bit_ceil_from, bit_ceil,
  take_chunk, refilled, pop_chunk,
}
use dubuframework.Pool.Cut.{IsFree}
use dubuframework.Pool.Blocks.{cut_chunks_adds, cut_sizes_adds}

-- `len` doubled `i` times
abbrev doubled : ℕ → ℕ → ℕ
doubled zero len = len
doubled (suc i) len = doubled i (len * 2)

-- A size class: a double of `len` that holds `size`, at most `left` times doubled
abbrev IsClass : ℕ → ℕ → ℕ → ℕ → Type 0
IsClass left len size r = (size ≤ r) × ((i : ℕ) × (i ≤ left) × (r ≡ doubled i len))

bit_ceil_from-IsClass :
    (left len size : ℕ)
    → size ≤ doubled left len
    → IsClass left len size (bit_ceil_from left len size)
unfolding bit_ceil_from
bit_ceil_from-IsClass zero len size le = (le, (zero, omega arith, refl))
bit_ceil_from-IsClass (suc left) len size le = elim (Bool-cases (leb size len)) [
  | inl fits ↦ rw fits (ground (arith, fits), (zero, omega arith, refl))
  | inr large ↦
      let (holds, (i, most, is)) = bit_ceil_from-IsClass left (len * 2) size le in
      rw large (holds, (suc i, omega (arith, most), is))
]

large_class :
    (i size r : ℕ)
    → i ≤ 10
    → r ≡ doubled i 1
    → size ≤ r
    → 3 ≤ size
    → (j : ℕ) × (j ≤ 8) × (r ≡ doubled j 4)
large_class zero size r most is holds ge = absurd (omega (arith, is, holds, ge))
large_class (suc zero) size r most is holds ge = absurd (omega (arith, is, holds, ge))
large_class (suc (suc j)) size r most is holds ge = (j, omega (arith, most), is)

bit_ceil-IsClass : (size : ℕ) → 3 ≤ size → size ≤ 1024 → IsClass 8 4 size (bit_ceil size)
bit_ceil-IsClass size ge le =
    let (holds, (i, most, is)) = bit_ceil_from-IsClass 10 1 size le in
    (holds, large_class i size (bit_ceil size) most is holds ge)

chunk_count_some : (len : ℕ) → 0 < chunk_count len
unfolding chunk_count
chunk_count_some len = ground arith

cut_chunks_has :
    (left len pos : ℕ) (chunks : ChunkList)
    → 0 < left
    → 1 ≤ count pos ((cut_chunks left len pos chunks).0 len)
unfolding cut_chunks
cut_chunks_has zero len pos chunks lt = absurd (omega (arith, lt))
cut_chunks_has (suc left) len pos chunks lt =
    let with' = update chunks len (pos ∷ chunks len) in
    let there : 1 ≤ count pos (with' len) =
      rw (update_self chunks len (pos ∷ chunks len)) (ground arith) in
    omega (
      arith,
      there,
      cut_chunks_adds left len (pos + len) with' (λ l. []) len pos (count pos (with' len))
          (omega arith),
    )

cut_sizes_has :
    (left i len pos : ℕ) (chunks : ChunkList)
    → i < left
    → (p : ℕ) × (1 ≤ count p ((cut_sizes left len pos chunks).0 (doubled i len)))
unfolding cut_sizes
cut_sizes_has zero i len pos chunks lt = absurd (omega (arith, lt))
cut_sizes_has (suc left) (suc i) len pos chunks lt =
    let (chunks', pos') = cut_chunks (chunk_count len) len pos chunks in
    cut_sizes_has left i (len * 2) pos' chunks' (omega (arith, lt))
cut_sizes_has (suc left) zero len pos chunks lt =
    let (chunks', pos') = cut_chunks (chunk_count len) len pos chunks in
    (
      pos,
      omega (
        arith,
        cut_chunks_has (chunk_count len) len pos chunks (chunk_count_some len),
        cut_sizes_adds left (len * 2) pos' chunks' (λ l. []) len pos (count pos (chunks' len))
            (omega arith),
      ),
    )

-- A pool that has a chunk of the size hands out one of that size.
take_chunk_nonempty :
    (len c : ℕ) (chunks : List ℕ) (p : Pool)
    → 1 ≤ count c chunks
    → (ptr : ℕ) × ((take_chunk len chunks p).1 ≡ some ptr) × (1 ≤ count ptr chunks)
unfolding take_chunk
take_chunk_nonempty len c [] p h = absurd (omega (arith, h))
take_chunk_nonempty len c (x ∷ rest) p h = (x, refl, ground arith)

refilled_has :
    (fresh i : ℕ) (chunks : List ℕ) (p : Pool)
    → i ≤ 8
    → p.chunk_list (doubled i 4) ≡ chunks
    → (c : ℕ) × (1 ≤ count c ((refilled fresh chunks p).chunk_list (doubled i 4)))
unfolding refilled new_block
refilled_has fresh i [] p le e = cut_sizes_has 9 i 4 fresh p.chunk_list (omega (arith, le))
refilled_has fresh i (x ∷ rest) p le e = (x, rw e (ground arith))

-- Pop of an object of 3 to 1024 bytes hands out a chunk, whatever is free. It is a free one of the
-- object's size class, which holds the object, in the lists as they are when a new block has been made if there was none.
pub pop_chunk_enough :
    (size fresh : ℕ) (p : Pool)
    → 3 ≤ size
    → size ≤ 1024
    → let len = bit_ceil size in
      (size ≤ len)
      × ((ptr : ℕ) × ((pop_chunk size fresh p).1 ≡ some ptr)
          × IsFree (refilled fresh (p.chunk_list len) p).chunk_list len ptr)
unfolding pop_chunk
pop_chunk_enough size fresh p ge le =
    let (holds, (i, most, is)) = bit_ceil-IsClass size ge le in
    let len = bit_ceil size in
    let full = refilled fresh (p.chunk_list len) p in
    let (c, there) = refilled_has fresh i (p.chunk_list (doubled i 4)) p most refl in
    let (ptr, out, free) =
      take_chunk_nonempty len c (full.chunk_list len) full (rw (sym is) at there) in
    (holds, (ptr, out, free))
