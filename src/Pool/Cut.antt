-- ===== src/Pool/Cut.antt =====
-- The chunks of a new block lie in it and do not overlap.
use dubuframework.Base.{
  ℕ, zero, suc, ◌+◌, ◌*◌, ◌≤◌, ◌<◌, ◌≡◌, ◌≢◌, ◌⊎◌, inl, inr, refl, sym, subst, ◌∙◌, [], ◌∷◌, arith,
  update, update_self, update_ne,
}
use native.Mathlib.Decide.{dec_lt, ℕ_discrete}
use dubuframework.PacketManager.Count.{count}
use dubuframework.Pool.{ChunkList, block_size, chunk_count, cut_chunks, cut_sizes, new_block}

-- A free chunk of size `len` begins at `p`.
abbrev pub IsFree : ChunkList → ℕ → ℕ → Type 0
IsFree chunks len p = 1 ≤ count p (chunks len)

-- The free chunks lie between `lo` and `hi`, each stands once in the lists, and no two overlap.
pub record IsCut (lo hi : ℕ) (chunks : ChunkList) : Type 0 where
  pub within : (len p : ℕ) → IsFree chunks len p → (lo ≤ p) × (p + len ≤ hi)
  pub sized : (len p : ℕ) → IsFree chunks len p → 0 < len
  pub once : (len p : ℕ) → count p (chunks len) ≤ 1
  pub same : (len len' p : ℕ) → IsFree chunks len p → IsFree chunks len' p → len ≡ len'
  pub apart :
      (len len' p p' : ℕ)
      → IsFree chunks len p
      → IsFree chunks len' p'
      → p ≢ p'
      → (p + len ≤ p') ⊎ (p' + len' ≤ p)

none-IsCut : (lo : ℕ) → IsCut lo lo (λ len. [])
none-IsCut lo = record {
  within = λ len p h. absurd (omega (arith, h));
  sized = λ len p h. absurd (omega (arith, h));
  once = λ len p. omega arith;
  same = λ len len' p h h'. absurd (omega (arith, h));
  apart = λ len len' p p' h h' ne. absurd (omega (arith, h));
}

abbrev with_chunk : ℕ → ℕ → ChunkList → ChunkList
with_chunk len pos chunks = update chunks len (pos ∷ chunks len)

-- A free chunk is the new one or one from before.
new_or_old :
    (len pos l p : ℕ) (chunks : ChunkList)
    → IsFree (with_chunk len pos chunks) l p
    → ((l ≡ len) × (p ≡ pos)) ⊎ IsFree chunks l p
new_or_old len pos l p chunks h = elim (ℕ_discrete len l) [
  | no ne ↦ let e = update_ne chunks len (pos ∷ chunks len) l ne in inr (rw e at h)
  | yes e ↦ elim (ℕ_discrete pos p) [
    | yes q ↦ inl (sym e, sym q)
    | no ne ↦
        let s = update_self chunks len (pos ∷ chunks len) in
        let h' : IsFree (with_chunk len pos chunks) len p =
          subst (λ k. IsFree (with_chunk len pos chunks) k p) (sym e) h in
        let there : 1 ≤ count p (pos ∷ chunks len) = rw s at h' in
        let old : IsFree chunks len p = ground (arith, there, ne) in
        inr (subst (λ k. IsFree chunks k p) e old)
  ]
]

with_chunk-IsCut :
    (lo pos len : ℕ) (chunks : ChunkList)
    → 0 < len
    → lo ≤ pos
    → IsCut lo pos chunks
    → IsCut lo (pos + len) (with_chunk len pos chunks)
with_chunk-IsCut lo pos len chunks some' le v = record {
  within = λ l p h. elim (new_or_old len pos l p chunks h) [
    | inl (e, q) ↦ (omega (arith, q, le), omega (arith, e, q))
    | inr old ↦ let (a, b) = v.within l p old in (a, omega (arith, b))
  ];
  sized = λ l p h. elim (new_or_old len pos l p chunks h) [
    | inl (e, q) ↦ omega (arith, e, some')
    | inr old ↦ v.sized l p old
  ];
  once = λ l p. elim (ℕ_discrete len l) [
    | no ne ↦ rw (update_ne chunks len (pos ∷ chunks len) l ne) (v.once l p)
    | yes e ↦
        let s = update_self chunks len (pos ∷ chunks len) in
        rw (sym e, s)
          (elim (ℕ_discrete pos p) [
            | no ne ↦ ground (arith, v.once len p, ne)
            | yes q ↦ elim (dec_lt 0 (count p (chunks len))) [
              | yes there ↦
                  absurd (omega (arith, (v.within len p (omega (arith, there))).1, q, some'))
              | no gone ↦ ground (arith, gone)
            ]
          ])
  ];
  same = λ l l' p h h'. elim (new_or_old len pos l p chunks h) [
    | inl (e, q) ↦ elim (new_or_old len pos l' p chunks h') [
      | inl (e', q') ↦ e ∙ sym e'
      | inr old ↦ omega (arith, q, (v.within l' p old).1, v.sized l' p old)
    ]
    | inr old ↦ elim (new_or_old len pos l' p chunks h') [
      | inl (e', q') ↦ omega (arith, q', (v.within l p old).1, v.sized l p old)
      | inr old' ↦ v.same l l' p old old'
    ]
  ];
  apart = λ l l' p p' h h' ne. elim (new_or_old len pos l p chunks h) [
    | inl (e, q) ↦ elim (new_or_old len pos l' p' chunks h') [
      | inl (e', q') ↦ absurd (ne (q ∙ sym q'))
      | inr old ↦ inr (omega (arith, q, (v.within l' p' old).1))
    ]
    | inr old ↦ elim (new_or_old len pos l' p' chunks h') [
      | inl (e', q') ↦ inl (omega (arith, q', (v.within l p old).1))
      | inr old' ↦ v.apart l l' p p' old old' ne
    ]
  ];
}

cut_chunks_end :
    (left len pos : ℕ) (chunks : ChunkList) → (cut_chunks left len pos chunks).1 ≡ pos + left * len
unfolding cut_chunks
cut_chunks_end zero len pos chunks = omega arith
cut_chunks_end (suc left) len pos chunks =
    omega (arith, cut_chunks_end left len (pos + len) (with_chunk len pos chunks))

cut_chunks-IsCut :
    (lo left len pos : ℕ) (chunks : ChunkList)
    → 0 < len
    → lo ≤ pos
    → IsCut lo pos chunks
    → let (chunks', pos') = cut_chunks left len pos chunks in IsCut lo pos' chunks'
unfolding cut_chunks
cut_chunks-IsCut lo zero len pos chunks some' le v = v
cut_chunks-IsCut lo (suc left) len pos chunks some' le v =
    cut_chunks-IsCut lo left len (pos + len) (with_chunk len pos chunks) some' (omega (arith, le))
      (with_chunk-IsCut lo pos len chunks some' le v)

-- The bytes of `left` sizes from `len` on
abbrev bytes : ℕ → ℕ → ℕ
bytes zero len = 0
bytes (suc left) len = chunk_count len * len + bytes left (len * 2)

cut_sizes_end :
    (left len pos : ℕ) (chunks : ChunkList)
    → (cut_sizes left len pos chunks).1 ≡ pos + bytes left len
unfolding cut_sizes
cut_sizes_end zero len pos chunks = omega arith
cut_sizes_end (suc left) len pos chunks =
    let (chunks', pos') = cut_chunks (chunk_count len) len pos chunks in
    omega (
      arith,
      cut_sizes_end left (len * 2) pos' chunks',
      cut_chunks_end (chunk_count len) len pos chunks,
    )

cut_sizes-IsCut :
    (lo left len pos : ℕ) (chunks : ChunkList)
    → 0 < len
    → lo ≤ pos
    → IsCut lo pos chunks
    → let (chunks', pos') = cut_sizes left len pos chunks in IsCut lo pos' chunks'
unfolding cut_sizes
cut_sizes-IsCut lo zero len pos chunks some' le v = v
cut_sizes-IsCut lo (suc left) len pos chunks some' le v =
    let (chunks', pos') = cut_chunks (chunk_count len) len pos chunks in
    cut_sizes-IsCut lo left (len * 2) pos' chunks' (omega (arith, some'))
      (omega (arith, le, cut_chunks_end (chunk_count len) len pos chunks))
      (cut_chunks-IsCut lo (chunk_count len) len pos chunks some' le v)

all_bytes : bytes 9 4 ≡ 3582400
unfolding chunk_count
all_bytes = refl

-- A new block that begins at `ptr` is cut into chunks that lie in its memory, of which at most 10
-- bytes are left over; each stands once in the lists of free chunks, and no two overlap.
pub new_block-IsCut :
    (ptr : ℕ)
    → let (chunks, end) = new_block ptr (λ len. []) in
      IsCut ptr end chunks × (end ≤ ptr + block_size) × (ptr + block_size ≤ end + 10)
unfolding new_block
new_block-IsCut ptr =
    let e = cut_sizes_end 9 4 ptr (λ len. []) in
    let cut =
      cut_sizes-IsCut ptr 9 4 ptr (λ len. []) (omega arith) (omega arith) (none-IsCut ptr) in
    (cut, omega (arith, e, all_bytes), omega (arith, e, all_bytes))
