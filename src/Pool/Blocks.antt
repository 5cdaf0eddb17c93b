-- ===== src/Pool/Blocks.antt =====
-- FindBlock in a list that grows, and the cutting of a block when there are chunks already.
use dubuframework.Base.{
  ℕ, zero, suc, ◌+◌, ◌*◌, ◌≤◌, ◌<◌, ◌≡◌, ◌≢◌, inl, inr, refl, sym, subst, ◌∙◌, true, ◌&&◌, none,
  some, List, [], ◌∷◌, ◌++◌, arith, ltb, leb, Bool-cases, update, update_self, update_ne,
}
use mathlib.Core.Option.{some-injective}
use native.Mathlib.Decide.{ℕ_discrete}
use dubuframework.PacketManager.Count.{count}
use dubuframework.Pool.{ChunkList, block_size, chunk_count, cut_chunks, cut_sizes, find_block}

-- Where a block is found for an address, one is found for each address of the block.
pub find_covers :
    (blocks : List ℕ) (p q b : ℕ)
    → find_block p blocks ≡ some b
    → b ≤ q
    → q < b + block_size
    → find_block q blocks ≢ none
unfolding find_block
find_covers [] p q b there le lt gone = cc there
find_covers (x ∷ rest) p q b there le lt gone =
    elim (Bool-cases (leb x q && ltb q (x + block_size))) [
      | inl yes' ↦ cc (rw yes' at gone)
      | inr out ↦ elim (Bool-cases (leb x p && ltb p (x + block_size))) [
        | inl in' ↦
            let e : some x ≡ some b = rw in' at there in
            let same : x ≡ b = some-injective x b e in
            let t : (leb x q && ltb q (x + block_size)) ≡ true = rw same (ground (arith, le, lt)) in
            cc (sym t ∙ out)
        | inr not_in ↦ find_covers rest p q b (rw not_in at there) le lt (rw out at gone)
      ]
    ]

pub find_append :
    (blocks : List ℕ) (p b f : ℕ)
    → find_block p blocks ≡ some b
    → find_block p (blocks ++ f ∷ []) ≡ some b
unfolding find_block
find_append [] p b f there = cc there
find_append (x ∷ rest) p b f there = elim (Bool-cases (leb x p && ltb p (x + block_size))) [
  | inl in' ↦ rw in' (rw in' at there)
  | inr out ↦ rw out (find_append rest p b f (rw out at there))
]

pub find_new :
    (blocks : List ℕ) (p f : ℕ)
    → find_block p blocks ≡ none
    → f ≤ p
    → p < f + block_size
    → find_block p (blocks ++ f ∷ []) ≡ some f
unfolding find_block
find_new [] p f gone le lt =
    let e : (leb f p && ltb p (f + block_size)) ≡ true = ground arith in rw e refl
find_new (x ∷ rest) p f gone le lt = elim (Bool-cases (leb x p && ltb p (x + block_size))) [
  | inl in' ↦ cc (rw in' at gone)
  | inr out ↦ rw out (find_new rest p f (rw out at gone) le lt)
]

-- The chunks that a cut adds do not depend on those that are there.
pub cut_chunks_adds :
    (left len pos : ℕ) (chunks chunks' : ChunkList) (l p : ℕ) (n : ℕ)
    → count p (chunks l) ≡ n + count p (chunks' l)
    → count p ((cut_chunks left len pos chunks).0 l)
      ≡ n + count p ((cut_chunks left len pos chunks').0 l)
unfolding cut_chunks
cut_chunks_adds zero len pos chunks chunks' l p n e = e
cut_chunks_adds (suc left) len pos chunks chunks' l p n e =
    cut_chunks_adds left len (pos + len) _ _ l p n (elim (ℕ_discrete len l) [
      | no ne ↦
          rw
            (
              update_ne chunks len (pos ∷ chunks len) l ne,
              update_ne chunks' len (pos ∷ chunks' len) l ne,
            )
            e
      | yes q ↦
          subst
            (λ k.
              count p (update chunks len (pos ∷ chunks len) k)
              ≡ n + count p (update chunks' len (pos ∷ chunks' len) k))
            q
            (let e' : count p (chunks len) ≡ n + count p (chunks' len) =
                subst (λ k. count p (chunks k) ≡ n + count p (chunks' k)) (sym q) e in
              rw
                (
                  update_self chunks len (pos ∷ chunks len),
                  update_self chunks' len (pos ∷ chunks' len),
                )
                (omega (arith, e')))
    ])

cut_chunks_end :
    (left len pos : ℕ) (chunks chunks' : ChunkList)
    → (cut_chunks left len pos chunks).1 ≡ (cut_chunks left len pos chunks').1
unfolding cut_chunks
cut_chunks_end zero len pos chunks chunks' = refl
cut_chunks_end (suc left) len pos chunks chunks' = cut_chunks_end left len (pos + len) _ _

pub cut_sizes_adds :
    (left len pos : ℕ) (chunks chunks' : ChunkList) (l p n : ℕ)
    → count p (chunks l) ≡ n + count p (chunks' l)
    → count p ((cut_sizes left len pos chunks).0 l)
      ≡ n + count p ((cut_sizes left len pos chunks').0 l)
unfolding cut_sizes
cut_sizes_adds zero len pos chunks chunks' l p n e = e
cut_sizes_adds (suc left) len pos chunks chunks' l p n e =
    let (c, pos') = cut_chunks (chunk_count len) len pos chunks in
    let c' = (cut_chunks (chunk_count len) len pos chunks').0 in
    subst
      (λ end.
        count p ((cut_sizes left (len * 2) pos' c).0 l)
        ≡ n + count p ((cut_sizes left (len * 2) end c').0 l))
      (cut_chunks_end (chunk_count len) len pos chunks chunks')
      (cut_sizes_adds left (len * 2) pos' c c' l p n
        (cut_chunks_adds (chunk_count len) len pos chunks chunks' l p n e))
