-- ===== src/Pool/Keeps.antt =====
-- What Pop and Push keep of the chunks.
use dubuframework.Base.{
  ℕ, ◌≡◌, inl, inr, refl, sym, ap, subst, Bool, true, false, ◌&&◌, none, some, List, [], ◌∷◌, arith,
  ◌==◌, if◌then◌else◌, Bool-cases, update, update_self, update_ne,
}
use mathlib.Core.Option.{some-injective}
use native.Mathlib.Decide.{ℕ_discrete}
use dubuframework.PacketManager.Count.{count}
use dubuframework.Pool.{
  ChunkList, Pool, new_block, take_chunk, push_chunk, refilled, pop_chunk, bit_ceil,
}
use dubuframework.Pool.Cut.{new_block-IsCut}
use dubuframework.Pool.Blocks.{cut_sizes_adds}
use dubuframework.Pool.Owned.{total, IsApart, moved-IsApart, IsFresh, joined-IsApart}

-- `used` with another value for the chunk of size `len` at `p`
abbrev pub mark : ℕ → ℕ → Bool → (ℕ → ℕ → Bool) → ℕ → ℕ → Bool
mark len p b used l q = if l == len && q == p then b else used l q

refilled-IsApart :
    (fresh : ℕ) (used : ℕ → ℕ → Bool) (p : Pool)
    → IsFresh fresh p.blocks
    → IsApart p.blocks (total used p.chunk_list)
    → let p' = refilled fresh [] p in IsApart p'.blocks (total used p'.chunk_list)
unfolding refilled new_block
refilled-IsApart fresh used p new v =
    let (cut, le, most) = new_block-IsCut fresh in
    moved-IsApart
      (λ l q. omega (
        arith,
        cut_sizes_adds 9 4 fresh p.chunk_list (λ len. []) l q (count q (p.chunk_list l))
            (omega arith),
      ))
      (joined-IsApart v cut le new)

-- A chunk that is handed out
moved_out :
    (used : ℕ → ℕ → Bool) (chunks : ChunkList) (len ptr : ℕ) (rest : List ℕ)
    → chunks len ≡ ptr ∷ rest
    → used len ptr ≡ false
    → (l q : ℕ)
    → total (mark len ptr true used) (update chunks len rest) l q ≡ total used chunks l q
moved_out used chunks len ptr rest e off l q = elim (ℕ_discrete len l) [
  | no ne ↦ rw (update_ne chunks len rest l ne) (ground (arith, ne))
  | yes s ↦
      subst
        (λ k. total (mark len ptr true used) (update chunks len rest) k q ≡ total used chunks k q) s
        (rw (update_self chunks len rest, e)
          (elim (ℕ_discrete ptr q) [
            | no ne ↦ ground (arith, ne)
            | yes s' ↦ rw (sym s') (rw off (ground arith))
          ]))
]

-- A chunk that is given back
moved_back :
    (used : ℕ → ℕ → Bool) (chunks : ChunkList) (len ptr l q : ℕ)
    → used len ptr ≡ true
    → total (mark len ptr false used) (update chunks len (ptr ∷ chunks len)) l q
      ≡ total used chunks l q
moved_back used chunks len ptr l q on = elim (ℕ_discrete len l) [
  | no ne ↦ rw (update_ne chunks len (ptr ∷ chunks len) l ne) (ground (arith, ne))
  | yes s ↦
      subst
        (λ k.
          total (mark len ptr false used) (update chunks len (ptr ∷ chunks len)) k q
          ≡ total used chunks k q)
        s
        (rw (update_self chunks len (ptr ∷ chunks len)) (elim (ℕ_discrete ptr q) [
          | no ne ↦ ground (arith, ne)
          | yes s' ↦ rw (sym s') (rw on (ground arith))
        ]))
]

-- A free chunk is not in use.
unused :
    {blocks : List ℕ} (used : ℕ → ℕ → Bool) (chunks : ChunkList) (len ptr : ℕ) (rest : List ℕ)
    → IsApart blocks (total used chunks)
    → chunks len ≡ ptr ∷ rest
    → used len ptr ≡ false
unused used chunks len ptr rest v e = elim (Bool-cases (used len ptr)) [
  | inr off ↦ off
  | inl on ↦ let once = v.once len ptr in absurd (ground (arith, on, rw e at once))
]

-- The rest of Pop hands out what stood first.
take_chunk-IsApart :
    (len ptr : ℕ) (rest : List ℕ) (used : ℕ → ℕ → Bool) (p : Pool)
    → p.chunk_list len ≡ ptr ∷ rest
    → IsApart p.blocks (total used p.chunk_list)
    → let p' = (take_chunk len (ptr ∷ rest) p).0 in
      IsApart p'.blocks (total (mark len ptr true used) p'.chunk_list) × (used len ptr ≡ false)
unfolding take_chunk
take_chunk-IsApart len ptr rest used p e v =
    let off = unused used p.chunk_list len ptr rest v e in
    (moved-IsApart (moved_out used p.chunk_list len ptr rest e off) v, off)

-- The pool `p'` in which the chunk at `ptr` has come into use
abbrev pub IsTaken : ℕ → ℕ → (ℕ → ℕ → Bool) → Pool → Type 0
IsTaken len ptr used p' =
    IsApart p'.blocks (total (mark len ptr true used) p'.chunk_list) × (used len ptr ≡ false)

take_chunk-IsTaken :
    (len ptr : ℕ) (chunks : List ℕ) (used : ℕ → ℕ → Bool) (p p' : Pool)
    → p.chunk_list len ≡ chunks
    → take_chunk len chunks p ≡ (p', some ptr)
    → IsApart p.blocks (total used p.chunk_list)
    → IsTaken len ptr used p'
unfolding take_chunk
take_chunk-IsTaken len ptr [] used p p' e run v =
    let absent : none ≡ some ptr = ap (λ r. r.1) run in cc absent
take_chunk-IsTaken len ptr (x ∷ rest) used p p' e run v =
    let got : some x ≡ some ptr = ap (λ r. r.1) run in
    subst (λ y. IsTaken len y used p') (some-injective x ptr got)
      (subst (IsTaken len x used) (ap (λ r. r.0) run) (take_chunk-IsApart len x rest used p e v))

refilled_any-IsApart :
    (fresh : ℕ) (chunks : List ℕ) (used : ℕ → ℕ → Bool) (p : Pool)
    → IsFresh fresh p.blocks
    → IsApart p.blocks (total used p.chunk_list)
    → let p' = refilled fresh chunks p in IsApart p'.blocks (total used p'.chunk_list)
unfolding refilled
refilled_any-IsApart fresh [] used p new v = refilled-IsApart fresh used p new v
refilled_any-IsApart fresh (x ∷ rest) used p new v = v

-- Initialize, Pop and Push, with the chunks in use. The memory of a new block belongs to no block,
-- and what is given back is in use, with the size with which it was taken.
pub data Step : Pool → (ℕ → ℕ → Bool) → Pool → (ℕ → ℕ → Bool) → Type 0 where
  initialized :
      {p : Pool} {used : ℕ → ℕ → Bool} (fresh : ℕ)
      → IsFresh fresh p.blocks
      → Step p used (refilled fresh [] p) used
  popped :
      {p : Pool} {used : ℕ → ℕ → Bool} {p' : Pool} (size fresh ptr : ℕ)
      → IsFresh fresh p.blocks
      → pop_chunk size fresh p ≡ (p', some ptr)
      → Step p used p' (mark (bit_ceil size) ptr true used)
  pushed :
      {p : Pool} {used : ℕ → ℕ → Bool} (size ptr : ℕ)
      → used (bit_ceil size) ptr ≡ true
      → Step p used (push_chunk size ptr p) (mark (bit_ceil size) ptr false used)

Step-IsApart :
    {p : Pool} {used : ℕ → ℕ → Bool} {p' : Pool} {used' : ℕ → ℕ → Bool}
    → Step p used p' used'
    → IsApart p.blocks (total used p.chunk_list)
    → IsApart p'.blocks (total used' p'.chunk_list)
unfolding pop_chunk push_chunk
Step-IsApart {p} {used} {p'} {used'} (Step.initialized fresh new) v =
    refilled-IsApart fresh used p new v
Step-IsApart {p} {used} {p'} {used'} (Step.popped size fresh ptr new run) v =
    let len = bit_ceil size in
    let full = refilled fresh (p.chunk_list len) p in
    (take_chunk-IsTaken len ptr (full.chunk_list len) used full p' refl run
      (refilled_any-IsApart fresh (p.chunk_list len) used p new v)).0
Step-IsApart {p} {used} {p'} {used'} (Step.pushed size ptr on) v =
    moved-IsApart (λ l c. moved_back used p.chunk_list (bit_ceil size) ptr l c on) v

-- The states that steps reach from a pool with no blocks
pub data Reach : Pool → (ℕ → ℕ → Bool) → Type 0 where
  start :
      (cnt : ℕ → ℕ)
      → Reach (record { blocks = []; use_cnt = cnt; chunk_list = λ len. [] }) (λ l q. false)
  step :
      {p : Pool} {used : ℕ → ℕ → Bool} {p' : Pool} {used' : ℕ → ℕ → Bool}
      → Reach p used
      → Step p used p' used'
      → Reach p' used'

start-IsApart : IsApart [] (total (λ l q. false) (λ len. []))
start-IsApart = record {
  within = λ len p h. absurd (omega (arith, h));
  sized = λ len p h. absurd (omega (arith, h));
  once = λ len p. omega arith;
  same = λ len len' p h h'. absurd (omega (arith, h));
  apart = λ len len' p p' h h' ne. absurd (omega (arith, h));
}

-- However Pop and Push are called, each chunk, in use or free, lies in one of the blocks, the one that
-- FindBlock finds for it; it is in use or free once, and no two chunks overlap. The memory of a new
-- block belongs to no block, and an object is given back with the size with which it was taken.
pub Reach-IsApart :
    {p : Pool} {used : ℕ → ℕ → Bool} → Reach p used → IsApart p.blocks (total used p.chunk_list)
Reach-IsApart {p} {used} (Reach.start cnt) = start-IsApart
Reach-IsApart {p} {used} (Reach.step r s) = Step-IsApart s (Reach-IsApart r)
