-- ===== src/Pool/Owned.antt =====
-- When chunks do not overlap: blocks with a new one, and chunks that change hands.
use dubuframework.Base.{
  ℕ, ◌+◌, ◌≤◌, ◌<◌, ◌≡◌, ◌≢◌, ◌⊎◌, inl, inr, sym, ◌∙◌, Bool, none, some, List, [], ◌∷◌, ◌++◌, arith,
  digit,
}
use native.Mathlib.Decide.{dec_lt}
use dubuframework.PacketManager.Count.{count}
use dubuframework.Pool.{ChunkList, block_size, find_block}
use dubuframework.Pool.Cut.{IsFree, IsCut}
use dubuframework.Pool.Blocks.{find_covers, find_append, find_new}

-- The chunks in use, `used len p` for one of size `len` at `p`, and the free ones, together
abbrev pub total : (ℕ → ℕ → Bool) → ChunkList → ℕ → ℕ → ℕ
total used chunks len p = digit (used len p) + count p (chunks len)

-- Each chunk, in use or free, lies in a block that is found for it; it is there once, and no two overlap.
pub record IsApart (blocks : List ℕ) (total : ℕ → ℕ → ℕ) : Type 0 where
  pub within :
      (len p : ℕ)
      → 1 ≤ total len p
      → (b : ℕ) × (find_block p blocks ≡ some b) × (b ≤ p) × (p + len ≤ b + block_size)
  pub sized : (len p : ℕ) → 1 ≤ total len p → 0 < len
  pub once : (len p : ℕ) → total len p ≤ 1
  pub same : (len len' p : ℕ) → 1 ≤ total len p → 1 ≤ total len' p → len ≡ len'
  pub apart :
      (len len' p p' : ℕ)
      → 1 ≤ total len p
      → 1 ≤ total len' p'
      → p ≢ p'
      → (p + len ≤ p') ⊎ (p' + len' ≤ p)

-- It is a matter of how often each chunk is there.
pub moved-IsApart :
    {blocks : List ℕ} {t t' : ℕ → ℕ → ℕ}
    → ((len p : ℕ) → t' len p ≡ t len p)
    → IsApart blocks t
    → IsApart blocks t'
moved-IsApart {blocks} {t} {t'} e v = record {
  within = λ len p h. v.within len p (omega (arith, h, e len p));
  sized = λ len p h. v.sized len p (omega (arith, h, e len p));
  once = λ len p. omega (arith, v.once len p, e len p);
  same = λ len len' p h h'.
      v.same len len' p (omega (arith, h, e len p)) (omega (arith, h', e len' p));
  apart = λ len len' p p' h h' ne.
      v.apart len len' p p' (omega (arith, h, e len p)) (omega (arith, h', e len' p')) ne;
}

-- The memory of a new block belongs to no block.
abbrev pub IsFresh : ℕ → List ℕ → Type 0
IsFresh fresh blocks = (p : ℕ) → fresh ≤ p → p < fresh + block_size → find_block p blocks ≡ none

-- A chunk of the new block and one of another
module _ {blocks : List ℕ} {t : ℕ → ℕ → ℕ} {fresh end : ℕ} {chunks : ChunkList}
    (v : IsApart blocks t) (cut : IsCut fresh end chunks) (le : end ≤ fresh + block_size)
    (new : IsFresh fresh blocks) where
  old_new : (len len' p q : ℕ) → 1 ≤ t len p → IsFree chunks len' q → (p + len ≤ q) ⊎ (q + len' ≤ p)
  old_new len len' p q h h' =
      let (b, found, low, high) = v.within len p h in
      let (low', high') = cut.within len' q h' in
      elim (dec_lt q (p + len)) [
        | no far ↦ inl (omega (arith, far))
        | yes lt ↦ elim (dec_lt p (q + len')) [
          | no far ↦ inr (omega (arith, far))
          | yes lt' ↦ elim (dec_lt q p) [
            | yes before ↦
                let gone = new p (omega (arith, before, low')) (omega (arith, lt', high', le)) in
                cc (sym gone ∙ found)
            | no after ↦ absurd (
                find_covers blocks p q b found (omega (arith, low, after)) (omega (arith, lt, high))
                  (new q low' (omega (arith, high', le, cut.sized len' q h'))))
          ]
        ]
      ]

  not_both : (len len' p : ℕ) → 1 ≤ t len p → IsFree chunks len' p → ⊥
  not_both len len' p h h' = elim (old_new len len' p p h h') [
    | inl x ↦ omega (arith, x, v.sized len p h)
    | inr x ↦ omega (arith, x, cut.sized len' p h')
  ]

  which : (len p : ℕ) → 1 ≤ t len p + count p (chunks len) → (1 ≤ t len p) ⊎ IsFree chunks len p
  which len p h = elim (dec_lt 0 (t len p)) [
    | yes old ↦ inl (omega (arith, old))
    | no gone ↦ inr (omega (arith, gone, h))
  ]

  pub joined-IsApart : IsApart (blocks ++ fresh ∷ []) (λ len p. t len p + count p (chunks len))
  joined-IsApart = record {
    within = λ len p h. elim (which len p h) [
      | inl old ↦
          let (b, found, low, high) = v.within len p old in
          (b, find_append blocks p b fresh found, low, high)
      | inr new' ↦
          let (low, high) = cut.within len p new' in
          (
            fresh,
            find_new blocks p fresh (new p low (omega (arith, high, le, cut.sized len p new'))) low
                (omega (arith, high, le, cut.sized len p new')),
            low,
            omega (arith, high, le),
          )
    ];
    sized = λ len p h. elim (which len p h) [
      | inl old ↦ v.sized len p old
      | inr new' ↦ cut.sized len p new'
    ];
    once = λ len p. elim (dec_lt 0 (t len p)) [
      | no gone ↦ omega (arith, gone, cut.once len p)
      | yes old ↦ elim (dec_lt 0 (count p (chunks len))) [
        | no gone ↦ omega (arith, gone, v.once len p)
        | yes there ↦ absurd (not_both len len p (omega (arith, old)) (omega (arith, there)))
      ]
    ];
    same = λ len len' p h h'. elim (which len p h) [
      | inl old ↦ elim (which len' p h') [
        | inl old' ↦ v.same len len' p old old'
        | inr new' ↦ absurd (not_both len len' p old new')
      ]
      | inr new' ↦ elim (which len' p h') [
        | inl old ↦ absurd (not_both len' len p old new')
        | inr new'' ↦ cut.same len len' p new' new''
      ]
    ];
    apart = λ len len' p p' h h' ne. elim (which len p h) [
      | inl old ↦ elim (which len' p' h') [
        | inl old' ↦ v.apart len len' p p' old old' ne
        | inr new' ↦ old_new len len' p p' old new'
      ]
      | inr new' ↦ elim (which len' p' h') [
        | inl old ↦ elim (old_new len' len p' p old new') [ inl x ↦ inr x | inr x ↦ inl x ]
        | inr new'' ↦ cut.apart len len' p p' new' new'' ne
      ]
    ];
  }
