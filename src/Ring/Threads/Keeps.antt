-- ===== src/Ring/Threads/Keeps.antt =====
-- Every step of a thread keeps the places in their phases.
use dubuframework.Base.{
  ℕ, ◌+◌, ◌%◌, ◌≤◌, ◌<◌, ◌≡◌, ◌≢◌, refl, sym, subst, Option, none, some, arith, update, update_self,
  update_ne,
}
use native.Mathlib.Decide.{ℕ_discrete}
use dubuframework.Ring.{Node}
use dubuframework.Ring.Threads.{Pc, Shared}
use dubuframework.Ring.Threads.Slots.{Phase, owner, SlotAt, Knows, Knows-other}

-- The places, and what every thread knows of them.
pub record IsShared {A : Type 0} (pcs : ℕ → Pc A) (m : Shared A) : Type 0 where
  pub phase : ℕ → Phase
  pub turn : ℕ → ℕ
  pub counted : m.ring.tail ≡ m.pushes
  pub le : m.ring.head ≤ m.ring.tail
  pub fits : m.ring.tail ≤ m.ring.head + 64
  pub slots :
      (i : ℕ)
      → i < 64
      → SlotAt m.ring.head m.ring.tail m.pushed i (turn i) (m.ring.buffer i) (phase i)
  pub knows : (j : ℕ) → Knows m.ring.buffer m.pushed phase turn j (pcs j)
  pub read : (p : ℕ) (x : A) → m.popped p ≡ some x → (p < m.ring.head) × (m.pushed p ≡ some x)
  pub later : (p : ℕ) → m.ring.tail ≤ p → m.pushed p ≡ none

module _ {A : Type 0} where
  -- The place whose turn a push has seen is empty ...
  pub claims_empty :
      (head tail i c : ℕ) (pushed : ℕ → Option A) (node : Node A) (f : Phase)
      → SlotAt head tail pushed i c node f
      → tail % 64 ≡ i
      → tail ≤ node.seq
      → head ≤ tail
      → (f ≡ Phase.empty) × (c ≡ tail)
  claims_empty head tail i c pushed node Phase.empty s at up le =
      (refl, omega (arith, s.0, s.1, s.2.1, at, le))
  claims_empty head tail i c pushed node (Phase.pushing j) s at up le =
      absurd (omega (arith, s.2.0, s.2.1, s.2.2, up))
  claims_empty head tail i c pushed node Phase.full s at up le =
      absurd (omega (arith, s.0, s.2.0, s.2.2, at, up))
  claims_empty head tail i c pushed node (Phase.popping j) s at up le =
      absurd (omega (arith, s.0, s.2.0, s.2.1, at, up, le))

  -- ... and the one that a pop has seen is full.
  pub claims_full :
      (head tail i c : ℕ) (pushed : ℕ → Option A) (node : Node A) (f : Phase)
      → SlotAt head tail pushed i c node f
      → head % 64 ≡ i
      → head + 1 ≤ node.seq
      → tail ≤ head + 64
      → (f ≡ Phase.full) × (c ≡ head)
  claims_full head tail i c pushed node Phase.empty s at up le =
      absurd (omega (arith, s.0, s.1, s.2.0, s.2.1, at, up))
  claims_full head tail i c pushed node (Phase.pushing j) s at up le =
      absurd (omega (arith, s.0, s.1, s.2.0, s.2.1, at, up))
  claims_full head tail i c pushed node Phase.full s at up le =
      (refl, omega (arith, s.0, s.1, s.2.1, at))
  claims_full head tail i c pushed node (Phase.popping j) s at up le =
      absurd (omega (arith, s.2.0, s.2.1, up))

  -- The other places, when the tail or the head goes on by one.
  pub tail_next :
      (head tail i c : ℕ) (pushed pushed' : ℕ → Option A) (node : Node A) (f : Phase)
      → tail % 64 ≢ i
      → ((p : ℕ) (x : A) → pushed p ≡ some x → pushed' p ≡ some x)
      → SlotAt head tail pushed i c node f
      → SlotAt head (tail + 1) pushed' i c node f
  tail_next head tail i c pushed pushed' node Phase.empty ne more (at, near, (is, le)) =
      (at, near, (is, omega (arith, le, at, ne)))
  tail_next head tail i c pushed pushed' node (Phase.pushing j) ne more (at, near, (is, le, lt)) =
      (at, near, (is, le, omega (arith, lt)))
  tail_next head tail i c pushed pushed' node Phase.full ne more (at, near, (is, le, lt, what)) =
      (at, near, (is, le, omega (arith, lt), more c node.data_of what))
  tail_next head tail i c pushed pushed' node (Phase.popping j) ne more
        (at, near, (is, lt, le, what)) =
      (at, near, (is, lt, omega (arith, le, at, ne), more c node.data_of what))

  pub head_next :
      (head tail i c : ℕ) (pushed : ℕ → Option A) (node : Node A) (f : Phase)
      → head % 64 ≢ i
      → SlotAt head tail pushed i c node f
      → SlotAt (head + 1) tail pushed i c node f
  head_next head tail i c pushed node Phase.empty ne (at, near, (is, le)) =
      (at, omega (arith, near), (is, le))
  head_next head tail i c pushed node (Phase.pushing j) ne (at, near, (is, le, lt)) =
      (at, omega (arith, near), (is, omega (arith, le, at, ne), lt))
  head_next head tail i c pushed node Phase.full ne (at, near, (is, le, lt, what)) =
      (at, omega (arith, near), (is, omega (arith, le, at, ne), lt, what))
  head_next head tail i c pushed node (Phase.popping j) ne (at, near, (is, lt, le, what)) =
      (at, omega (arith, near), (is, omega (arith, lt), le, what))

  -- A thread moves on and the memory stays.
  Knows-set :
      (buffer : ℕ → Node A) (pushed : ℕ → Option A) (phase : ℕ → Phase) (turn : ℕ → ℕ)
      (pcs : ℕ → Pc A) (j : ℕ) (pc : Pc A)
      → Knows buffer pushed phase turn j pc
      → ((j2 : ℕ) → j ≢ j2 → Knows buffer pushed phase turn j2 (pcs j2))
      → (j2 : ℕ) → Knows buffer pushed phase turn j2 (update pcs j pc j2)
  Knows-set buffer pushed phase turn pcs j pc mine all j2 = elim (ℕ_discrete j j2) [
    | yes e ↦
        subst (λ i. Knows buffer pushed phase turn i (update pcs j pc i)) e
          (subst (λ q. Knows buffer pushed phase turn j q) (sym (update_self pcs j pc)) mine)
    | no ne ↦
        subst (λ q. Knows buffer pushed phase turn j2 q) (sym (update_ne pcs j pc j2 ne))
          (all j2 ne)
  ]

  pub stay-IsShared :
      (pcs : ℕ → Pc A) (m : Shared A) (j : ℕ) (pc : Pc A) (v : IsShared pcs m)
      → Knows m.ring.buffer m.pushed v.phase v.turn j pc
      → IsShared (update pcs j pc) m
  stay-IsShared pcs m j pc v mine = record {
    phase = v.phase;
    turn = v.turn;
    counted = v.counted;
    le = v.le;
    fits = v.fits;
    slots = v.slots;
    knows = Knows-set m.ring.buffer m.pushed v.phase v.turn pcs j pc mine (λ j2 ne. v.knows j2);
    read = v.read;
    later = v.later;
  }

  -- Thread `j` changes place `i`, which no other thread has claimed.
  pub moved-IsShared :
      (pcs : ℕ → Pc A) (m m' : Shared A) (j i c : ℕ) (pc : Pc A) (node : Node A) (f : Phase)
      (v : IsShared pcs m)
      → (m.ring.buffer i).seq ≤ node.seq
      → ((j2 : ℕ) → j ≢ j2 → owner (v.phase i) ≢ some j2)
      → ((p : ℕ) (x : A) → m.pushed p ≡ some x → m'.pushed p ≡ some x)
      → m'.ring.buffer ≡ update m.ring.buffer i node
      → Knows (update m.ring.buffer i node) m'.pushed (update v.phase i f) (update v.turn i c) j pc
      → SlotAt m'.ring.head m'.ring.tail m'.pushed i c node f
      → ((s : ℕ)
          → i ≢ s
          → SlotAt m.ring.head m.ring.tail m.pushed s (v.turn s) (m.ring.buffer s) (v.phase s)
          → SlotAt m'.ring.head m'.ring.tail m'.pushed s (v.turn s) (m.ring.buffer s) (v.phase s))
      → (m'.ring.tail ≡ m'.pushes)
        × (m'.ring.head ≤ m'.ring.tail)
        × (m'.ring.tail ≤ m'.ring.head + 64)
      → ((p : ℕ) (x : A) → m'.popped p ≡ some x → (p < m'.ring.head) × (m'.pushed p ≡ some x))
      → ((p : ℕ) → m'.ring.tail ≤ p → m'.pushed p ≡ none)
      → IsShared (update pcs j pc) m'
  moved-IsShared pcs m m' j i c pc node f v up other more buffer mine here there (counted, le, fits)
        read later =
      record {
        phase = update v.phase i f;
        turn = update v.turn i c;
        counted = counted;
        le = le;
        fits = fits;
        slots = λ s lt.
            subst
              (λ b.
                SlotAt m'.ring.head m'.ring.tail m'.pushed s (update v.turn i c s) (b s)
                  (update v.phase i f s))
              (sym buffer)
              (elim (ℕ_discrete i s) [
                | yes e ↦
                    subst
                      (λ k.
                        SlotAt m'.ring.head m'.ring.tail m'.pushed k (update v.turn i c k)
                          (update m.ring.buffer i node k) (update v.phase i f k))
                      e
                      (rw
                        (
                          update_self v.turn i c,
                          update_self m.ring.buffer i node,
                          update_self v.phase i f,
                        )
                        here)
                | no ne ↦
                    rw
                      (
                        update_ne v.turn i c s ne,
                        update_ne m.ring.buffer i node s ne,
                        update_ne v.phase i f s ne,
                      )
                      (there s ne (v.slots s lt))
              ]);
        knows =
            subst
              (λ b.
                (j2 : ℕ)
                → Knows b m'.pushed (update v.phase i f) (update v.turn i c) j2
                    (update pcs j pc j2))
              (sym buffer)
              (Knows-set (update m.ring.buffer i node) m'.pushed (update v.phase i f)
                (update v.turn i c) pcs j pc mine
                (λ j2 ne.
                  Knows-other m.ring.buffer m.pushed m'.pushed v.phase v.turn i node f c j2 up
                    (other j2 ne) more (pcs j2) (v.knows j2)));
        read = read;
        later = later;
      }
