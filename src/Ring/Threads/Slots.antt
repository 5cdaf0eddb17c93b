-- ===== src/Ring/Threads/Slots.antt =====
-- The phases of a place of the buffer, and what a step leaves of the others.
use dubuframework.Base.{
  ℕ, ◌+◌, ◌%◌, ◌≤◌, ◌<◌, ◌≡◌, ◌≢◌, sym, ap, ◌∙◌, Option, none, some, arith, update, update_self,
  update_ne,
}
use native.Mathlib.Decide.{ℕ_discrete}
use dubuframework.Ring.{Node}
use dubuframework.Ring.Threads.{Pc}

-- Who works on a place: nobody, while it is empty or full, or the thread that claimed it.
pub data Phase : Type 0 where
  empty : Phase
  pushing : ℕ → Phase
  full : Phase
  popping : ℕ → Phase

abbrev pub owner : Phase → Option ℕ
owner Phase.empty = none
owner (Phase.pushing j) = some j
owner Phase.full = none
owner (Phase.popping j) = some j

module _ {A : Type 0} where
  -- The node of a place whose turn is that of position `c` of the queue
  abbrev pub InPhase : ℕ → ℕ → (ℕ → Option A) → ℕ → Node A → Phase → Type 0
  InPhase head tail pushed c node Phase.empty = (node.seq ≡ c) × (tail ≤ c)
  InPhase head tail pushed c node (Phase.pushing j) = (node.seq ≡ c) × (head ≤ c) × (c < tail)
  InPhase head tail pushed c node Phase.full =
      (node.seq ≡ c + 1) × (head ≤ c) × (c < tail) × (pushed c ≡ some node.data_of)
  InPhase head tail pushed c node (Phase.popping j) =
      (node.seq ≡ c + 1) × (c < head) × (tail ≤ c + 64) × (pushed c ≡ some node.data_of)

  abbrev pub SlotAt : ℕ → ℕ → (ℕ → Option A) → ℕ → ℕ → Node A → Phase → Type 0
  SlotAt head tail pushed i c node phase =
      (c % 64 ≡ i) × (c < head + 64) × InPhase head tail pushed c node phase

  -- What thread `j` knows, by where it is.
  abbrev pub Knows : (ℕ → Node A) → (ℕ → Option A) → (ℕ → Phase) → (ℕ → ℕ) → ℕ → Pc A → Type 0
  Knows buffer pushed phase turn j Pc.outside = Unit {0}
  Knows buffer pushed phase turn j (Pc.push_start t) = Unit {0}
  Knows buffer pushed phase turn j (Pc.push_at t tail) = Unit {0}
  Knows buffer pushed phase turn j (Pc.push_seen t tail seq) = seq ≤ (buffer (tail % 64)).seq
  Knows buffer pushed phase turn j (Pc.push_write t tail seq) =
      (phase (tail % 64) ≡ Phase.pushing j)
      × (turn (tail % 64) ≡ tail)
      × (seq ≡ tail)
      × (pushed tail ≡ some t)
  Knows buffer pushed phase turn j (Pc.push_store tail seq) =
      (phase (tail % 64) ≡ Phase.pushing j)
      × (turn (tail % 64) ≡ tail)
      × (seq ≡ tail)
      × (pushed tail ≡ some (buffer (tail % 64)).data_of)
  Knows buffer pushed phase turn j (Pc.push_done ok) = Unit {0}
  Knows buffer pushed phase turn j Pc.pop_start = Unit {0}
  Knows buffer pushed phase turn j (Pc.pop_at head) = Unit {0}
  Knows buffer pushed phase turn j (Pc.pop_seen head seq) = seq ≤ (buffer (head % 64)).seq
  Knows buffer pushed phase turn j (Pc.pop_read head) =
      (phase (head % 64) ≡ Phase.popping j) × (turn (head % 64) ≡ head)
  Knows buffer pushed phase turn j (Pc.pop_store head x) =
      (phase (head % 64) ≡ Phase.popping j) × (turn (head % 64) ≡ head)
  Knows buffer pushed phase turn j (Pc.pop_done o) = Unit {0}

  -- Place `i` changes; it is not one that thread `j` has claimed.
  module _ (buffer : ℕ → Node A) (pushed pushed' : ℕ → Option A) (phase : ℕ → Phase) (turn : ℕ → ℕ)
      (i : ℕ) (node : Node A) (f : Phase) (c j : ℕ) (up : (buffer i).seq ≤ node.seq)
      (other : owner (phase i) ≢ some j)
      (more : (p : ℕ) (x : A) → pushed p ≡ some x → pushed' p ≡ some x) where
    seq_up : (s : ℕ) → (buffer s).seq ≤ (update buffer i node s).seq
    seq_up s = elim (ℕ_discrete i s) [
      | yes e ↦
          let at : update buffer i node s ≡ node =
            ap (update buffer i node) (sym e) ∙ update_self buffer i node in
          rw (at, sym e) up
      | no ne ↦ rw (update_ne buffer i node s ne) (omega arith)
    ]

    apart : (s : ℕ) → owner (phase s) ≡ some j → i ≢ s
    apart s own e = other (ap (λ k. owner (phase k)) e ∙ own)

    pub Knows-other :
        (pc : Pc A)
        → Knows buffer pushed phase turn j pc
        → Knows (update buffer i node) pushed' (update phase i f) (update turn i c) j pc
    Knows-other Pc.outside k = k
    Knows-other (Pc.push_start t) k = k
    Knows-other (Pc.push_at t tail) k = k
    Knows-other (Pc.push_seen t tail seq) k = omega (arith, k, seq_up (tail % 64))
    Knows-other (Pc.push_write t tail seq) (own, at, same, what) =
        let ne = apart (tail % 64) (ap owner own) in
        (
          update_ne phase i f (tail % 64) ne ∙ own,
          update_ne turn i c (tail % 64) ne ∙ at,
          same,
          more tail t what,
        )
    Knows-other (Pc.push_store tail seq) (own, at, same, what) =
        let ne = apart (tail % 64) (ap owner own) in
        (
          update_ne phase i f (tail % 64) ne ∙ own,
          update_ne turn i c (tail % 64) ne ∙ at,
          same,
          more tail _ what
              ∙ ap (λ n. some (Node.data_of n)) (sym (update_ne buffer i node (tail % 64) ne)),
        )
    Knows-other (Pc.push_done ok) k = k
    Knows-other Pc.pop_start k = k
    Knows-other (Pc.pop_at head) k = k
    Knows-other (Pc.pop_seen head seq) k = omega (arith, k, seq_up (head % 64))
    Knows-other (Pc.pop_read head) (own, at) =
        let ne = apart (head % 64) (ap owner own) in
        (update_ne phase i f (head % 64) ne ∙ own, update_ne turn i c (head % 64) ne ∙ at)
    Knows-other (Pc.pop_store head x) (own, at) =
        let ne = apart (head % 64) (ap owner own) in
        (update_ne phase i f (head % 64) ne ∙ own, update_ne turn i c (head % 64) ne ∙ at)
    Knows-other (Pc.pop_done o) k = k
