-- ===== src/Ring/Queue.antt =====
-- Any sequence of Push and Pop on the ring against a list of at most 64 elements.
use dubuframework.Base.{
  ℕ, suc, ◌+◌, ◌^◌, ◌<◌, ◌≡◌, refl, Bool, true, false, Option, none, some, List, [], ◌∷◌, ◌++◌,
  length, ltb, lt→ltb, le→ltb, if◌then◌else◌, arith,
}
use native.Mathlib.Decide.{dec_lt}
use dubuframework.PacketState.{window_count}
use dubuframework.Ring.{RingBuffer, new_ring, push, pop}
use dubuframework.Ring.Fifo.{
  IsRing, push_room, push_full, push-IsRing, pop-some, pop-none, pop-IsRing,
}

pub data Call (A : Type 0) : Type 0 where
  push_of : A → Call A
  pop_of : Call A

pub data Answer (A : Type 0) : Type 0 where
  pushed : Bool → Answer A
  popped : Option A → Answer A

abbrev bind : {A B : Type 0} → Option A → (A → Option B) → Option B
bind none f = none
bind (some a) f = f a

module _ {A : Type 0} where
  -- The calls on the ring, each with `fuel` rounds
  unfoldable pub run : ℕ → List (Call A) → RingBuffer A → Option (List (Answer A) × RingBuffer A)
  run fuel [] r = some ([], r)
  run fuel (Call.push_of t ∷ rest) r = bind (push fuel t r) (λ (ok, r').
      bind (run fuel rest r') (λ (answers, r''). some (Answer.pushed ok ∷ answers, r'')))
  run fuel (Call.pop_of ∷ rest) r =
      bind (pop fuel r) (λ (x, r').
        bind (run fuel rest r') (λ (answers, r''). some (Answer.popped x ∷ answers, r'')))

  -- The calls on a list
  abbrev pub queue : List (Call A) → List A → List (Answer A)
  queue [] q = []
  queue (Call.push_of t ∷ rest) q =
      let room = Answer.pushed true ∷ queue rest (q ++ t ∷ []) in
      let full = Answer.pushed false ∷ queue rest q in
      if ltb (length q) window_count then room else full
  queue (Call.pop_of ∷ rest) [] = Answer.popped none ∷ queue rest []
  queue (Call.pop_of ∷ rest) (x ∷ xs) = Answer.popped (some x) ∷ queue rest xs

  new-IsRing : (init : A) → IsRing [] (new_ring init)
  unfolding new_ring
  new-IsRing init = record {
    span = omega arith;
    fits = omega arith;
    filled = λ d less. absurd (omega (arith, less));
    room = λ d more less. omega arith;
  }

  -- Fewer than 2 ^ 64 elements are pushed.
  abbrev IsEarly : List (Call A) → RingBuffer A → Type 0
  IsEarly calls r = r.tail + length calls + 128 < 2 ^ 64

  abbrev Runs : ℕ → List (Call A) → List A → RingBuffer A → Type 0
  Runs fuel calls q r = (r' : RingBuffer A) × (run (suc fuel) calls r ≡ some (queue calls q, r'))

  run-queue :
      (fuel : ℕ) (calls : List (Call A)) (q : List A) (r : RingBuffer A)
      → IsRing q r
      → IsEarly calls r
      → Runs fuel calls q r
  unfolding run
  run-queue fuel [] q r v early = (r, refl)
  run-queue fuel (Call.push_of t ∷ rest) q r v early = elim (dec_lt (length q) window_count) [
    | yes lt ↦
        let e = push_room fuel t q r v lt (omega (arith, early)) in
        let (r', go) =
          run-queue fuel rest (q ++ t ∷ []) _ (push-IsRing t q r v lt) (omega (arith, early)) in
        (r', rw (e, go, lt→ltb (length q) window_count lt) refl)
    | no ge ↦
        let e = push_full fuel t q r v (omega (arith, v.fits)) in
        let (r', go) = run-queue fuel rest q r v (omega (arith, early)) in
        (r', rw (e, go, le→ltb (length q) window_count (omega arith)) refl)
  ]
  run-queue fuel (Call.pop_of ∷ rest) [] r v early =
      let e = pop-none fuel r v (omega (arith, early, v.span)) in
      let (r', go) = run-queue fuel rest [] r v (omega (arith, early)) in (r', rw (e, go) refl)
  run-queue fuel (Call.pop_of ∷ rest) (x ∷ xs) r v early =
      let e = pop-some fuel x xs r v (omega (arith, early, v.span)) in
      let (first, next) = pop-IsRing x xs r v in
      let (r', go) = run-queue fuel rest xs _ next (omega (arith, early)) in
      (r', rw (e, go, first) refl)

  -- Of fewer than 2 ^ 64 - 128 calls of Push and Pop on a new ring, one after another, every one
  -- returns in its first round, and the answers are those of a queue of at most 64 elements: Push
  -- fails exactly if 64 are in it, Pop exactly if none is, and the elements come in their order.
  pub new_ring-queue :
      (fuel : ℕ) (calls : List (Call A)) (init : A)
      → length calls + 128 < 2 ^ 64
      → (r : RingBuffer A) × (run (suc fuel) calls (new_ring init) ≡ some (queue calls [], r))
  unfolding new_ring
  new_ring-queue fuel calls init few =
      run-queue fuel calls [] (new_ring init) (new-IsRing init) (omega (arith, few))
