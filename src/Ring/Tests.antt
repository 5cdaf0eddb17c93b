-- ===== src/Ring/Tests.antt =====
-- Some calls on a ring of numbers.
use dubuframework.Base.{ℕ, ◌≡◌, refl, true, none, some, List, [], ◌∷◌, arith}
use dubuframework.Ring.{RingBuffer, new_ring}
use dubuframework.Ring.Queue.{Call, Answer, run, queue, new_ring-queue}

abbrev calls : List (Call ℕ)
calls = Call.push_of 5 ∷ Call.push_of 6 ∷ Call.pop_of ∷ Call.pop_of ∷ Call.pop_of ∷ []

queue_runs :
    queue calls []
    ≡ Answer.pushed true
      ∷ Answer.pushed true
      ∷ Answer.popped (some 5)
      ∷ Answer.popped (some 6)
      ∷ Answer.popped none
      ∷ []
queue_runs = refl

new_ring-queue_example : (r : RingBuffer ℕ) × (run 1 calls (new_ring 0) ≡ some (queue calls [], r))
new_ring-queue_example = new_ring-queue 0 calls 0 (omega arith)
