-- ===== src/Ring/Threads/Tests.antt =====
-- Two threads that push and pop, or both push, step by step.
use dubuframework.Base.{ℕ, ◌+◌, ◌≤◌, ◌<◌, ◌≡◌, ◌≢◌, refl, some, List, [], ◌∷◌, arith, update}
use dubuframework.Ring.{new_ring}
use dubuframework.Ring.Threads.{Pc, Shared, run, Step, Reach}
use dubuframework.Ring.Threads.Safe.{new_shared, data_access, Reach-popped, Reach-apart}

abbrev State : Type 0
State = (ℕ → Pc ℕ) × Shared ℕ

-- The threads of the list move, one after another.
abbrev moved : List ℕ → State → State
moved [] s = s
moved (j ∷ js) (pcs, m) = moved js (update pcs j (run (pcs j) m).0, (run (pcs j) m).1)

moved-Reach :
    (js : List ℕ) (pcs : ℕ → Pc ℕ) (m : Shared ℕ)
    → Reach (new_shared 0) pcs m
    → let (pcs', m') = moved js (pcs, m) in Reach (new_shared 0) pcs' m'
moved-Reach [] pcs m reach = reach
moved-Reach (j ∷ js) pcs m reach =
    moved-Reach js (update pcs j (run (pcs j) m).0) (run (pcs j) m).1
      (Reach.later reach (Step.move j))

abbrev outside : ℕ → Pc ℕ
outside j = Pc.outside

abbrev push_and_pop : ℕ → Pc ℕ
push_and_pop = update (update outside 0 (Pc.push_start 7)) 1 Pc.pop_start

push_and_pop-Reach : Reach (new_shared 0) push_and_pop (new_shared 0)
push_and_pop-Reach =
    Reach.later (Reach.later Reach.start (Step.call_push 0 7 refl)) (Step.call_pop 1 refl)

-- Thread 1 loads the head before thread 0 has pushed.
abbrev popped : State
popped = moved (0 ∷ 1 ∷ 0 ∷ 0 ∷ 0 ∷ 0 ∷ 1 ∷ 1 ∷ 1 ∷ 1 ∷ []) (push_and_pop, new_shared 0)

popped_runs : popped.1.popped 0 ≡ some 7
unfolding run new_ring
popped_runs = refl

popped_returns : popped.0 1 ≡ Pc.pop_done (some 7)
unfolding run new_ring
popped_returns = refl

popped_pushes : popped.1.pushes ≡ 1
unfolding run new_ring
popped_pushes = refl

Reach-popped_example :
    let m = popped.1 in
    (0 < m.ring.head)
    × (m.ring.head ≤ m.ring.tail)
    × (m.ring.tail ≤ m.ring.head + 64)
    × (m.pushed 0 ≡ some 7)
Reach-popped_example =
    Reach-popped 0 0 7 (omega (arith, popped_pushes))
      (moved-Reach (0 ∷ 1 ∷ 0 ∷ 0 ∷ 0 ∷ 0 ∷ 1 ∷ 1 ∷ 1 ∷ 1 ∷ []) push_and_pop (new_shared 0)
        push_and_pop-Reach)
      popped_runs

abbrev both_push : ℕ → Pc ℕ
both_push = update (update outside 0 (Pc.push_start 7)) 1 (Pc.push_start 8)

both_push-Reach : Reach (new_shared 0) both_push (new_shared 0)
both_push-Reach =
    Reach.later (Reach.later Reach.start (Step.call_push 0 7 refl)) (Step.call_push 1 8 refl)

-- Thread 1 sees the first place claimed and goes on to the second.
abbrev writing : State
writing = moved (0 ∷ 1 ∷ 0 ∷ 1 ∷ 0 ∷ 1 ∷ 1 ∷ 1 ∷ []) (both_push, new_shared 0)

writing_first : data_access (writing.0 0) ≡ some 0
unfolding run new_ring
writing_first = refl

writing_second : data_access (writing.0 1) ≡ some 1
unfolding run new_ring
writing_second = refl

writing_pushes : writing.1.pushes ≡ 2
unfolding run new_ring
writing_pushes = refl

Reach-apart_example : data_access (writing.0 1) ≢ some 0
Reach-apart_example =
    Reach-apart 0 0 1 0 (omega (arith, writing_pushes))
      (moved-Reach (0 ∷ 1 ∷ 0 ∷ 1 ∷ 0 ∷ 1 ∷ 1 ∷ 1 ∷ []) both_push (new_shared 0) both_push-Reach)
      (λ e. omega (arith, e)) writing_first
