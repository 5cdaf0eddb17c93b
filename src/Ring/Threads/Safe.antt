-- ===== src/Ring/Threads/Safe.antt =====
-- What holds in every state that the threads reach.
use dubuframework.Base.{
  ℕ, ◌+◌, ◌%◌, ◌^◌, ◌≤◌, ◌<◌, ◌≡◌, ◌≢◌, refl, sym, ap, ◌∙◌, inl, inr, false, Option, none, some,
  arith, ltb, ◌==◌, update, Bool-cases, ==_iff,
}
use mathlib.Core.Option.{some-injective}
use dubuframework.PacketState.{window_count}
use dubuframework.Ring.{new_ring, u64}
use dubuframework.Ring.Threads.{Pc, Shared, run, Step, Reach}
use dubuframework.Ring.Threads.Slots.{Phase, owner, Knows}
use dubuframework.Ring.Threads.Keeps.{IsShared, stay-IsShared}
use dubuframework.Ring.Threads.Moves.{
  claim_push, write_push, store_push, claim_pop, read_pop, store_pop,
}

-- A new ring that the threads share
abbrev pub new_shared : {A : Type 0} → A → Shared A
new_shared init = record {
  ring = new_ring init;
  pushes = 0;
  pushed = λ p. none;
  popped = λ p. none;
}

-- The place whose data a thread reads or writes in its next step
abbrev pub data_access : {A : Type 0} → Pc A → Option ℕ
data_access Pc.outside = none
data_access (Pc.push_start t) = none
data_access (Pc.push_at t tail) = none
data_access (Pc.push_seen t tail seq) = none
data_access (Pc.push_write t tail seq) = some (tail % window_count)
data_access (Pc.push_store tail seq) = none
data_access (Pc.push_done ok) = none
data_access Pc.pop_start = none
data_access (Pc.pop_at head) = none
data_access (Pc.pop_seen head seq) = none
data_access (Pc.pop_read head) = some (head % window_count)
data_access (Pc.pop_store head x) = none
data_access (Pc.pop_done o) = none

module _ {A : Type 0} where
  new-IsShared : (init : A) → IsShared (λ j. Pc.outside) (new_shared init)
  unfolding new_ring
  new-IsShared init = record {
    phase = λ i. Phase.empty;
    turn = λ i. i;
    counted = refl;
    le = omega arith;
    fits = omega arith;
    slots = λ i lt. (omega (arith, lt), omega (arith, lt), (refl, omega arith));
    knows = λ j. tt;
    read = λ p x on. cc on;
    later = λ p le. refl;
  }

  -- A thread that is at `pc` makes its step.
  run-IsShared :
      (pcs : ℕ → Pc A) (m : Shared A) (j : ℕ) (v : IsShared pcs m) (pc : Pc A)
      → m.pushes + 128 < 2 ^ 64
      → Knows m.ring.buffer m.pushed v.phase v.turn j pc
      → IsShared (update pcs j (run pc m).0) (run pc m).1
  unfolding run
  run-IsShared pcs m j v Pc.outside few k = stay-IsShared pcs m j Pc.outside v tt
  run-IsShared pcs m j v (Pc.push_start t) few k =
      stay-IsShared pcs m j (Pc.push_at t m.ring.tail) v tt
  run-IsShared pcs m j v (Pc.push_at t tail) few k =
      stay-IsShared pcs m j (Pc.push_seen t tail (m.ring.buffer (tail % window_count)).seq) v
        (omega arith)
  run-IsShared pcs m j v (Pc.push_seen t tail seq) few k = elim (Bool-cases (seq == tail)) [
    | inl same ↦ elim (Bool-cases (m.ring.tail == tail)) [
      | inl is ↦
          rw (same, is)
            (claim_push pcs m j v few t tail seq k ((==_iff seq tail).0 same)
              ((==_iff m.ring.tail tail).0 is))
      | inr other ↦ rw (same, other) (stay-IsShared pcs m j (Pc.push_at t m.ring.tail) v tt)
    ]
    | inr other ↦ elim (Bool-cases (ltb seq tail)) [
      | inl lt ↦ rw (other, lt) (stay-IsShared pcs m j (Pc.push_done false) v tt)
      | inr ge ↦ rw (other, ge) (stay-IsShared pcs m j (Pc.push_start t) v tt)
    ]
  ]
  run-IsShared pcs m j v (Pc.push_write t tail seq) few k = write_push pcs m j v few t tail seq k
  run-IsShared pcs m j v (Pc.push_store tail seq) few k = store_push pcs m j v few tail seq k
  run-IsShared pcs m j v (Pc.push_done ok) few k = stay-IsShared pcs m j (Pc.push_done ok) v tt
  run-IsShared pcs m j v Pc.pop_start few k = stay-IsShared pcs m j (Pc.pop_at m.ring.head) v tt
  run-IsShared pcs m j v (Pc.pop_at head) few k =
      stay-IsShared pcs m j (Pc.pop_seen head (m.ring.buffer (head % window_count)).seq) v
        (omega arith)
  run-IsShared pcs m j v (Pc.pop_seen head seq) few k = elim (Bool-cases (seq == u64 (head + 1))) [
    | inl same ↦ elim (Bool-cases (m.ring.head == head)) [
      | inl is ↦
          rw (same, is)
            (claim_pop pcs m j v few head seq k ((==_iff seq (u64 (head + 1))).0 same)
              ((==_iff m.ring.head head).0 is))
      | inr other ↦ rw (same, other) (stay-IsShared pcs m j (Pc.pop_at m.ring.head) v tt)
    ]
    | inr other ↦ elim (Bool-cases (ltb seq (u64 (head + 1)))) [
      | inl lt ↦ rw (other, lt) (stay-IsShared pcs m j (Pc.pop_done none) v tt)
      | inr ge ↦ rw (other, ge) (stay-IsShared pcs m j Pc.pop_start v tt)
    ]
  ]
  run-IsShared pcs m j v (Pc.pop_read head) few k = read_pop pcs m j v few head k
  run-IsShared pcs m j v (Pc.pop_store head x) few k = store_pop pcs m j v few head x k
  run-IsShared pcs m j v (Pc.pop_done o) few k = stay-IsShared pcs m j (Pc.pop_done o) v tt

  -- The count of the pushes does not go down.
  run-pushes : (pc : Pc A) (m : Shared A) → m.pushes ≤ (run pc m).1.pushes
  unfolding run
  run-pushes Pc.outside m = omega arith
  run-pushes (Pc.push_start t) m = omega arith
  run-pushes (Pc.push_at t tail) m = omega arith
  run-pushes (Pc.push_seen t tail seq) m = ground arith
  run-pushes (Pc.push_write t tail seq) m = omega arith
  run-pushes (Pc.push_store tail seq) m = omega arith
  run-pushes (Pc.push_done ok) m = omega arith
  run-pushes Pc.pop_start m = omega arith
  run-pushes (Pc.pop_at head) m = omega arith
  run-pushes (Pc.pop_seen head seq) m = ground arith
  run-pushes (Pc.pop_read head) m = omega arith
  run-pushes (Pc.pop_store head x) m = omega arith
  run-pushes (Pc.pop_done o) m = omega arith

  Step-pushes :
      {pcs : ℕ → Pc A} {m : Shared A} {pcs' : ℕ → Pc A} {m' : Shared A}
      → Step pcs m pcs' m'
      → m.pushes ≤ m'.pushes
  Step-pushes (Step.call_push j t out) = omega arith
  Step-pushes (Step.call_pop j out) = omega arith
  Step-pushes {pcs = pcs} {m = m} (Step.move j) = run-pushes (pcs j) m

  Step-IsShared :
      {pcs : ℕ → Pc A} {m : Shared A} {pcs' : ℕ → Pc A} {m' : Shared A}
      → m.pushes + 128 < 2 ^ 64
      → Step pcs m pcs' m'
      → IsShared pcs m
      → IsShared pcs' m'
  Step-IsShared {pcs = pcs} {m = m} few (Step.call_push j t out) v =
      stay-IsShared pcs m j (Pc.push_start t) v tt
  Step-IsShared {pcs = pcs} {m = m} few (Step.call_pop j out) v =
      stay-IsShared pcs m j Pc.pop_start v tt
  Step-IsShared {pcs = pcs} {m = m} few (Step.move j) v =
      run-IsShared pcs m j v (pcs j) few (v.knows j)

  Reach-IsShared :
      (init : A) {pcs : ℕ → Pc A} {m : Shared A}
      → m.pushes + 128 < 2 ^ 64
      → Reach (new_shared init) pcs m
      → IsShared pcs m
  Reach-IsShared init few Reach.start = new-IsShared init
  Reach-IsShared init few (Reach.later {m = m} reach step) =
      let few' : m.pushes + 128 < 2 ^ 64 = omega (arith, few, Step-pushes step) in
      Step-IsShared few' step (Reach-IsShared init few' reach)

  -- However the steps of the threads interleave, an element that a Pop read at a position of the queue
  -- is the one whose Push was the one to claim that position, and both have claimed it; the claimed
  -- positions that no Pop has claimed are at most 64. There were fewer than 2 ^ 64 - 128 pushes.
  pub Reach-popped :
      (init : A) {pcs : ℕ → Pc A} {m : Shared A} (p : ℕ) (x : A)
      → m.pushes + 128 < 2 ^ 64
      → Reach (new_shared init) pcs m
      → m.popped p ≡ some x
      → (p < m.ring.head)
        × (m.ring.head ≤ m.ring.tail)
        × (m.ring.tail ≤ m.ring.head + 64)
        × (m.pushed p ≡ some x)
  Reach-popped init p x few reach on =
      let v = Reach-IsShared init few reach in ((v.read p x on).0, v.le, v.fits, (v.read p x on).1)

  -- What thread `j` claimed
  access_owner :
      (m : Shared A) (phase : ℕ → Phase) (turn : ℕ → ℕ) (j i : ℕ) (pc : Pc A)
      → Knows m.ring.buffer m.pushed phase turn j pc
      → data_access pc ≡ some i
      → owner (phase i) ≡ some j
  access_owner m phase turn j i Pc.outside k e = cc e
  access_owner m phase turn j i (Pc.push_start t) k e = cc e
  access_owner m phase turn j i (Pc.push_at t tail) k e = cc e
  access_owner m phase turn j i (Pc.push_seen t tail seq) k e = cc e
  access_owner m phase turn j i (Pc.push_write t tail seq) k e =
      ap (λ s. owner (phase s)) (sym (some-injective _ _ e)) ∙ ap owner k.0
  access_owner m phase turn j i (Pc.push_store tail seq) k e = cc e
  access_owner m phase turn j i (Pc.push_done ok) k e = cc e
  access_owner m phase turn j i Pc.pop_start k e = cc e
  access_owner m phase turn j i (Pc.pop_at head) k e = cc e
  access_owner m phase turn j i (Pc.pop_seen head seq) k e = cc e
  access_owner m phase turn j i (Pc.pop_read head) k e =
      ap (λ s. owner (phase s)) (sym (some-injective _ _ e)) ∙ ap owner k.0
  access_owner m phase turn j i (Pc.pop_store head x) k e = cc e
  access_owner m phase turn j i (Pc.pop_done o) k e = cc e

  -- If a thread is about to read or write the data of a place, which is not atomic, then no other thread
  -- is about to read or write that of the same place. There were fewer than 2 ^ 64 - 128 pushes.
  pub Reach-apart :
      (init : A) {pcs : ℕ → Pc A} {m : Shared A} (j j2 i : ℕ)
      → m.pushes + 128 < 2 ^ 64
      → Reach (new_shared init) pcs m
      → j ≢ j2
      → data_access (pcs j) ≡ some i
      → data_access (pcs j2) ≢ some i
  Reach-apart init {pcs = pcs} {m = m} j j2 i few reach ne one two =
      let v = Reach-IsShared init few reach in
      let a = access_owner m v.phase v.turn j i (pcs j) (v.knows j) one in
      let b = access_owner m v.phase v.turn j2 i (pcs j2) (v.knows j2) two in
      ne (some-injective j j2 (sym a ∙ b))
