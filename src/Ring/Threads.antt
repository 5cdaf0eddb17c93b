-- ===== src/Ring/Threads.antt =====
-- Push and Pop of RingBuffer.h by any number of threads at once: each access of an atomic member, and
-- each access of the data of a node, is a step of one thread. All accesses are sequentially
-- consistent, as the operations of std::atomic are by default.
mod Slots
pub mod Keeps
mod Moves
pub mod Safe
mod Tests
use dubuframework.Base.{
  ℕ, ◌+◌, ◌%◌, ◌≡◌, Bool, true, false, Option, none, some, ltb, ◌==◌, if◌then◌else◌, update,
}
use dubuframework.PacketState.{window_count}
use dubuframework.Ring.{Node, RingBuffer, u64}

-- Where a thread is; the arguments are its local variables.
pub data Pc (A : Type 0) : Type 0 where
  outside : Pc A
  push_start : A → Pc A  -- before `tail_.load()`
  push_at : A → ℕ → Pc A  -- before `node.seq_.load()`
  push_seen : A → ℕ → ℕ → Pc A  -- before the comparison and the compare-exchange
  push_write : A → ℕ → ℕ → Pc A  -- before `node.data_ = t`
  push_store : ℕ → ℕ → Pc A  -- before `node.seq_.store`
  push_done : Bool → Pc A
  pop_start : Pc A
  pop_at : ℕ → Pc A
  pop_seen : ℕ → ℕ → Pc A
  pop_read : ℕ → Pc A  -- before `t = node.data_`
  pop_store : ℕ → A → Pc A
  pop_done : Option A → Pc A

-- What the threads share, and what is noted of them: how many times a compare-exchange of Push
-- succeeded and with which elements, and the element that was read for each place of the queue.
pub record Shared (A : Type 0) : Type 0 where
  pub ring : RingBuffer A
  pub pushes : ℕ
  pub pushed : ℕ → Option A
  pub popped : ℕ → Option A

-- A successful compare-exchange of Push
abbrev pub claim_tail : {A : Type 0} → A → ℕ → Shared A → Shared A
claim_tail t tail m = record m {
  ring = record m.ring { tail = u64 (tail + 1) };
  pushes = m.pushes + 1;
  pushed = update m.pushed m.pushes (some t);
}

abbrev pub write_data : {A : Type 0} → A → ℕ → Shared A → Shared A
write_data t tail m =
    let i = tail % window_count in
    record m {
      ring = record m.ring {
        buffer = update m.ring.buffer i (record (m.ring.buffer i) { data_of = t });
      };
    }

abbrev pub store_seq : {A : Type 0} → ℕ → ℕ → Shared A → Shared A
store_seq at seq m =
    let i = at % window_count in
    record m {
      ring = record m.ring {
        buffer = update m.ring.buffer i (record (m.ring.buffer i) { seq = u64 seq });
      };
    }

abbrev pub claim_head : {A : Type 0} → ℕ → Shared A → Shared A
claim_head head m = record m { ring = record m.ring { head = u64 (head + 1) } }

abbrev pub note_popped : {A : Type 0} → ℕ → A → Shared A → Shared A
note_popped head x m = record m { popped = update m.popped head (some x) }

-- The next step of a thread
unfoldable pub run : {A : Type 0} → Pc A → Shared A → Pc A × Shared A
run Pc.outside m = (Pc.outside, m)
run (Pc.push_start t) m = (Pc.push_at t m.ring.tail, m)
run (Pc.push_at t tail) m = (Pc.push_seen t tail (m.ring.buffer (tail % window_count)).seq, m)
run (Pc.push_seen t tail seq) m =
    if seq == tail
    then if m.ring.tail == tail
      then (Pc.push_write t tail seq, claim_tail t tail m)
      else (Pc.push_at t m.ring.tail, m)
    else if ltb seq tail
    then (Pc.push_done false, m)
    else (Pc.push_start t, m)
run (Pc.push_write t tail seq) m = (Pc.push_store tail seq, write_data t tail m)
run (Pc.push_store tail seq) m = (Pc.push_done true, store_seq tail (seq + 1) m)
run (Pc.push_done ok) m = (Pc.push_done ok, m)
run Pc.pop_start m = (Pc.pop_at m.ring.head, m)
run (Pc.pop_at head) m = (Pc.pop_seen head (m.ring.buffer (head % window_count)).seq, m)
run (Pc.pop_seen head seq) m =
    if seq == u64 (head + 1)
    then if m.ring.head == head
      then (Pc.pop_read head, claim_head head m)
      else (Pc.pop_at m.ring.head, m)
    else if ltb seq (u64 (head + 1))
    then (Pc.pop_done none, m)
    else (Pc.pop_start, m)
run (Pc.pop_read head) m =
    let x = (m.ring.buffer (head % window_count)).data_of in
    (Pc.pop_store head x, note_popped head x m)
run (Pc.pop_store head x) m = (Pc.pop_done (some x), store_seq head (head + window_count) m)
run (Pc.pop_done o) m = (Pc.pop_done o, m)

-- A thread that is in neither function may call one.
abbrev pub is_out : {A : Type 0} → Pc A → Bool
is_out Pc.outside = true
is_out (Pc.push_start t) = false
is_out (Pc.push_at t tail) = false
is_out (Pc.push_seen t tail seq) = false
is_out (Pc.push_write t tail seq) = false
is_out (Pc.push_store tail seq) = false
is_out (Pc.push_done ok) = true
is_out Pc.pop_start = false
is_out (Pc.pop_at head) = false
is_out (Pc.pop_seen head seq) = false
is_out (Pc.pop_read head) = false
is_out (Pc.pop_store head x) = false
is_out (Pc.pop_done o) = true

-- Any thread moves.
pub data Step {A : Type 0} (pcs : ℕ → Pc A) (m : Shared A) : (ℕ → Pc A) → Shared A → Type 0 where
  call_push :
      (j : ℕ) (t : A) → is_out (pcs j) ≡ true → Step pcs m (update pcs j (Pc.push_start t)) m
  call_pop : (j : ℕ) → is_out (pcs j) ≡ true → Step pcs m (update pcs j Pc.pop_start) m
  move : (j : ℕ) → Step pcs m (update pcs j (run (pcs j) m).0) (run (pcs j) m).1

-- What the threads, all outside at first, can reach.
pub data Reach {A : Type 0} (init : Shared A) : (ℕ → Pc A) → Shared A → Type 0 where
  start : Reach init (λ j. Pc.outside) init
  later :
      {pcs pcs' : ℕ → Pc A} {m m' : Shared A}
      → Reach init pcs m
      → Step pcs m pcs' m'
      → Reach init pcs' m'
