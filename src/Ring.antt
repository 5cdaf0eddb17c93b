-- ===== src/Ring.antt =====
-- RingBuffer.h: a queue of 64 places, each with a number that tells whose turn it is. The operations
-- are modelled one after another, by one thread; the loops reload the counters as the source does.
mod Fifo
mod Queue
pub mod Threads
mod Tests
use dubuframework.Base.{
  ℕ, zero, suc, ◌+◌, ◌%◌, ◌^◌, Bool, true, false, Option, none, some, List, [], ◌∷◌, ltb, ◌==◌,
  if◌then◌else◌, update,
}
use dubuframework.PacketState.{window_count}

-- Arithmetic on Uint64
abbrev pub u64 : ℕ → ℕ
u64 n = n % 2 ^ 64

-- RingBuffer::Node
pub record Node (A : Type 0) : Type 0 where
  pub seq : ℕ
  pub data_of : A

-- class RingBuffer
pub record RingBuffer (A : Type 0) : Type 0 where
  pub buffer : ℕ → Node A  -- an array of 64
  pub head : ℕ
  pub tail : ℕ

module _ {A : Type 0} where
  -- The constructor; the data of the nodes is `init`.
  unfoldable pub new_ring : A → RingBuffer A
  new_ring init = record { buffer = λ i. record { seq = i; data_of = init }; head = 0; tail = 0 }

  -- The loop of Push; `tail` is the local variable. The first argument bounds the rounds, and the
  -- result is `none` if they are not enough.
  unfoldable pub push_loop : ℕ → ℕ → A → RingBuffer A → Option (Bool × RingBuffer A)
  push_loop zero tail t r = none
  push_loop (suc fuel) tail t r =
      let i = tail % window_count in
      let seq = (r.buffer i).seq in
      let again = push_loop fuel r.tail t r in
      if seq == tail
      then if r.tail == tail
        then some (
          true,
          record r {
            tail = u64 (tail + 1);
            buffer = update r.buffer i (record { seq = u64 (seq + 1); data_of = t });
          },
        )
        else again
      else if ltb seq tail
      then some (false, r)
      else again

  -- Push
  unfoldable pub push : ℕ → A → RingBuffer A → Option (Bool × RingBuffer A)
  unfolding push_loop
  push fuel t r = push_loop fuel r.tail t r

  -- The loop of Pop; the element is `none` if the answer is false.
  unfoldable pub pop_loop : ℕ → ℕ → RingBuffer A → Option (Option A × RingBuffer A)
  pop_loop zero head r = none
  pop_loop (suc fuel) head r =
      let i = head % window_count in
      let node = r.buffer i in
      let again = pop_loop fuel r.head r in
      if node.seq == u64 (head + 1)
      then if r.head == head
        then some (
          some node.data_of,
          record r {
            head = u64 (head + 1);
            buffer = update r.buffer i (record node { seq = u64 (head + window_count) });
          },
        )
        else again
      else if ltb node.seq (u64 (head + 1))
      then some (none, r)
      else again

  -- Pop
  unfoldable pub pop : ℕ → RingBuffer A → Option (Option A × RingBuffer A)
  unfolding pop_loop
  pop fuel r = pop_loop fuel r.head r
