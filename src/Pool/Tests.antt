-- ===== src/Pool/Tests.antt =====
-- A pool with no block takes one at address 1000.
use dubuframework.Base.{ℕ, ◌≤◌, ◌≡◌, refl, ap, Bool, true, false, some, [], arith}
use dubuframework.Pool.{
  Pool, chunk_count, cut_chunks, cut_sizes, find_block, bit_ceil, bit_ceil_from, push_chunk,
  pop_chunk, refilled,
}
use dubuframework.Pool.Cut.{IsFree}
use dubuframework.Pool.Owned.{total, IsApart, IsFresh}
use dubuframework.Pool.Keeps.{mark, Step, Reach, Reach-IsApart}
use dubuframework.Pool.Enough.{pop_chunk_enough}

-- 100 chunks of the largest size
largest_runs : (cut_sizes 1 1024 0 (λ len. [])).1 ≡ 102400
unfolding cut_sizes cut_chunks chunk_count
largest_runs = refl

class_runs : bit_ceil 100 ≡ 128
unfolding bit_ceil_from
class_runs = refl

abbrev no_blocks : Pool
no_blocks = record { blocks = []; use_cnt = λ b. 0; chunk_list = λ len. [] }

at_1000-IsFresh : IsFresh 1000 []
unfolding find_block
at_1000-IsFresh p low high = refl

pop_chunk_enough_example :
    (100 ≤ bit_ceil 100)
    × ((ptr : ℕ) × ((pop_chunk 100 1000 no_blocks).1 ≡ some ptr)
        × IsFree (refilled 1000 [] no_blocks).chunk_list (bit_ceil 100) ptr)
pop_chunk_enough_example = pop_chunk_enough 100 1000 no_blocks (omega arith) (omega arith)

-- An object of 100 bytes is taken and given back.
abbrev object : ℕ
object = (pop_chunk_enough 100 1000 no_blocks (omega arith) (omega arith)).1.0

abbrev with_object : Pool
with_object = (pop_chunk 100 1000 no_blocks).0

abbrev used : ℕ → ℕ → Bool
used = mark (bit_ceil 100) object true (λ l q. false)

object_taken : Step no_blocks (λ l q. false) with_object used
object_taken = Step.popped 100 1000 object at_1000-IsFresh (
    ap (λ r. (with_object, r))
      (pop_chunk_enough 100 1000 no_blocks (omega arith) (omega arith)).1.1)

object_used : used (bit_ceil 100) object ≡ true
object_used = ground arith

object_back :
    Step with_object used
      (push_chunk 100 object with_object)
      (mark (bit_ceil 100) object false used)
object_back = Step.pushed 100 object object_used

Reach-IsApart_example :
    let p = push_chunk 100 object with_object in
    IsApart p.blocks (total (mark (bit_ceil 100) object false used) p.chunk_list)
Reach-IsApart_example =
    Reach-IsApart (Reach.step (Reach.step (Reach.start (λ b. 0)) object_taken) object_back)
