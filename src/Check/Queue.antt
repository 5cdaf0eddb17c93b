-- ===== src/Check/Queue.antt =====
-- The buffers in the queue of a worker.
use dubuframework.Base.{
  ℕ, ◌+◌, ◌≤◌, ◌≡◌, refl, Option, none, some, List, [], ◌∷◌, ◌++◌, map, length, length-append,
  digit, arith, ltb, ltb→lt, inl, inr, Bool-cases, Option-cases,
}
use dubuframework.PacketManager.{push_packet_buffer}
use dubuframework.PacketManager.Count.{count}
use dubuframework.PacketManager.Invariant.{IsPool, push-IsPool}
use dubuframework.Socket.{Net, push, drain}
use dubuframework.Socket.Leave.{completed, AreHeld, push-AreHeld, drain-IsPool}
use dubuframework.Check.{SessionJob, capacity, push_job, return_buffers, give_back}

abbrev pub opbs : List SessionJob → List (Option ℕ)
opbs queue = map (λ job. job.opb) queue

-- How often a buffer stands in the queue
abbrev pub queued : ℕ → List SessionJob → ℕ
queued b queue = count b (completed (opbs queue))

-- The queue is within its capacity, and each of its buffers is in use and stands in it once.
pub record IsQueue {S : Type 0} (queue : List SessionJob) (n : Net S) : Type 0 where
  pub fits : length queue ≤ capacity
  pub pool : IsPool n.packets
  pub held : AreHeld (opbs queue) n.packets

abbrev one : SessionJob → List SessionJob
one job = job ∷ []

cons-count :
    (b : ℕ) (o : Option ℕ) (rest : List (Option ℕ))
    → count b (completed (o ∷ rest)) ≡ count b (completed rest) + count b (completed (o ∷ []))
cons-count b none rest = omega arith
cons-count b (some a) rest = omega arith

queued-append :
    (b : ℕ) (queue : List SessionJob) (job : SessionJob)
    → queued b (queue ++ one job) ≡ queued b queue + queued b (one job)
queued-append b [] job = omega arith
queued-append b (first ∷ rest) job = omega (
  arith,
  queued-append b rest job,
  cons-count b first.opb (opbs rest),
  cons-count b first.opb (opbs (rest ++ one job)),
)

module _ {S : Type 0} where
  given-back :
      (o : Option ℕ) (rest : List (Option ℕ)) (n : Net S)
      → IsPool n.packets
      → AreHeld (o ∷ rest) n.packets
      → let n' = give_back o n in
        IsPool n'.packets
        × AreHeld rest n'.packets
        × ((b : ℕ)
            → digit (n'.packets.use_list b) + count b (completed (o ∷ []))
              ≡ digit (n.packets.use_list b))
  unfolding push_packet_buffer
  given-back none rest n v h = (v, h, λ b. omega arith)
  given-back (some a) rest n v h =
      let (used, held) = push-AreHeld a rest n h in
      ((push-IsPool a v used).0, held, λ b. ground (arith, h b, used))

  -- A job whose buffer is in use and not yet in the queue is put into the queue, or, if the queue is
  -- full, its buffer is given back: never both and never neither. The queue stays within its
  -- capacity, and its buffers in use.
  pub push_job-IsQueue :
      (job : SessionJob) (queue : List SessionJob) (n : Net S)
      → IsQueue queue n
      → AreHeld (opbs (job ∷ queue)) n.packets
      → let (queue', n') = push_job job (queue, n) in
        IsQueue queue' n'
        × ((b : ℕ)
            → digit (n'.packets.use_list b) + queued b queue + queued b (job ∷ [])
              ≡ digit (n.packets.use_list b) + queued b queue')
  unfolding push_job
  push_job-IsQueue job queue n v h = elim (Bool-cases (ltb (length queue) capacity)) [
    | inl room ↦ rw room (
      record {
        fits = omega (arith, length-append queue (one job), ltb→lt _ _ room);
        pool = v.pool;
        held =
            λ b. omega (arith, queued-append b queue job, cons-count b job.opb (opbs queue), h b);
      },
      λ b. omega (arith, queued-append b queue job),
    )
    | inr full ↦
        let (pool, held, left) = given-back job.opb (opbs queue) n v.pool h in
        rw full (record { fits = v.fits; pool = pool; held = held }, λ b. omega (arith, left b))
  ]

  return_buffers-drain :
      (queue : List SessionJob) (n : Net S) → return_buffers queue n ≡ drain (opbs queue) n
  unfolding return_buffers drain
  return_buffers-drain [] n = refl
  return_buffers-drain (job ∷ rest) n = elim (Option-cases job.opb) [
    | inl gone ↦ rw (gone, drain) (return_buffers-drain rest n)
    | inr (a, is) ↦ rw (is, drain) (return_buffers-drain rest (push a n))
  ]

  -- ReturnBuffers gives back each buffer of the queue, once, and no other.
  pub return_buffers-IsPool :
      (queue : List SessionJob) (n : Net S)
      → IsQueue queue n
      → let n' = return_buffers queue n in
        IsPool n'.packets
        × ((b : ℕ) → digit (n'.packets.use_list b) + queued b queue ≡ digit (n.packets.use_list b))
  return_buffers-IsPool queue n v =
      rw (return_buffers-drain queue n) (drain-IsPool (opbs queue) n v.pool v.held)
