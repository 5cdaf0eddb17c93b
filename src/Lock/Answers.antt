-- ===== src/Lock/Answers.antt =====
-- What the accesses of the counter tell a thread, in every state that can be reached.
use dubuframework.Base.{
  ℕ, ◌+◌, ◌≤◌, ◌≡◌, inl, inr, refl, true, List, arith, ◌==◌, if◌then◌else◌, bit_and, bit_and-all,
  bit_and-apart, ne→==, ◌≢◌,
}
use dubuframework.Lock.{Pc, Reach, read, write, read_load, read_un_lock_asserts, write_exchange}
use dubuframework.Lock.Exclusion.{readers, writers, threads, max_threads, Reach-IsHeld, Reach-few}

-- A thread gets past the load of ReadLock exactly if no thread writes, and gets the lock for
-- writing exactly if no thread holds it in any way; else it stays in its loop and the counter is
-- as before. There are at most 65535 threads.
pub Reach-answers :
    {n count : ℕ} {now : List Pc}
    → n ≤ max_threads
    → Reach (threads n) count now
    → (read_load count ≡ (if writers now == 0 then Pc.loaded count else Pc.reading))
      × (write_exchange count ≡ (
          if readers now + writers now == 0 then (write, Pc.holds_write) else (count, Pc.writing)))
unfolding read_load write_exchange
Reach-answers {count = count} {now = now} few reach = elim (Reach-IsHeld few reach) [
  | inl (free, same) ↦
      let low : bit_and count write ≡ 0 =
        bit_and-apart 16 count 0xFFF (omega (arith, same, Reach-few few reach)) in
      let z : readers now + 0 ≡ readers now = omega arith in rw (low, free, same, z) (refl, refl)
  | inr (one, idle, at) ↦ rw (at, one, idle) (refl, refl)
]

-- The assertion of ReadUnLock holds whenever a thread that holds the lock for reading calls it, with
-- at most 65535 threads.
Reach-asserts :
    {n count : ℕ} {now : List Pc}
    → n ≤ max_threads
    → Reach (threads n) count now
    → 1 ≤ readers now
    → read_un_lock_asserts count ≡ true
unfolding read_un_lock_asserts
Reach-asserts {count = count} few reach holds = elim (Reach-IsHeld few reach) [
  | inr (one, idle, at) ↦ absurd (omega (arith, idle))
  | inl (free, same) ↦
      let all : bit_and count read ≡ count =
        bit_and-all 16 count (omega (arith, same, Reach-few few reach)) in
      let ne : count ≢ 0 = omega (arith, same) in rw (all, ne→== count 0 ne)
]
