-- ===== src/Lock.antt =====
-- RWLock.h and .cpp: a spin lock for many readers or one writer. Each atomic access of the counter
-- is one step of one thread, so that threads interleave between a load and its compare-exchange.
-- The spin counter and the yields touch no shared state and are left out.
mod Exclusion
mod Answers
mod Tests
use dubuframework.Base.{
  ℕ, ◌+◌, ◌≡◌, Bool, true, false, List, [], ◌∷◌, ◌==◌, if◌then◌else◌, bit_and, sub32, add32,
}

-- EMPTY, READ and WRITE
abbrev pub empty : ℕ
empty = 0x0000000

abbrev pub read : ℕ
read = 0x000FFFF

abbrev pub write : ℕ
write = 0xFFF0000

-- Where a thread stands.
pub data Pc : Type 0 where
  outside : Pc
  reading : Pc  -- head of the loop in `ReadLock`
  loaded : (expected : ℕ) → Pc  -- before the compare-exchange of `ReadLock`
  writing : Pc  -- head of the loop in `WriteLock`
  holds_read : Pc
  holds_write : Pc

-- ReadLock, the load: with a writer inside, the loop goes round again.
unfoldable pub read_load : ℕ → Pc
read_load count = if bit_and count write == 0 then Pc.loaded count else Pc.reading

-- ReadLock, the compare-exchange
unfoldable pub read_exchange : ℕ → ℕ → ℕ × Pc
read_exchange expected count =
    if count == expected then (add32 expected 1, Pc.holds_read) else (count, Pc.reading)

-- ReadUnLock
unfoldable pub read_un_lock : ℕ → ℕ
read_un_lock count = sub32 count 1

-- The assertion of ReadUnLock, on the value before
unfoldable pub read_un_lock_asserts : ℕ → Bool
read_un_lock_asserts prev = if bit_and prev read == 0 then false else true

-- WriteLock, the compare-exchange
unfoldable pub write_exchange : ℕ → ℕ × Pc
write_exchange count = if count == empty then (write, Pc.holds_write) else (count, Pc.writing)

-- One step of one thread. A weak compare-exchange may also fail with no reason.
pub data Move (count : ℕ) : Pc → ℕ → Pc → Type 0 where
  enter_read : Move count Pc.outside count Pc.reading
  load : Move count Pc.reading count (read_load count)
  exchange :
      {expected : ℕ}
      → Move count
          (Pc.loaded expected)
          (read_exchange expected count).0
          (read_exchange expected count).1
  spurious : {expected : ℕ} → Move count (Pc.loaded expected) count Pc.reading
  leave_read : Move count Pc.holds_read (read_un_lock count) Pc.outside
  enter_write : Move count Pc.outside count Pc.writing
  exchange_write : Move count Pc.writing (write_exchange count).0 (write_exchange count).1
  leave_write : Move count Pc.holds_write empty Pc.outside

-- One thread of a list moves.
pub data Step (count : ℕ) : List Pc → ℕ → List Pc → Type 0 where
  here :
      {p p' : Pc} {ts : List Pc} {count' : ℕ}
      → Move count p count' p'
      → Step count (p ∷ ts) count' (p' ∷ ts)
  there :
      {p : Pc} {ts ts' : List Pc} {count' : ℕ}
      → Step count ts count' ts'
      → Step count (p ∷ ts) count' (p ∷ ts')

-- What the threads `ts`, all outside at first, can reach, from the constructor's `count_` on.
pub data Reach (ts : List Pc) : ℕ → List Pc → Type 0 where
  start : Reach ts 0 ts
  later :
      {count count' : ℕ} {now next : List Pc}
      → Reach ts count now
      → Step count now count' next
      → Reach ts count' next
