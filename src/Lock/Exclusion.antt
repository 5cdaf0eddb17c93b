-- ===== src/Lock/Exclusion.antt =====
-- What the counter says of the threads, in every state that can be reached.
use dubuframework.Base.{
  ℕ, zero, suc, ◌+◌, ◌≤◌, ◌<◌, ◌≡◌, ◌⊎◌, inl, inr, refl, ap, ◌∙◌, List, [], ◌∷◌, arith, ◌==◌,
  bit_and, length, Bool-cases, ==_iff,
}
use dubuframework.Lock.{
  Pc, Move, Step, Reach, write, read_load, read_exchange, read_un_lock, write_exchange, empty,
}

abbrev pub reads : Pc → ℕ
reads Pc.outside = 0
reads Pc.reading = 0
reads (Pc.loaded e) = 0
reads Pc.writing = 0
reads Pc.holds_read = 1
reads Pc.holds_write = 0

abbrev pub writes : Pc → ℕ
writes Pc.outside = 0
writes Pc.reading = 0
writes (Pc.loaded e) = 0
writes Pc.writing = 0
writes Pc.holds_read = 0
writes Pc.holds_write = 1

-- How many threads hold the lock.
abbrev pub readers : List Pc → ℕ
readers [] = 0
readers (p ∷ ts) = reads p + readers ts

abbrev pub writers : List Pc → ℕ
writers [] = 0
writers (p ∷ ts) = writes p + writers ts

-- The counter counts the readers, or says that there is one writer and no reader.
abbrev pub IsHeld : ℕ → ℕ → ℕ → Type 0
IsHeld count r w = ((w ≡ 0) × (count ≡ r)) ⊎ ((w ≡ 1) × (r ≡ 0) × (count ≡ write))

-- A reader that has loaded the counter saw no writer.
abbrev IsLoaded : Pc → Type 0
IsLoaded Pc.outside = Unit {0}
IsLoaded Pc.reading = Unit {0}
IsLoaded (Pc.loaded e) = bit_and e write ≡ 0
IsLoaded Pc.writing = Unit {0}
IsLoaded Pc.holds_read = Unit {0}
IsLoaded Pc.holds_write = Unit {0}

abbrev AllLoaded : List Pc → Type 0
AllLoaded [] = Unit {0}
AllLoaded (p ∷ ts) = IsLoaded p × AllLoaded ts

-- At most 65535 threads: as many readers as fit below the bits of WRITE.
abbrev pub max_threads : ℕ
max_threads = 0xFFFF

abbrev Kept : ℕ → ℕ → ℕ → Pc → Type 0
Kept r w count p = IsHeld count (r + reads p) (w + writes p) × IsLoaded p

load-Kept : (r w count : ℕ) → IsHeld count (r + 0) (w + 0) → Kept r w count (read_load count)
unfolding read_load
load-Kept r w count held = elim (Bool-cases (bit_and count write == 0)) [
  | inl on ↦ rw on (held, (==_iff _ _).0 on)
  | inr off ↦ rw off (held, _)
]

exchange-Kept :
    (r w count expected : ℕ)
    → r < max_threads
    → IsHeld count (r + 0) (w + 0)
    → bit_and expected write ≡ 0
    → Kept r w (read_exchange expected count).0 (read_exchange expected count).1
unfolding read_exchange
exchange-Kept r w count expected few held no_writer = elim (Bool-cases (count == expected)) [
  | inr off ↦ rw off (held, _)
  | inl on ↦
      let e : count ≡ expected = (==_iff _ _).0 on in
      rw on (
        elim held [
          | inl (free, same) ↦ inl (omega arith, omega (arith, e, same))
          | inr (one, idle, at) ↦
              let same : expected ≡ write = omega (arith, e, at) in
              omega (arith, rw same at no_writer)
        ],
        _,
      )
]

write-Kept :
    (r w count : ℕ)
    → IsHeld count (r + 0) (w + 0)
    → Kept r w (write_exchange count).0 (write_exchange count).1
unfolding write_exchange
write-Kept r w count held = elim (Bool-cases (count == empty)) [
  | inr off ↦ rw off (held, _)
  | inl on ↦
      let e : count ≡ empty = (==_iff _ _).0 on in
      rw on (
        elim held [
          | inl (free, same) ↦ inr (omega arith, omega (arith, e, same), refl)
          | inr (one, idle, at) ↦ omega (arith, e, at)
        ],
        _,
      )
]

Move-Kept :
    {count : ℕ} {p : Pc} {count' : ℕ} {p' : Pc} (r w : ℕ)
    → r < max_threads
    → Move count p count' p'
    → Kept r w count p
    → Kept r w count' p'
unfolding read_un_lock
Move-Kept r w few Move.enter_read (held, ok) = (held, _)
Move-Kept r w few Move.load (held, ok) = load-Kept r w _ held
Move-Kept r w few (Move.exchange {expected = e}) (held, ok) = exchange-Kept r w _ e few held ok
Move-Kept r w few Move.spurious (held, ok) = (held, _)
Move-Kept r w few Move.leave_read (held, ok) = (
  elim held [
    | inl (free, same) ↦ inl (free, omega (arith, same))
    | inr (one, idle, at) ↦ omega (arith, idle)
  ],
  _,
)
Move-Kept r w few Move.enter_write (held, ok) = (held, _)
Move-Kept r w few Move.exchange_write (held, ok) = write-Kept r w _ held
Move-Kept r w few Move.leave_write (held, ok) = (
  elim held [
    | inl (free, same) ↦ omega (arith, free)
    | inr (one, idle, at) ↦ inl (omega (arith, one), omega (arith, idle))
  ],
  _,
)

reads-one : (p : Pc) → reads p ≤ 1
reads-one Pc.outside = omega arith
reads-one Pc.reading = omega arith
reads-one (Pc.loaded e) = omega arith
reads-one Pc.writing = omega arith
reads-one Pc.holds_read = omega arith
reads-one Pc.holds_write = omega arith

readers-length : (ts : List Pc) → readers ts ≤ length ts
readers-length [] = omega arith
readers-length (p ∷ ts) = omega (arith, reads-one p, readers-length ts)

IsHeld-at : {count r r' w w' : ℕ} → r ≡ r' → w ≡ w' → IsHeld count r w → IsHeld count r' w'
IsHeld-at {count} er ew held = rw (← er, ← ew) held

-- A step of one thread, with `r` readers and `w` writers among the threads before it.
Step-Kept :
    {count count' : ℕ} {ts ts' : List Pc} (r w : ℕ)
    → r + length ts ≤ max_threads
    → Step count ts count' ts'
    → IsHeld count (r + readers ts) (w + writers ts)
    → AllLoaded ts
    → IsHeld count' (r + readers ts') (w + writers ts') × AllLoaded ts'
Step-Kept r w few (Step.here {p = p} {p' = p'} {ts = ts} move) held (ok, oks) =
    let (held', ok') =
      Move-Kept (r + readers ts) (w + writers ts) (omega (arith, readers-length ts)) move
        (IsHeld-at (omega arith) (omega arith) held, ok) in
    (IsHeld-at (omega arith) (omega arith) held', (ok', oks))
Step-Kept r w few (Step.there {p = p} {ts = ts} {ts' = ts'} step) held (ok, oks) =
    let (held', oks') =
      Step-Kept (r + reads p) (w + writes p) (omega (arith, reads-one p)) step
        (IsHeld-at (omega arith) (omega arith) held) oks in
    (IsHeld-at (omega arith) (omega arith) held', (ok, oks'))

length-Step :
    {count count' : ℕ} {ts ts' : List Pc} → Step count ts count' ts' → length ts' ≡ length ts
length-Step (Step.here move) = refl
length-Step (Step.there step) = ap suc (length-Step step)

-- `n` threads that do not use the lock yet
abbrev pub threads : ℕ → List Pc
threads zero = []
threads (suc n) = Pc.outside ∷ threads n

record Invariant (n count : ℕ) (now : List Pc) : Type 0 where
  held : IsHeld count (readers now) (writers now)
  oks : AllLoaded now
  same : length now ≡ n

threads-Invariant : (n : ℕ) → Invariant n 0 (threads n)
threads-Invariant zero = record { held = inl (refl, refl); oks = _; same = refl }
threads-Invariant (suc n) =
    let v = threads-Invariant n in
    record {
      held = IsHeld-at (omega arith) (omega arith) v.held;
      oks = (_, v.oks);
      same = ap suc v.same;
    }

Reach-Invariant :
    {n count : ℕ} {now : List Pc}
    → n ≤ max_threads
    → Reach (threads n) count now
    → Invariant n count now
Reach-Invariant {n} few Reach.start = threads-Invariant n
Reach-Invariant few (Reach.later reach step) =
    let v = Reach-Invariant few reach in
    let (held', oks') =
      Step-Kept 0 0 (omega (arith, v.same)) step (IsHeld-at (omega arith) (omega arith) v.held)
        v.oks in
    record {
      held = IsHeld-at (omega arith) (omega arith) held';
      oks = oks';
      same = length-Step step ∙ v.same;
    }

-- There are as many readers as threads at most.
pub Reach-few :
    {n count : ℕ} {now : List Pc}
    → n ≤ max_threads
    → Reach (threads n) count now
    → readers now ≤ max_threads
Reach-few {now = now} few reach =
    omega (arith, readers-length now, (Reach-Invariant few reach).same)

-- Of up to 65535 threads, however their steps interleave, at most one holds the lock for writing,
-- and then none for reading; the counter counts the readers, or is WRITE.
pub Reach-IsHeld :
    {n count : ℕ} {now : List Pc}
    → n ≤ max_threads
    → Reach (threads n) count now
    → IsHeld count (readers now) (writers now)
Reach-IsHeld few reach = (Reach-Invariant few reach).held
