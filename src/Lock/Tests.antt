-- ===== src/Lock/Tests.antt =====
-- Two threads: the first reads, the second tries to write.
use dubuframework.Base.{List, [], ◌∷◌, arith}
use dubuframework.Lock.{Pc, Move, Step, Reach, read_load, read_exchange, write_exchange}
use dubuframework.Lock.Exclusion.{readers, writers, IsHeld, threads, Reach-IsHeld}

abbrev now : List Pc
now = Pc.holds_read ∷ Pc.writing ∷ []

reader_in : Reach (threads 2) 1 now
unfolding read_load read_exchange write_exchange
reader_in =
    Reach.later
      (Reach.later
        (Reach.later
          (Reach.later (Reach.later Reach.start (Step.here Move.enter_read)) (Step.here Move.load))
          (Step.there (Step.here Move.enter_write)))
        (Step.here Move.exchange))
      (Step.there (Step.here Move.exchange_write))

Reach-IsHeld_example : IsHeld 1 (readers now) (writers now)
Reach-IsHeld_example = Reach-IsHeld {n = 2} (omega arith) reader_in
