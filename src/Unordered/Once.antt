-- ===== src/Unordered/Once.antt =====
-- Any sequence of arrivals of reliable packets of no channel.
use dubuframework.Base.{ℕ, List, [], ◌∷◌, map}
use dubuframework.Packet.{Packet}
use dubuframework.Host.{Host}
use dubuframework.Sequence.{IsStream}
use dubuframework.Unordered.{Unordered, receive}
use dubuframework.Unordered.Spec.{Spec, spec_step, spec_run, AllNear}
use dubuframework.Unordered.Paths.{Refines, handle}
use dubuframework.Unordered.Exact.{receive-Exact}

module _ {S : Type 0} (h : Host S) (chunk : Packet → S → S) where
  -- One call of RecvDispatch for each packet.
  unfoldable pub receive_all : List Packet → Unordered S → Unordered S
  receive_all [] u = u
  receive_all (p ∷ ps) u = receive_all ps (receive h chunk p u).0

module _ {S : Type 0} (h : Host S) (chunk : Packet → S → S) (msg : ℕ → Packet)
    (stream : IsStream msg) where
  -- Whatever order they arrive in and however often they are sent again, each message that arrives
  -- within the window is delivered when it first does, and only then, and the code's state agrees with the
  -- specification's. Each message arrives near enough to what is received by then.
  pub receive_all-once :
      (ns : List ℕ) (s : Spec S) (u : Unordered S)
      → AllNear (handle h chunk msg stream) s ns
      → Refines h chunk msg stream s u
      → Refines h chunk msg stream
          (spec_run (handle h chunk msg stream) ns s)
          (receive_all h chunk (map msg ns) u)
  unfolding receive_all spec_run
  receive_all-once [] s u near f = f
  receive_all-once (n ∷ ns) s u near f =
      receive_all-once ns (spec_step (handle h chunk msg stream) n s) (receive h chunk (msg n) u).0
        near.1 (receive-Exact h chunk msg stream s u f n near.0).1
