-- ===== src/Unordered/Spec.antt =====
-- What a reliable receiver of no channel promises: a message is delivered when it first arrives
-- within the window, and never again.
use dubuframework.Base.{ℕ, Bool, not, ◌&&◌, List, [], ◌∷◌, if◌then◌else◌}
use dubuframework.PacketState.{window_count}
use dubuframework.Sequence.{IsNear}
use dubuframework.Window.{in_window, admit, advance}

pub record Spec (S : Type 0) : Type 0 where
  pub upto : ℕ  -- messages up to this one are received
  pub got : ℕ → Bool  -- the messages received
  pub host : S

-- `handle n` is what the delivery of message `n` does.
module _ {S : Type 0} (handle : ℕ → S → S) where
  unfoldable pub spec_step : ℕ → Spec S → Spec S
  spec_step n s =
      let got = admit s.upto n s.got in
      record {
        upto = advance window_count got s.upto;
        got = got;
        host = if in_window s.upto n && not (s.got n) then handle n s.host else s.host;
      }

  unfoldable pub spec_run : List ℕ → Spec S → Spec S
  spec_run [] s = s
  spec_run (n ∷ ns) s = spec_run ns (spec_step n s)

  -- Every message arrives near enough to what has been received by then.
  abbrev pub AllNear : Spec S → List ℕ → Type 0
  AllNear s [] = Unit {0}
  AllNear s (n ∷ ns) = IsNear s.upto n × AllNear (spec_step n s) ns
