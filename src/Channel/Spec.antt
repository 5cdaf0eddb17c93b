-- ===== src/Channel/Spec.antt =====
-- What an ordered channel promises, with no window array and no 32-bit numbers: a message is
-- received if it arrives within the window, and messages are delivered as far as all are received.
use dubuframework.Base.{ℕ, Bool, List, [], ◌∷◌}
use dubuframework.PacketState.{window_count}
use dubuframework.Window.{admit, advance}
use dubuframework.Sequence.{IsNear}

pub record Spec : Type 0 where
  pub upto : ℕ  -- messages up to this one are delivered
  pub got : ℕ → Bool  -- the messages received

unfoldable pub spec_step : ℕ → Spec → Spec
unfolding advance
spec_step n s =
    let got = admit s.upto n s.got in record { upto = advance window_count got s.upto; got = got }

unfoldable pub spec_run : List ℕ → Spec → Spec
spec_run [] s = s
spec_run (n ∷ ns) s = spec_run ns (spec_step n s)

-- Every message arrives near enough to what has been delivered by then.
abbrev pub AllNear : Spec → List ℕ → Type 0
AllNear s [] = Unit {0}
AllNear s (n ∷ ns) = IsNear s.upto n × AllNear (spec_step n s) ns
