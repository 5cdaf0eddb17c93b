-- ===== src/Pending/Repeat.antt =====
-- IsRepeat against the map of the buffers that wait.
use dubuframework.Base.{
  ℕ, ◌+◌, ◌≡◌, ◌≢◌, ◌⊎◌, ap, ◌∙◌, inl, inr, sym, true, false, Option, arith, ◌==◌, not, ==_iff,
  ne→==, u32,
}
use dubuframework.Pending.{SendState, is_null, is_repeat}
use dubuframework.Pending.Window.{Waits}

-- IsRepeat tells whether the first message of the window waits, given that the window starts at a
-- waiting packet or is empty, as it does after AckProcess.
is_repeat-Waits :
    (live : ℕ → Option ℕ) (k len : ℕ) (s : SendState)
    → Waits live k len s
    → (0 ≡ len) ⊎ (is_null (live k) ≡ false)
    → is_repeat s ≡ not (is_null (live k))
unfolding is_repeat
is_repeat-Waits live k len s v (inl z) =
    let e : s.local_window_start ≡ s.local_seqence =
      v.start_at ∙ (ap u32 (let e : k ≡ k + len = omega arith in e) ∙ sym v.end_at) in
    let t : (s.local_window_start == s.local_seqence) ≡ true = (==_iff _ _).1 e in
    rw (t, v.beyond k (omega arith))
is_repeat-Waits live k len s v (inr waits) =
    let z : len ≢ 0 = λ z. cc (waits, v.beyond k (omega (arith, z))) in
    let ne : s.local_window_start ≢ s.local_seqence =
      λ e. omega (arith, e, z, v.start_at, v.end_at, v.within) in
    rw (ne→== _ _ ne, waits)
