-- ===== src/Window.antt =====
-- The window of a reliable receiver, with no 32-bit numbers: a message is received if it arrives
-- at most 63 behind or ahead of the last one up to which all are received.
use dubuframework.Base.{
  ℕ, zero, suc, ◌+◌, ◌≤◌, ◌≡◌, refl, ◌∙◌, inl, inr, Bool, true, false, arith, ltb, ◌&&◌,
  if◌then◌else◌, update, Bool-cases,
}
use native.Mathlib.Decide.{dec_lt}
use dubuframework.PacketState.{window_count}

-- Message `n` lies within the window round message `k`.
abbrev pub in_window : ℕ → ℕ → Bool
in_window k n = ltb k (n + window_count) && ltb n (k + window_count)

-- The messages received once message `n` has arrived: one out of the window is refused.
abbrev pub admit : ℕ → ℕ → (ℕ → Bool) → ℕ → Bool
admit k n got = if in_window k n then update got n true else got

-- Goes on from `k` as long as the next message is received, `fuel` times at most.
unfoldable pub advance : ℕ → (ℕ → Bool) → ℕ → ℕ
advance zero got k = k
advance (suc fuel) got k = elim (got (k + 1)) [ true ↦ advance fuel got (k + 1) | false ↦ k ]

-- No message past the window is admitted.
pub admit-beyond :
    (k n : ℕ) (got : ℕ → Bool)
    → ((j : ℕ) → k + window_count ≤ j → got j ≡ false)
    → (j : ℕ) → k + window_count ≤ j
    → admit k n got j ≡ false
admit-beyond k n got beyond j le = ground (arith, beyond j le)

-- The count of messages that are ready is where the first gap is.
pub advance_lem :
    (fuel m : ℕ) (got : ℕ → Bool) (k : ℕ)
    → m ≤ fuel
    → ((n : ℕ) → n ≤ k + m → got n ≡ true)
    → got (k + m + 1) ≡ false
    → advance fuel got k ≡ k + m
unfolding advance
advance_lem zero m got k le all gap = omega arith
advance_lem (suc fuel) zero got k le all gap =
    let e : got (k + 1) ≡ false = ground arith in rw (e, advance) (omega arith)
advance_lem (suc fuel) (suc m) got k le all gap =
    let e : got (k + 1) ≡ true = all (k + 1) (omega arith) in
    rw (e, advance)
      (advance_lem fuel m got (k + 1) (omega arith) (λ n le. all n (omega arith)) (ground arith)
        ∙ omega arith)

-- With a gap within the fuel, `advance` ends at the first one.
pub record EndsAtGap (got : ℕ → Bool) (k k' : ℕ) : Type 0 where
  pub forth : k ≤ k'
  pub all : (n : ℕ) → n ≤ k' → got n ≡ true
  pub gap : got (k' + 1) ≡ false

pub all_suc :
    (got : ℕ → Bool) (k : ℕ)
    → ((n : ℕ) → n ≤ k → got n ≡ true)
    → got (k + 1) ≡ true
    → (n : ℕ) → n ≤ k + 1
    → got n ≡ true
all_suc got k all on n le = elim (dec_lt n (k + 1)) [
  | yes p ↦ all n (omega arith)
  | no p ↦ let e : n ≡ k + 1 = omega arith in rw e on
]

pub advance-EndsAtGap :
    (fuel : ℕ) (got : ℕ → Bool) (k : ℕ)
    → ((n : ℕ) → n ≤ k → got n ≡ true)
    → got (k + fuel) ≡ false
    → EndsAtGap got k (advance fuel got k)
unfolding advance
advance-EndsAtGap zero got k all far = cc (all (k + 0) (omega arith))
advance-EndsAtGap (suc fuel) got k all far = elim (Bool-cases (got (k + 1))) [
  | inr off ↦ rw (off, advance) (record { forth = omega arith; all = all; gap = off })
  | inl on ↦
      let e : k + suc fuel ≡ k + 1 + fuel = omega arith in
      let ends = advance-EndsAtGap fuel got (k + 1) (all_suc got k all on) (rw e at far) in
      rw (on, advance)
        (record { forth = omega (arith, ends.forth); all = ends.all; gap = ends.gap })
]

-- There is one such end.
pub gap_unique : (got : ℕ → Bool) {k j a b : ℕ} → EndsAtGap got k a → EndsAtGap got j b → a ≡ b
gap_unique got {a = a} {b = b} p q = elim (dec_lt a b) [
  | yes lt ↦ cc (p.gap, q.all (a + 1) (omega arith))
  | no ge ↦ elim (dec_lt b a) [
    | yes lt ↦ cc (q.gap, p.all (b + 1) (omega arith))
    | no le ↦ omega arith
  ]
]

-- It is the same from the next message on, if that is received.
pub advance_skip :
    (fuel : ℕ) (got : ℕ → Bool) (k : ℕ)
    → ((n : ℕ) → n ≤ k + 1 → got n ≡ true)
    → got (k + fuel) ≡ false
    → got (k + 1 + fuel) ≡ false
    → advance fuel got (k + 1) ≡ advance fuel got k
advance_skip fuel got k all far far' =
    gap_unique got (advance-EndsAtGap fuel got (k + 1) all far')
      (advance-EndsAtGap fuel got k (λ n le. all n (omega arith)) far)

pub advance_stays :
    (fuel : ℕ) (got : ℕ → Bool) (k : ℕ) → got (k + 1) ≡ false → advance fuel got k ≡ k
unfolding advance
advance_stays zero got k gap = refl
advance_stays (suc fuel) got k gap = rw (gap, advance)
