-- ===== src/Chunk/Flags.antt =====
-- The flag of part `i` of `n`: its own bit, and for the last part that bit and all above it.
use dubuframework.Base.{
  digit, lt→ltb, ℕ, zero, suc, ◌+◌, ◌-◌, ◌*◌, ◌/◌, ◌^◌, ◌≤◌, ◌<◌, ◌≡◌, ◌≢◌, refl, ◌∙◌, inl, inr,
  Bool, true, false, arith, ltb, leb, ◌==◌, ==_iff, ne→==, ◌&&◌, if◌then◌else◌, bit, u16, bit_and,
  bit-zero, bit_and-one, Bool-cases,
}
use native.Mathlib.Decide.{ℕ_discrete}
use dubuframework.Chunk.{lowest_bit, chunck_max_size}

-- 0xFFFF shifted `i` times
unfoldable pub last_flag : ℕ → ℕ
last_flag zero = 0xFFFF
last_flag (suc i) = u16 (last_flag i * 2)

abbrev pub part_flag : ℕ → ℕ → ℕ
part_flag n i = if i + 1 == n then last_flag i else u16 (2 ^ i)

-- The part whose flag holds bit `j`.
abbrev pub owner : ℕ → ℕ → ℕ
owner n j = if ltb j (n - 1) then j else n - 1

and-true : (a b : Bool) → (a && b) ≡ true → (a ≡ true) × (b ≡ true)
and-true true b all = (refl, all)
and-true false b all = cc all

unfoldable all_below : ℕ → (ℕ → Bool) → Bool
all_below zero test = true
all_below (suc n) test = test n && all_below n test

all_below_sound :
    (n : ℕ) (test : ℕ → Bool) → all_below n test ≡ true → (j : ℕ) → j < n → test j ≡ true
unfolding all_below
all_below_sound zero test all j lt = absurd (omega arith)
all_below_sound (suc n) test all j lt = elim (ℕ_discrete j n) [
  | yes e ↦ rw e (and-true _ _ all).0
  | no ne ↦ all_below_sound n test (and-true _ _ all).1 j (omega arith)
]

abbrev single_test : ℕ → Bool
single_test i = all_below 16 (λ j. bit (u16 (2 ^ i)) j == digit (i == j))

abbrev last_test : ℕ → Bool
last_test i = all_below 16 (λ j. bit (last_flag i) j == digit (leb i j))

single_ok : all_below 16 single_test ≡ true
unfolding all_below
single_ok = refl

last_ok : all_below 16 last_test ≡ true
unfolding all_below last_flag
last_ok = refl

-- Which digits a part's flag has.
pub part_flag-bit :
    (n i j : ℕ) → n ≤ 16 → i < n → j < 16 → bit (part_flag n i) j ≡ digit (owner n j == i)
part_flag-bit n i j few lt small = elim (ℕ_discrete (i + 1) n) [
  | yes e ↦
      let t : (i + 1 == n) ≡ true = (==_iff _ _).1 e in
      let b =
        (==_iff _ _).0
          (all_below_sound 16 _ (all_below_sound 16 last_test last_ok i (omega arith)) j small) in
      let same : leb i j ≡ (owner n j == i) = ground arith in rw (t, b, same) refl
  | no ne ↦
      let t : (i + 1 == n) ≡ false = ne→== _ _ ne in
      let b =
        (==_iff _ _).0 (
          all_below_sound 16 _ (all_below_sound 16 single_test single_ok i (omega arith)) j
            small) in
      let same : (i == j) ≡ (owner n j == i) = ground arith in rw (t, b, same) refl
]

last_flag-lt : (i : ℕ) → last_flag i < 2 ^ 16
unfolding last_flag
last_flag-lt zero = omega arith
last_flag-lt (suc i) = omega arith

pub part_flag-lt : (n i : ℕ) → part_flag n i < 2 ^ 16
part_flag-lt n i = elim (Bool-cases (i + 1 == n)) [
  | inl on ↦ rw on (last_flag-lt i)
  | inr off ↦ rw off (omega arith)
]

-- The loop finds the lowest digit.
pub lowest_bit_lem :
    (fuel count flag i : ℕ)
    → i < fuel
    → bit flag i ≡ 1
    → ((j : ℕ) → j < i → bit flag j ≡ 0)
    → lowest_bit fuel count flag ≡ count + i
unfolding lowest_bit
lowest_bit_lem zero count flag i lt on off = absurd (omega arith)
lowest_bit_lem (suc fuel) count flag zero lt on off =
    let a : ltb 0 flag ≡ true = ground arith in
    let b : ltb 0 (bit_and flag 1) ≡ true = rw (bit_and-one flag) (ground arith) in
    rw (a, b) (omega arith)
lowest_bit_lem (suc fuel) count flag (suc i) lt on off =
    let ne : flag ≢ 0 = λ z. omega (arith, rw z at on, bit-zero i) in
    let a : ltb 0 flag ≡ true = ground arith in
    let b : ltb 0 (bit_and flag 1) ≡ false =
      rw (bit_and-one flag) (ground (arith, off 0 (omega arith))) in
    rw (a, b)
      (lowest_bit_lem fuel (count + 1) (flag / 2) i (omega arith) on
          (λ j l. off (suc j) (omega arith))
        ∙ omega arith)

module _ (n i : ℕ) (few : n ≤ 16) (lt : i < n) where
  own : bit (part_flag n i) i ≡ 1
  own =
      part_flag-bit n i i few lt (omega arith)
      ∙ (let e : (owner n i == i) ≡ true = ground arith in rw e refl)

  pub part_flag-place : lowest_bit chunck_max_size 0 (part_flag n i) ≡ i
  part_flag-place =
      lowest_bit_lem 16 0 (part_flag n i) i (omega arith) own (λ j l.
        part_flag-bit n i j few lt (omega arith)
        ∙ (let e : (owner n j == i) ≡ false = ground arith in rw e refl))
      ∙ omega arith

  pub part_flag-positive : ltb 0 (part_flag n i) ≡ true
  part_flag-positive =
      let ne : part_flag n i ≢ 0 = λ z. omega (arith, rw z at own, bit-zero i) in
      lt→ltb 0 (part_flag n i) (omega arith)
