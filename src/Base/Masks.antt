-- ===== src/Base/Masks.antt =====
-- Digits of `bit_and` and `bit_or` of any two numbers, and masks of many digits.
use Prim.Native.Nat.{
  ℕ, ◌+◌, zero, suc, ◌-◌, ◌*◌, ◌/◌, ◌%◌, ◌^◌, ◌<◌, ◌≤◌, min, max, bit_and, bit_or, bit_and-bitwise,
}
use mathlib.Core.Path.{◌≡◌, ◌∙◌}
use native.Mathlib.Omega.{arith}
use native.Mathlib.Nat.{pow-suc}
use dubuframework.Base.Bits.{
  bit, bit_and_step, bit_or_step, mul-pow_suc, pow_pos, and-zero_count, or-zero_count,
}

-- A mask of all digits
pub bit_and-all : (k x : ℕ) → x < 2 ^ k → bit_and x (2 ^ k - 1) ≡ x
bit_and-all zero x lt = and-zero_count x x (omega arith) ∙ omega arith
bit_and-all (suc k) x lt =
    let half : (2 ^ suc k - 1) / 2 ≡ 2 ^ k - 1 = omega (arith, pow-suc 2 k, pow_pos k) in
    let odd : (2 ^ suc k - 1) % 2 ≡ 1 = omega (arith, pow-suc 2 k, pow_pos k) in
    let rest : bit_and (x / 2) (2 ^ k - 1) ≡ x / 2 =
      bit_and-all k (x / 2) (omega (arith, pow-suc 2 k)) in
    rw (bit_and_step x (2 ^ suc k - 1), half, odd, rest) (omega arith)

-- Numbers with no digit in common
pub bit_and-apart : (k x m : ℕ) → x < 2 ^ k → bit_and x (m * 2 ^ k) ≡ 0
bit_and-apart zero x m lt = let e : x ≡ 0 = omega arith in rw e (bit_and-bitwise 0 (m * 1))
bit_and-apart (suc k) x m lt =
    let half : m * 2 ^ suc k / 2 ≡ m * 2 ^ k = omega (arith, mul-pow_suc m k) in
    let even : m * 2 ^ suc k % 2 ≡ 0 = omega (arith, mul-pow_suc m k) in
    let rest = bit_and-apart k (x / 2) m (omega (arith, pow-suc 2 k)) in
    rw (bit_and_step x (m * 2 ^ suc k), half, even, rest) (omega arith)

-- ... are added by `bit_or`.
pub bit_or-apart : (k x m : ℕ) → x < 2 ^ k → bit_or (m * 2 ^ k) x ≡ m * 2 ^ k + x
bit_or-apart zero x m lt =
    let e : x ≡ 0 = omega arith in rw e (omega (arith, or-zero_count (m * 1) (m * 1) (omega arith)))
bit_or-apart (suc k) x m lt =
    let half : m * 2 ^ suc k / 2 ≡ m * 2 ^ k = omega (arith, mul-pow_suc m k) in
    let even : m * 2 ^ suc k % 2 ≡ 0 = omega (arith, mul-pow_suc m k) in
    let rest = bit_or-apart k (x / 2) m (omega (arith, pow-suc 2 k)) in
    rw (bit_or_step (m * 2 ^ suc k) x, half, even, rest) (omega (arith, mul-pow_suc m k))

pub or-zero_left : (n a : ℕ) → a ≤ n → bit_or 0 a ≡ a
or-zero_left n zero h = omega arith
or-zero_left zero (suc a) h = absurd (omega arith)
or-zero_left (suc n) (suc a) h =
    omega (arith, bit_or_step 0 (suc a), or-zero_left n (suc a / 2) (omega arith))

pub bit_or-above : (k x m : ℕ) → x < 2 ^ k → bit_or x (m * 2 ^ k) ≡ m * 2 ^ k + x
bit_or-above zero x m lt =
    let e : x ≡ 0 = omega arith in rw e (omega (arith, or-zero_left (m * 1) (m * 1) (omega arith)))
bit_or-above (suc k) x m lt =
    let half : m * 2 ^ suc k / 2 ≡ m * 2 ^ k = omega (arith, mul-pow_suc m k) in
    let even : m * 2 ^ suc k % 2 ≡ 0 = omega (arith, mul-pow_suc m k) in
    let rest = bit_or-above k (x / 2) m (omega (arith, pow-suc 2 k)) in
    rw (bit_or_step x (m * 2 ^ suc k), half, even, rest) (omega (arith, mul-pow_suc m k))

pub bit-and : (a b k : ℕ) → bit (bit_and a b) k ≡ min (bit a k) (bit b k)
bit-and a b zero = omega (arith, bit_and_step a b)
bit-and a b (suc k) =
    let half : bit_and a b / 2 ≡ bit_and (a / 2) (b / 2) = omega (arith, bit_and_step a b) in
    rw half (bit-and (a / 2) (b / 2) k)

pub bit-or : (a b k : ℕ) → bit (bit_or a b) k ≡ max (bit a k) (bit b k)
bit-or a b zero = omega (arith, bit_or_step a b)
bit-or a b (suc k) =
    let half : bit_or a b / 2 ≡ bit_or (a / 2) (b / 2) = omega (arith, bit_or_step a b) in
    rw half (bit-or (a / 2) (b / 2) k)

-- A number of `k` digits is known by its digits.
pub bits-none : (k x : ℕ) → x < 2 ^ k → ((j : ℕ) → j < k → bit x j ≡ 0) → x ≡ 0
bits-none zero x lt off = omega arith
bits-none (suc k) x lt off = omega (
  arith,
  off 0 (omega arith),
  bits-none k (x / 2) (omega (arith, pow-suc 2 k)) (λ j l. off (suc j) (omega arith)),
)

pub bits-every : (k x : ℕ) → x < 2 ^ k → ((j : ℕ) → j < k → bit x j ≡ 1) → x + 1 ≡ 2 ^ k
bits-every zero x lt on = omega arith
bits-every (suc k) x lt on = omega (
  arith,
  on 0 (omega arith),
  pow-suc 2 k,
  bits-every k (x / 2) (omega (arith, pow-suc 2 k)) (λ j l. on (suc j) (omega arith)),
)

pub bit_and-lt : (k a b : ℕ) → a < 2 ^ k → bit_and a b < 2 ^ k
bit_and-lt zero a b lt = let e : a ≡ 0 = omega arith in rw (e, bit_and-bitwise 0 b) (omega arith)
bit_and-lt (suc k) a b lt = omega (
  arith,
  pow-suc 2 k,
  bit_and_step a b,
  bit_and-lt k (a / 2) (b / 2) (omega (arith, pow-suc 2 k)),
)

-- ... and by the second argument
pub bit_and-below : (k a b : ℕ) → b < 2 ^ k → bit_and a b < 2 ^ k
bit_and-below zero a b lt =
    let e : b ≡ 0 = omega arith in rw e (omega (arith, and-zero_count a a (omega arith)))
bit_and-below (suc k) a b lt = omega (
  arith,
  pow-suc 2 k,
  bit_and_step a b,
  bit_and-below k (a / 2) (b / 2) (omega (arith, pow-suc 2 k)),
)

pub bit_or-lt : (k a b : ℕ) → a < 2 ^ k → b < 2 ^ k → bit_or a b < 2 ^ k
bit_or-lt zero a b lt lt' =
    let e : a ≡ 0 = omega arith in let e' : b ≡ 0 = omega arith in rw (e, e') (omega arith)
bit_or-lt (suc k) a b lt lt' = omega (
  arith,
  pow-suc 2 k,
  bit_or_step a b,
  bit_or-lt k (a / 2) (b / 2) (omega (arith, pow-suc 2 k)) (omega (arith, pow-suc 2 k)),
)

pub bit-full : (k j : ℕ) → j < k → bit (2 ^ k - 1) j ≡ 1
bit-full zero j lt = absurd (omega arith)
bit-full (suc k) zero lt = omega (arith, pow-suc 2 k, pow_pos k)
bit-full (suc k) (suc j) lt =
    let half : (2 ^ suc k - 1) / 2 ≡ 2 ^ k - 1 = omega (arith, pow-suc 2 k, pow_pos k) in
    rw half (bit-full k j (omega arith))
