-- ===== src/Base/Bits.antt =====
-- The binary digits of `bit_and` and `bit_or` at variables, from the digit recursion that the
-- native operations stand for.
use Prim.Native.Nat.{
  ℕ, zero, suc, ◌+◌, ◌*◌, ◌/◌, ◌%◌, ◌^◌, ◌≤◌, ◌<◌, min, max, bit_and, bit_or, digits,
  bit_and-bitwise, bit_or-bitwise,
}
use mathlib.Core.Path.{◌≡◌, refl, sym, ap, ◌∙◌}
use mathlib.Core.Logic.{◌≢◌}
use mathlib.Core.Bool.{true, false}
use native.Mathlib.Omega.{arith}
use dubuframework.Base.Tests.{◌==◌, ==_iff, ne→==}
use native.Mathlib.Nat.{pow-suc, mul_assoc}

-- digit `k` of `x`
abbrev pub bit : ℕ → ℕ → ℕ
bit x zero = x % 2
bit x (suc k) = bit (x / 2) k

-- Any count of digits that is large enough gives the same number.
digits_count :
    (z : ℕ → ℕ) (f : ℕ → ℕ → ℕ) (n m a b : ℕ) → a ≤ n → a ≤ m → digits z f n a b ≡ digits z f m a b
digits_count z f zero zero a b p q = refl
digits_count z f zero (suc m) zero b p q = refl
digits_count z f zero (suc m) (suc a) b p q = absurd (omega arith)
digits_count z f (suc n) zero zero b p q = refl
digits_count z f (suc n) zero (suc a) b p q = absurd (omega arith)
digits_count z f (suc n) (suc m) zero b p q = refl
digits_count z f (suc n) (suc m) (suc a) b p q =
    omega (arith, digits_count z f n m (suc a / 2) (b / 2) (omega arith) (omega arith))

pub bit_and_step : (a b : ℕ) → bit_and a b ≡ bit_and (a / 2) (b / 2) * 2 + min (a % 2) (b % 2)
bit_and_step zero b = omega (arith, bit_and-bitwise 0 b, bit_and-bitwise 0 (b / 2))
bit_and_step (suc a) b = omega (
  arith,
  bit_and-bitwise (suc a) b,
  bit_and-bitwise (suc a / 2) (b / 2),
  digits_count (λ _. 0) min a (suc a / 2) (suc a / 2) (b / 2) (omega arith) (omega arith),
)

pub bit_or_step : (a b : ℕ) → bit_or a b ≡ bit_or (a / 2) (b / 2) * 2 + max (a % 2) (b % 2)
bit_or_step zero b = omega (arith, bit_or-bitwise 0 b, bit_or-bitwise 0 (b / 2))
bit_or_step (suc a) b = omega (
  arith,
  bit_or-bitwise (suc a) b,
  bit_or-bitwise (suc a / 2) (b / 2),
  digits_count (λ c. c) max a (suc a / 2) (suc a / 2) (b / 2) (omega arith) (omega arith),
)

pub and-zero_count : (n a : ℕ) → a ≤ n → bit_and a 0 ≡ 0
and-zero_count n zero h = refl
and-zero_count zero (suc a) h = absurd (omega arith)
and-zero_count (suc n) (suc a) h =
    omega (arith, bit_and_step (suc a) 0, and-zero_count n (suc a / 2) (omega arith))

pub or-zero_count : (n a : ℕ) → a ≤ n → bit_or a 0 ≡ a
or-zero_count n zero h = refl
or-zero_count zero (suc a) h = absurd (omega arith)
or-zero_count (suc n) (suc a) h =
    omega (arith, bit_or_step (suc a) 0, or-zero_count n (suc a / 2) (omega arith))

pub pow_pos : (k : ℕ) → 0 < 2 ^ k
pow_pos zero = omega arith
pow_pos (suc k) = omega (arith, pow-suc 2 k, pow_pos k)

pub bit-lt : (x k : ℕ) → bit x k < 2
bit-lt x zero = omega arith
bit-lt x (suc k) = bit-lt (x / 2) k

pow_half : (k : ℕ) → 2 ^ suc k / 2 ≡ 2 ^ k
pow_half k = omega arith

or-half : (x k : ℕ) → bit_or x (2 ^ suc k) / 2 ≡ bit_or (x / 2) (2 ^ k)
or-half x k = rw (bit_or_step x (2 ^ suc k), pow_half k) (omega arith)

or-half_one : (x : ℕ) → bit_or x 1 / 2 ≡ x / 2
or-half_one x = omega (arith, bit_or_step x 1, or-zero_count (x / 2) (x / 2) (omega arith))

and-pow_suc : (x k : ℕ) → bit_and x (2 ^ suc k) ≡ bit_and (x / 2) (2 ^ k) * 2
and-pow_suc x k = rw (bit_and_step x (2 ^ suc k), pow_half k) (omega arith)

pub mul-pow_suc : (b k : ℕ) → b * 2 ^ k * 2 ≡ b * 2 ^ suc k
mul-pow_suc b k = mul_assoc b (2 ^ k) 2 ∙ ap (λ (t : ℕ). b * t) (sym (pow-suc 2 k))

-- A mask of one digit reads that digit.
pub bit_and-pow : (x k : ℕ) → bit_and x (2 ^ k) ≡ bit x k * 2 ^ k
bit_and-pow x zero = omega (arith, bit_and_step x 1, and-zero_count (x / 2) (x / 2) (omega arith))
bit_and-pow x (suc k) =
    and-pow_suc x k
    ∙ (ap (λ (t : ℕ). t * 2) (bit_and-pow (x / 2) k) ∙ mul-pow_suc (bit (x / 2) k) k)

pub bit_and-one : (x : ℕ) → bit_and x 1 ≡ x % 2
bit_and-one x = omega (arith, bit_and_step x 1, and-zero_count (x / 2) (x / 2) (omega arith))

-- Setting one digit leaves the others.
pub bit-or-pow_self : (x k : ℕ) → bit (bit_or x (2 ^ k)) k ≡ 1
bit-or-pow_self x zero = omega (arith, bit_or_step x 1, or-zero_count (x / 2) (x / 2) (omega arith))
bit-or-pow_self x (suc k) = rw (or-half x k) (bit-or-pow_self (x / 2) k)

pub bit-or-pow_ne : (x k j : ℕ) → k ≢ j → bit (bit_or x (2 ^ k)) j ≡ bit x j
bit-or-pow_ne x zero zero h = absurd (h refl)
bit-or-pow_ne x zero (suc j) h = ap (λ t. bit t j) (or-half_one x)
bit-or-pow_ne x (suc k) zero h = omega (arith, bit_or_step x (2 ^ suc k))
bit-or-pow_ne x (suc k) (suc j) h = rw (or-half x k) (bit-or-pow_ne (x / 2) k j (λ e. h (ap suc e)))

pub bit-zero : (k : ℕ) → bit 0 k ≡ 0
bit-zero zero = refl
bit-zero (suc k) = bit-zero k

-- `(x & bit) == bit`, for a mask of one digit.
pub mask_set : (x k : ℕ) → bit x k ≡ 1 → (bit_and x (2 ^ k) == 2 ^ k) ≡ true
mask_set x k e =
    let p : bit_and x (2 ^ k) ≡ 2 ^ k = bit_and-pow x k ∙ (rw e (omega arith)) in (==_iff _ _).1 p

pub mask_clear : (x k : ℕ) → bit x k ≡ 0 → (bit_and x (2 ^ k) == 2 ^ k) ≡ false
mask_clear x k e =
    let p : bit_and x (2 ^ k) ≡ 0 = bit_and-pow x k ∙ (rw e (omega arith)) in
    ne→== _ _ (omega (arith, p, pow_pos k))
