-- ===== src/Sequence.antt =====
-- Sequence numbers, which are message numbers modulo 2 ^ 32, in the tests of the receiving code.
use dubuframework.Base.{
  ℕ, ◌+◌, ◌-◌, ◌^◌, ◌≤◌, ◌<◌, ◌≡◌, ◌≢◌, ◌⊎◌, true, false, arith, ltb, leb, ◌==◌, lt→ltb, le→ltb,
  u32, sub32, add32,
}
use dubuframework.Packet.{Packet}
use dubuframework.PacketState.{window_count}

-- The sender's stream: message `n` goes out under the sequence number `n` modulo 2 ^ 32.
pub record IsStream (msg : ℕ → Packet) : Type 0 where
  pub numbered : (n : ℕ) → (msg n).header.sequence_no ≡ u32 n

-- Message `n` is near enough to `k` that its 32 bits cannot be mistaken for those of a message of
-- another round.
abbrev pub IsNear : ℕ → ℕ → Type 0
IsNear k n = (k + window_count ≤ n + 2 ^ 32) × (n + window_count ≤ k + 2 ^ 32)

module _ (k n : ℕ) where
  pub again_true : n ≤ k → k < n + window_count → ltb (sub32 (u32 k) (u32 n)) window_count ≡ true
  again_true le lt = lt→ltb _ _ (omega arith)

  pub again_false :
      IsNear k n
      → (n + window_count ≤ k) ⊎ (k + 1 ≤ n)
      → ltb (sub32 (u32 k) (u32 n)) window_count ≡ false
  again_false near far = le→ltb _ _ (omega arith)

  pub next_false : IsNear k n → n ≢ k + 1 → (u32 n == add32 (u32 k) 1) ≡ false
  next_false near ne = let e : u32 n ≢ add32 (u32 k) 1 = omega arith in ground arith

  pub next_true : n ≡ k + 1 → (u32 n == add32 (u32 k) 1) ≡ true
  next_true e = let e : u32 n ≡ add32 (u32 k) 1 = omega arith in ground arith

  pub del_far :
      IsNear k n
      → (n + window_count ≤ k) ⊎ (k + window_count ≤ n)
      → leb window_count (sub32 (u32 n) (u32 k)) ≡ true
  del_far near far = let e : window_count ≤ sub32 (u32 n) (u32 k) = omega arith in ground arith

  pub del_within : k ≤ n → n < k + window_count → sub32 (u32 n) (u32 k) ≡ n - k
  del_within le lt = omega arith

  pub del_ahead : k ≤ n → n < k + window_count → leb window_count (sub32 (u32 n) (u32 k)) ≡ false
  del_ahead le lt = let e : sub32 (u32 n) (u32 k) < window_count = omega arith in ground arith

  -- `n` replaces the highest message `m` exactly if it is higher.
  pub raise_true :
      (m : ℕ)
      → k ≤ m
      → m < k + window_count
      → n < k + window_count
      → m ≤ n
      → ltb (sub32 (u32 n) (u32 m)) window_count ≡ true
  raise_true m a b c d = lt→ltb _ _ (omega arith)

  pub raise_false :
      (m : ℕ)
      → m < k + window_count
      → k ≤ n
      → n < m
      → ltb (sub32 (u32 n) (u32 m)) window_count ≡ false
  raise_false m a b c = le→ltb _ _ (omega arith)
