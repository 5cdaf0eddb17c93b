-- ===== src/Unordered/Paths.antt =====
-- The paths of the branch, as equations: which tests a message of a given number passes.
use dubuframework.Base.{
  ℕ, ◌+◌, ◌-◌, ◌^◌, ◌≤◌, ◌<◌, ◌≡◌, ◌⊎◌, refl, true, false, arith, if◌then◌else◌, ltb, u32, sub32,
  bit_or, mask_set, mask_clear,
}
use dubuframework.Packet.{Packet}
use dubuframework.PacketState.{window_count}
use dubuframework.Host.{Host}
use dubuframework.Sequence.{
  IsNear, IsStream, again_true, again_false, next_false, next_true, del_far, del_within, del_ahead,
}
use dubuframework.Unordered.{Unordered, deliver, receive_next, receive_ahead, receive}
use dubuframework.Unordered.Spec.{Spec}
use dubuframework.Unordered.Arrive.{digit_at}
use dubuframework.Unordered.Mask.{IsMask}

module _ {S : Type 0} (h : Host S) (chunk : Packet → S → S) (msg : ℕ → Packet)
    (stream : IsStream msg) where
  -- The code's state refines the specification's.
  pub record Refines (s : Spec S) (u : Unordered S) : Type 0 where
    pub mask : IsMask s.got s.upto u.rps
    pub gap : s.got (s.upto + 1) ≡ false
    pub same_host : u.host ≡ s.host

  abbrev pub handle : ℕ → S → S
  handle n s = deliver h chunk (msg n) s

  module _ (s : Spec S) (u : Unordered S) (f : Refines s u) where
    pub receive_again :
        (n : ℕ) → n ≤ s.upto → s.upto < n + window_count → receive h chunk (msg n) u ≡ (u, true)
    unfolding receive
    receive_again n le lt = rw (stream.numbered n, f.mask.recv_at, again_true s.upto n le lt)

    pub receive_far :
        (n : ℕ)
        → IsNear s.upto n
        → (n + window_count ≤ s.upto) ⊎ (s.upto + window_count ≤ n)
        → receive h chunk (msg n) u ≡ (u, false)
    unfolding receive receive_ahead
    receive_far n near far = rw (
      stream.numbered n,
      f.mask.recv_at,
      again_false s.upto n near (omega arith),
      next_false s.upto n near (omega arith),
      del_far s.upto n near far,
    )

    pub receive_one :
        receive h chunk (msg (s.upto + 1)) u ≡ (receive_next h chunk (msg (s.upto + 1)) u, true)
    unfolding receive
    receive_one = rw (
      stream.numbered (s.upto + 1),
      f.mask.recv_at,
      again_false s.upto (s.upto + 1) (omega arith) (omega arith),
      next_true s.upto (s.upto + 1) refl,
    )

    abbrev pub highest : ℕ → ℕ
    highest n =
        if ltb (sub32 (u32 n) u.rps.last_repeat_seq) window_count
        then u32 n
        else u.rps.last_repeat_seq

    pub receive_new :
        (n : ℕ)
        → s.upto + 2 ≤ n
        → n < s.upto + window_count
        → s.got n ≡ false
        → receive h chunk (msg n) u ≡ (
          record {
            rps = record u.rps {
              last_repeat_seq = highest n;
              cache_repeat_count = bit_or u.rps.cache_repeat_count (2 ^ (n - s.upto - 1));
            };
            host = handle n u.host;
          },
          true,
        )
    unfolding receive receive_ahead
    receive_new n low high new = rw (
      stream.numbered n,
      f.mask.recv_at,
      again_false s.upto n (omega arith) (omega arith),
      next_false s.upto n (omega arith) (omega arith),
      del_ahead s.upto n (omega arith) high,
      del_within s.upto n (omega arith) high,
      mask_clear u.rps.cache_repeat_count (n - s.upto - 1)
          (rw new at (digit_at s.got f.mask n (omega arith))),
    )

    pub receive_known :
        (n : ℕ)
        → s.upto + 2 ≤ n
        → n < s.upto + window_count
        → s.got n ≡ true
        → receive h chunk (msg n) u
          ≡ (record u { rps = record u.rps { last_repeat_seq = highest n } }, true)
    unfolding receive receive_ahead
    receive_known n low high old = rw (
      stream.numbered n,
      f.mask.recv_at,
      again_false s.upto n (omega arith) (omega arith),
      next_false s.upto n (omega arith) (omega arith),
      del_ahead s.upto n (omega arith) high,
      del_within s.upto n (omega arith) high,
      mask_set u.rps.cache_repeat_count (n - s.upto - 1)
          (rw old at (digit_at s.got f.mask n (omega arith))),
    )
