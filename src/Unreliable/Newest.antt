-- ===== src/Unreliable/Newest.antt =====
-- Any sequence of unreliable packets: the ones that are parsed.
use dubuframework.Base.{
  ℕ, ◌+◌, ◌^◌, ◌≤◌, ◌<◌, ◌≡◌, refl, sym, ◌∙◌, ◌⊎◌, inl, inr, Bool, true, false, ◌&&◌, List, [], ◌∷◌,
  ◌++◌, map, append-nil, append_assoc, arith, ltb, leb, ◌==◌, lt→ltb, le→ltb, ne→==, ==_iff,
  if◌then◌else◌, u32, sub32,
}
use native.Mathlib.Decide.{dec_lt, ℕ_discrete}
use dubuframework.Packet.{Packet}
use dubuframework.Host.{Host, IsLog}
use dubuframework.Sequence.{IsStream}
use dubuframework.Unreliable.{Unreliable, receive, no_repeat_accept_range}

-- Message `n` is newer than `k`, and not too far ahead.
abbrev pub is_newer : ℕ → ℕ → Bool
is_newer k n = ltb k n && ltb n (k + no_repeat_accept_range)

-- The messages parsed, after message `k`.
unfoldable pub newest : ℕ → List ℕ → List ℕ
newest k [] = []
newest k (n ∷ ns) =
    let rest = newest n ns in let same = newest k ns in if is_newer k n then n ∷ rest else same

newest-new : (k n : ℕ) (ns : List ℕ) → is_newer k n ≡ true → newest k (n ∷ ns) ≡ n ∷ newest n ns
unfolding newest
newest-new k n ns e = rw e refl

newest-old : (k n : ℕ) (ns : List ℕ) → is_newer k n ≡ false → newest k (n ∷ ns) ≡ newest k ns
unfolding newest
newest-old k n ns e = rw e refl

is_newer_cases :
    (k n : ℕ)
    → ((is_newer k n ≡ true) × (k < n) × (n < k + no_repeat_accept_range))
      ⊎ ((is_newer k n ≡ false) × ((n ≤ k) ⊎ (k + no_repeat_accept_range ≤ n)))
is_newer_cases k n = elim (dec_lt k n) [
  | no p ↦ inr (rw (le→ltb k n (omega arith)) refl, inl (omega arith))
  | yes p ↦ elim (dec_lt n (k + no_repeat_accept_range)) [
    | no q ↦ inr (
      rw (lt→ltb k n p, le→ltb n (k + no_repeat_accept_range) (omega arith)) refl,
      inr (omega arith),
    )
    | yes q ↦ inl (rw (lt→ltb k n p, lt→ltb n (k + no_repeat_accept_range) q) refl, p, q)
  ]
]

-- The numbers rise, from above `k` on.
abbrev pub Rises : ℕ → List ℕ → Type 0
Rises k [] = Unit {0}
Rises k (n ∷ ns) = (k < n) × Rises n ns

-- Every message arrives near enough to the newest one parsed by then.
abbrev pub AllNear : ℕ → List ℕ → Type 0
AllNear k [] = Unit {0}
AllNear k (n ∷ ns) =
    (k + no_repeat_accept_range ≤ n + 2 ^ 32)
    × (n < k + 2 ^ 32)
    × AllNear (if is_newer k n then n else k) ns

unfoldable pub receive_all : {S : Type 0} → Host S → List Packet → Unreliable S → Unreliable S
receive_all h [] u = u
receive_all h (p ∷ ps) u = receive_all h ps (receive h p u).0

module _ {S : Type 0} (h : Host S) (msg : ℕ → Packet) (stream : IsStream msg)
    (seen : S → List Packet) (laws : IsLog h seen) where
  receive_new :
      (k n : ℕ) (u : Unreliable S)
      → u.rps.recv_repeat_seq ≡ u32 k
      → k < n
      → n < k + no_repeat_accept_range
      → receive h (msg n) u ≡ (
        record {
          rps = record u.rps { recv_repeat_seq = (msg n).header.sequence_no };
          host = h.packet_parse (msg n) u.host;
        },
        true,
      )
  unfolding receive
  receive_new k n u at low high =
      let e : sub32 (msg n).header.sequence_no u.rps.recv_repeat_seq ≡ sub32 (u32 n) (u32 k) =
        rw (stream.numbered n, at) refl in
      let a : (sub32 (u32 n) (u32 k) == 0) ≡ false = ne→== _ _ (omega arith) in
      let b : leb no_repeat_accept_range (sub32 (u32 n) (u32 k)) ≡ false =
        let lt : sub32 (u32 n) (u32 k) < no_repeat_accept_range = omega arith in ground arith in
      rw (e, a, b) refl

  receive_old :
      (k n : ℕ) (u : Unreliable S)
      → u.rps.recv_repeat_seq ≡ u32 k
      → k + no_repeat_accept_range ≤ n + 2 ^ 32
      → n < k + 2 ^ 32
      → (n ≤ k) ⊎ (k + no_repeat_accept_range ≤ n)
      → receive h (msg n) u ≡ (u, false)
  unfolding receive
  receive_old k n u at low high old =
      let e : sub32 (msg n).header.sequence_no u.rps.recv_repeat_seq ≡ sub32 (u32 n) (u32 k) =
        rw (stream.numbered n, at) refl in
      elim (ℕ_discrete n k) [
        | yes same ↦
            let a : (sub32 (u32 n) (u32 k) == 0) ≡ true = (==_iff _ _).1 (omega arith) in
            rw (e, a) refl
        | no ne ↦
            let le : no_repeat_accept_range ≤ sub32 (u32 n) (u32 k) = omega arith in
            let a : (sub32 (u32 n) (u32 k) == 0) ≡ false = ne→== _ _ (omega arith) in
            let b : leb no_repeat_accept_range (sub32 (u32 n) (u32 k)) ≡ true = ground arith in
            rw (e, a, b) refl
      ]

  -- What the host has seen after a sequence of packets.
  abbrev pub Follows : ℕ → List ℕ → Unreliable S → Unreliable S → Type 0
  Follows k ns u u' = (seen u'.host ≡ seen u.host ++ map msg (newest k ns)) × Rises k (newest k ns)

  step_new :
      (k n : ℕ) (ns : List ℕ) (u : Unreliable S)
      → u.rps.recv_repeat_seq ≡ u32 k
      → is_newer k n ≡ true
      → k < n
      → n < k + no_repeat_accept_range
      → Follows n ns (receive h (msg n) u).0 (receive_all h (map msg ns) (receive h (msg n) u).0)
      → Follows k (n ∷ ns) u (receive_all h (map msg (n ∷ ns)) u)
  unfolding receive_all
  step_new k n ns u at new low high (log, rises) =
      let e = receive_new k n u at low high in
      let one : seen (receive h (msg n) u).0.host ≡ seen u.host ++ msg n ∷ [] =
        rw e (laws.seen-parse (msg n) u.host) in
      rw (newest-new k n ns new) (
        log ∙ (rw one (append_assoc (seen u.host) (msg n ∷ []) (map msg (newest n ns)))),
        (low, rises),
      )

  -- Of any sequence of unreliable packets exactly those are parsed that are newer than all that were
  -- parsed before, and less than 8191 ahead: no packet is parsed twice, nor after a newer one. Every
  -- packet is near enough to the newest one.
  pub receive_all-newest :
      (k : ℕ) (ns : List ℕ) (u : Unreliable S)
      → u.rps.recv_repeat_seq ≡ u32 k
      → AllNear k ns
      → (seen (receive_all h (map msg ns) u).host ≡ seen u.host ++ map msg (newest k ns))
        × Rises k (newest k ns)
  unfolding receive_all newest
  receive_all-newest k [] u at near = (sym (append-nil (seen u.host)), _)
  receive_all-newest k (n ∷ ns) u at (low, high, near) = elim (is_newer_cases k n) [
    | inl (new, lt, within) ↦
        let e = receive_new k n u at lt within in
        step_new k n ns u at new lt within (
          receive_all-newest n ns (receive h (msg n) u).0 (rw e (stream.numbered n))
            (rw new at near))
    | inr (old, far) ↦
        let e = receive_old k n u at low high far in
        rw (newest-old k n ns old, e, receive_all) (receive_all-newest k ns u at (rw old at near))
  ]
