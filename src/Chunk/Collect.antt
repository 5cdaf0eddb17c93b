-- ===== src/Chunk/Collect.antt =====
-- The parts of one message as they come in, each once, in any order.
use dubuframework.Base.{
  ℕ, zero, suc, ◌+◌, ◌-◌, ◌^◌, ◌≤◌, ◌<◌, ◌≡◌, ◌≢◌, refl, sym, ◌∙◌, inl, inr, Bool, true, false,
  arith, ◌==◌, ==_iff, ne→==, if◌then◌else◌, bit, u16, bit_and, bit_or, bit-and, bit-or, bit-zero,
  bits-none, bit-full, bits-every, bit_and-lt, bit_or-lt, mask_set, mask_clear, digit, update,
  update_self, update_ne, some, Bool-cases,
}
use native.Mathlib.Decide.{ℕ_discrete}
use dubuframework.Packet.{Packet}
use dubuframework.Chunk.{ChunkPacket, new_chunk, set_buffer, is_pull, chunk_end_mask}
use dubuframework.Chunk.Flags.{
  part_flag, owner, part_flag-bit, part_flag-lt, part_flag-place, part_flag-positive,
}

-- How many of the first `n` are there
abbrev pub count_got : ℕ → (ℕ → Bool) → ℕ
count_got zero got = 0
count_got (suc n) got = digit (got n) + count_got n got

pub count_got-none : (n : ℕ) → count_got n (λ _. false) ≡ 0
count_got-none zero = refl
count_got-none (suc n) = omega (arith, count_got-none n)

pub count_got-all :
    (n : ℕ) (got : ℕ → Bool) → ((i : ℕ) → i < n → got i ≡ true) → count_got n got ≡ n
count_got-all zero got all = refl
count_got-all (suc n) got all =
    rw (all n (omega arith)) (omega (arith, count_got-all n got (λ i l. all i (omega arith))))

pub count_got-le : (n : ℕ) (got : ℕ → Bool) → count_got n got ≤ n
count_got-le zero got = omega arith
count_got-le (suc n) got = ground (arith, count_got-le n got)

count_got-later :
    (n i : ℕ) (got : ℕ → Bool) → n ≤ i → count_got n (update got i true) ≡ count_got n got
count_got-later zero i got le = refl
count_got-later (suc n) i got le =
    rw (update_ne got i true n (omega arith), count_got-later n i got (omega arith))

pub count_got-one :
    (n i : ℕ) (got : ℕ → Bool)
    → i < n
    → got i ≡ false
    → count_got n (update got i true) ≡ count_got n got + 1
count_got-one zero i got lt new = absurd (omega arith)
count_got-one (suc n) i got lt new = elim (ℕ_discrete i n) [
  | yes e ↦
      let n_new : got n ≡ false = rw (← e) new in
      rw (e, update_self got n true, n_new, count_got-later n n got (omega arith)) (omega arith)
  | no ne ↦ rw (update_ne got i true n ne, count_got-one n i got (omega arith) new) (omega arith)
]

-- The chunk holds exactly the parts in `got`, of the `n` parts `part`.
pub record IsCollected (n : ℕ) (part : ℕ → Packet) (got : ℕ → Bool) (c : ChunkPacket) : Type 0 where
  pub flag_fits : c.flag < 2 ^ 16
  pub digits : (j : ℕ) → j < 16 → bit c.flag j ≡ digit (got (owner n j))
  pub buffers : (i : ℕ) → i < n → got i ≡ true → c.buffers i ≡ some (part i)
  pub count : c.count ≡ count_got n got
  pub is_end : c.is_end ≡ got (n - 1)

pub new_chunk-IsCollected : (n : ℕ) (part : ℕ → Packet) → IsCollected n part (λ _. false) new_chunk
new_chunk-IsCollected n part = record {
  flag_fits = omega arith;
  digits = λ j l. bit-zero j;
  buffers = λ i l got. cc got;
  count = sym (count_got-none n);
  is_end = refl;
}

module _ (n : ℕ) (few : n ≤ 16) (part : ℕ → Packet) (got : ℕ → Bool) (c : ChunkPacket)
    (v : IsCollected n part got c) (i : ℕ) (lt : i < n) (new : got i ≡ false) where
  -- The bits of a new part are not there yet.
  apart : bit_and c.flag (part_flag n i) ≡ 0
  apart =
      bits-none 16 (bit_and c.flag (part_flag n i))
        (bit_and-lt 16 c.flag (part_flag n i) v.flag_fits)
        (λ j l.
          rw (bit-and c.flag (part_flag n i) j, v.digits j l, part_flag-bit n i j few lt l)
            (elim (Bool-cases (owner n j == i)) [
              | inl on ↦ let e : owner n j ≡ i = (==_iff _ _).0 on in rw (on, e, new)
              | inr off ↦ rw off (ground arith)
            ]))

  joined-digits :
      (j : ℕ)
      → j < 16
      → bit (bit_or c.flag (part_flag n i)) j ≡ digit (update got i true (owner n j))
  joined-digits j l =
      rw (bit-or c.flag (part_flag n i) j, v.digits j l, part_flag-bit n i j few lt l)
        (elim (ℕ_discrete (owner n j) i) [
          | yes e ↦ rw (e, new, (==_iff i i).1 refl)
          | no ne ↦
              rw (ne→== _ _ ne, update_ne got i true (owner n j) (λ e. ne (sym e))) (ground arith)
        ])

  ends : (bit_and (part_flag n i) chunk_end_mask == chunk_end_mask) ≡ (i == n - 1)
  ends =
      let b : bit (part_flag n i) 15 ≡ digit (i == n - 1) =
        part_flag-bit n i 15 few lt (omega arith)
        ∙ (let e : (owner n 15 == i) ≡ (i == n - 1) = ground arith in rw e refl) in
      elim (Bool-cases (i == n - 1)) [
        | inl on ↦ rw on (mask_set (part_flag n i) 15 (rw on at b))
        | inr off ↦ rw off (mask_clear (part_flag n i) 15 (rw off at b))
      ]

  abbrev pub added : ChunkPacket
  added = record c {
    count = u16 (c.count + 1);
    flag = bit_or c.flag (part_flag n i);
    is_end = if i == n - 1 then true else c.is_end;
    buffers = update c.buffers i (some (part i));
  }

  pub set_buffer-added : set_buffer (part_flag n i) (part i) c ≡ (added, true)
  unfolding set_buffer
  set_buffer-added = rw (apart, ends, part_flag-positive n i few lt, part_flag-place n i few lt)

  pub added-IsCollected : IsCollected n part (update got i true) added
  added-IsCollected = record {
    flag_fits = bit_or-lt 16 c.flag (part_flag n i) v.flag_fits (part_flag-lt n i);
    digits = joined-digits;
    buffers = λ j l has. elim (ℕ_discrete i j) [
      | yes e ↦ rw (e, update_self c.buffers j (some (part j)))
      | no ne ↦
          rw (update_ne c.buffers i (some (part i)) j ne)
            (v.buffers j l (rw (update_ne got i true j ne) at has))
    ];
    count =
        omega (arith, v.count, count_got-one n i got lt new, count_got-le n (update got i true));
    is_end = ground (arith, v.is_end);
  }

-- The message is complete exactly when all its parts are there.
pub is_pull-all :
    (n : ℕ) (part : ℕ → Packet) (got : ℕ → Bool) (c : ChunkPacket)
    → 1 ≤ n
    → n ≤ 16
    → IsCollected n part got c
    → ((i : ℕ) → i < n → got i ≡ true)
    → is_pull c ≡ true
unfolding is_pull
is_pull-all n part got c parts few v all =
    let full =
      bits-every 16 c.flag v.flag_fits
        (λ j l. v.digits j l ∙ (rw (all (owner n j) (ground arith)) refl)) in
    let t : (0 == u16 (c.flag + 1)) ≡ true = ground (arith, full) in
    rw (t, v.is_end, all (n - 1) (omega arith))

pub is_pull-missing :
    (n : ℕ) (part : ℕ → Packet) (got : ℕ → Bool) (c : ChunkPacket) (i : ℕ)
    → n ≤ 16
    → IsCollected n part got c
    → i < n
    → got i ≡ false
    → is_pull c ≡ false
unfolding is_pull
is_pull-missing n part got c i few v lt gone =
    let off : bit c.flag i ≡ 0 =
      v.digits i (omega arith) ∙ (let e : owner n i ≡ i = ground arith in rw (e, gone) refl) in
    let ne : 0 ≢ u16 (c.flag + 1) = λ z.
      let top : c.flag ≡ 65535 = omega (arith, z, v.flag_fits) in
      omega (arith, rw top at off, bit-full 16 i (omega arith)) in
    rw (ne→== _ _ ne, v.is_end)
      (elim (Bool-cases (got (n - 1))) [ inl on ↦ rw on refl | inr no_end ↦ rw no_end refl ])
