-- ===== src/Ring/Fifo.antt =====
-- The ring against a queue that is a list.
use dubuframework.Base.{
  ℕ, zero, suc, ◌+◌, ◌%◌, ◌^◌, ◌≤◌, ◌<◌, ◌≡◌, ◌≢◌, refl, sym, ◌∙◌, true, false, Option, none, some,
  List, [], ◌∷◌, ◌++◌, length, length-append, ltb, lt→ltb, ◌==◌, ==_iff, ne→==, update, update_self,
  update_ne, arith,
}
use native.Mathlib.Decide.{ℕ_discrete}
use dubuframework.PacketState.{window_count}
use dubuframework.Ring.{Node, RingBuffer, u64, push_loop, push, pop_loop, pop}

module _ {A : Type 0} where
  -- Element `d` of a queue
  abbrev pub nth : List A → ℕ → Option A
  nth [] d = none
  nth (x ∷ xs) zero = some x
  nth (x ∷ xs) (suc d) = nth xs d

  nth-append : (xs : List A) (t : A) (d : ℕ) → d < length xs → nth (xs ++ t ∷ []) d ≡ nth xs d
  nth-append [] t d lt = absurd (omega arith)
  nth-append (x ∷ xs) t zero lt = refl
  nth-append (x ∷ xs) t (suc d) lt = nth-append xs t d (omega arith)

  nth_last : (xs : List A) (t : A) → nth (xs ++ t ∷ []) (length xs) ≡ some t
  nth_last [] t = refl
  nth_last (x ∷ xs) t = nth_last xs t

  -- The ring holds the queue `q`, its first element at place `head` modulo 64.
  pub record IsRing (q : List A) (r : RingBuffer A) : Type 0 where
    pub span : r.tail ≡ r.head + length q
    pub fits : length q ≤ window_count
    pub filled :
        (d : ℕ)
        → d < length q
        → ((r.buffer ((r.head + d) % window_count)).seq ≡ r.head + d + 1)
          × (some (r.buffer ((r.head + d) % window_count)).data_of ≡ nth q d)
    pub room :
        (d : ℕ)
        → length q ≤ d
        → d < window_count
        → (r.buffer ((r.head + d) % window_count)).seq ≡ r.head + d

  pub push_room :
      (fuel : ℕ) (t : A) (q : List A) (r : RingBuffer A)
      → IsRing q r
      → length q < window_count
      → r.tail + 128 < 2 ^ 64
      → let n : Node A = record { seq = r.tail + 1; data_of = t } in
        push (suc fuel) t r
        ≡ some (
          true,
          record r { tail = r.tail + 1; buffer = update r.buffer (r.tail % window_count) n },
        )
  unfolding push push_loop
  push_room fuel t q r v lt small =
      let at : (r.buffer (r.tail % window_count)).seq ≡ r.tail =
        let e = v.span in rw e (v.room (length q) (omega arith) lt) in
      let on : ((r.buffer (r.tail % window_count)).seq == r.tail) ≡ true = (==_iff _ _).1 at in
      let same : (r.tail == r.tail) ≡ true = (==_iff _ _).1 refl in
      let next : u64 (r.tail + 1) ≡ r.tail + 1 = omega (arith, small) in
      let turn : u64 ((r.buffer (r.tail % window_count)).seq + 1) ≡ r.tail + 1 =
        omega (arith, at, small) in
      rw (on, same, next, turn) refl

  pub push_full :
      (fuel : ℕ) (t : A) (q : List A) (r : RingBuffer A)
      → IsRing q r
      → length q ≡ window_count
      → push (suc fuel) t r ≡ some (false, r)
  unfolding push push_loop
  push_full fuel t q r v full =
      let place : r.tail % window_count ≡ (r.head + 0) % window_count =
        omega (arith, v.span, full) in
      let at : (r.buffer (r.tail % window_count)).seq ≡ r.head + 0 + 1 =
        rw place (v.filled 0 (omega (arith, full))).0 in
      let off : ((r.buffer (r.tail % window_count)).seq == r.tail) ≡ false =
        ne→== _ _ (λ e. omega (arith, e, at, v.span, full)) in
      let late : ltb (r.buffer (r.tail % window_count)).seq r.tail ≡ true =
        lt→ltb _ _ (omega (arith, at, v.span, full)) in
      rw (off, late) refl

  pub push-IsRing :
      (t : A) (q : List A) (r : RingBuffer A)
      → IsRing q r
      → length q < window_count
      → let n : Node A = record { seq = r.tail + 1; data_of = t } in
        IsRing
          (q ++ t ∷ [])
          (record r { tail = r.tail + 1; buffer = update r.buffer (r.tail % window_count) n })
  push-IsRing t q r v lt =
      let n : Node A = record { seq = r.tail + 1; data_of = t } in
      let i = r.tail % window_count in
      let long = length-append q (t ∷ []) in
      record {
        span = omega (arith, v.span, long);
        fits = omega (arith, long);
        filled = λ d less. elim (ℕ_discrete d (length q)) [
          | yes e ↦
              let at : (r.head + d) % window_count ≡ i = omega (arith, e, v.span) in
              let turn : r.tail + 1 ≡ r.head + d + 1 = omega (arith, e, v.span) in
              let last : some t ≡ nth (q ++ t ∷ []) d = rw e (sym (nth_last q t)) in
              rw (at, update_self r.buffer i n) (turn, last)
          | no ne ↦
              let small : d < length q = omega (arith, long) in
              let other : i ≢ (r.head + d) % window_count =
                λ e. omega (arith, e, v.span, small, lt) in
              rw
                (update_ne r.buffer i n ((r.head + d) % window_count) other, nth-append q t d small)
                (v.filled d small)
        ];
        room = λ d more less.
            let other : i ≢ (r.head + d) % window_count =
              λ e. omega (arith, e, v.span, more, less, long) in
            rw (update_ne r.buffer i n ((r.head + d) % window_count) other)
              (v.room d (omega (arith, more, long)) less);
      }

  pub pop-some :
      (fuel : ℕ) (x : A) (xs : List A) (r : RingBuffer A)
      → IsRing (x ∷ xs) r
      → r.head + 128 < 2 ^ 64
      → let i = r.head % window_count in
        pop (suc fuel) r
        ≡ some (
          some (r.buffer i).data_of,
          record r {
            head = r.head + 1;
            buffer = update r.buffer i (record (r.buffer i) { seq = r.head + window_count });
          },
        )
  unfolding pop pop_loop
  pop-some fuel x xs r v small =
      let z : r.head % window_count ≡ (r.head + 0) % window_count = omega arith in
      let at : (r.buffer (r.head % window_count)).seq ≡ r.head + 0 + 1 =
        rw z (v.filled 0 (omega arith)).0 in
      let next : u64 (r.head + 1) ≡ r.head + 1 = omega (arith, small) in
      let lap : u64 (r.head + window_count) ≡ r.head + window_count = omega (arith, small) in
      let on : ((r.buffer (r.head % window_count)).seq == r.head + 1) ≡ true =
        (==_iff _ _).1 (omega (arith, at)) in
      let same : (r.head == r.head) ≡ true = (==_iff _ _).1 refl in rw (next, on, same, lap) refl

  pub pop-none :
      (fuel : ℕ) (r : RingBuffer A)
      → IsRing [] r
      → r.head + 128 < 2 ^ 64
      → pop (suc fuel) r ≡ some (none, r)
  unfolding pop pop_loop
  pop-none fuel r v small =
      let z : r.head % window_count ≡ (r.head + 0) % window_count = omega arith in
      let at : (r.buffer (r.head % window_count)).seq ≡ r.head + 0 =
        rw z (v.room 0 (omega arith) (omega arith)) in
      let next : u64 (r.head + 1) ≡ r.head + 1 = omega (arith, small) in
      let off : ((r.buffer (r.head % window_count)).seq == r.head + 1) ≡ false =
        ne→== _ _ (λ e. omega (arith, e, at)) in
      let late : ltb (r.buffer (r.head % window_count)).seq (r.head + 1) ≡ true =
        lt→ltb _ _ (omega (arith, at)) in
      rw (next, off, late) refl

  pub pop-IsRing :
      (x : A) (xs : List A) (r : RingBuffer A)
      → IsRing (x ∷ xs) r
      → let i = r.head % window_count in
        (some (r.buffer i).data_of ≡ some x)
        × IsRing xs (record r {
          head = r.head + 1;
          buffer = update r.buffer i (record (r.buffer i) { seq = r.head + window_count });
        })
  pop-IsRing x xs r v =
      let i = r.head % window_count in
      let n : Node A = record (r.buffer i) { seq = r.head + window_count } in
      let z : r.head % window_count ≡ (r.head + 0) % window_count = omega arith in
      (
        rw z (v.filled 0 (omega arith)).1,
        record {
          span = omega (arith, v.span);
          fits = omega (arith, v.fits);
          filled = λ d less.
              let e : r.head + 1 + d ≡ r.head + (d + 1) = omega arith in
              let other : i ≢ (r.head + (d + 1)) % window_count =
                λ q. omega (arith, q, less, v.fits) in
              let (turn, value) = v.filled (d + 1) (omega (arith, less)) in
              let step : nth (x ∷ xs) (d + 1) ≡ nth xs d =
                let s : d + 1 ≡ suc d = omega arith in rw s refl in
              rw (e, update_ne r.buffer i n ((r.head + (d + 1)) % window_count) other)
                (turn, value ∙ step);
          room = λ d more less. elim (ℕ_discrete d 63) [
            | yes last ↦
                let at : (r.head + 1 + d) % window_count ≡ i = omega (arith, last) in
                let turn : r.head + window_count ≡ r.head + 1 + d = omega (arith, last) in
                rw (at, update_self r.buffer i n) turn
            | no ne ↦
                let e : r.head + 1 + d ≡ r.head + (d + 1) = omega arith in
                let other : i ≢ (r.head + (d + 1)) % window_count =
                  λ q. omega (arith, q, less, ne) in
                rw (e, update_ne r.buffer i n ((r.head + (d + 1)) % window_count) other)
                  (v.room (d + 1) (omega (arith, more)) (omega (arith, less, ne)))
          ];
        },
      )
