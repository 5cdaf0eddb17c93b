-- ===== src/Ring/Threads/Moves.antt =====
-- Each step of Push and Pop.
use dubuframework.Base.{
  ℕ, ◌+◌, ◌%◌, ◌^◌, ◌≤◌, ◌<◌, ◌≡◌, ◌≢◌, refl, sym, ap, ◌∙◌, subst, true, none, some, arith, update,
  update_self, update_ne, update-same,
}
use mathlib.Core.Option.{some-injective}
use native.Mathlib.Decide.{ℕ_discrete}
use dubuframework.PacketState.{window_count}
use dubuframework.Ring.{Node, u64}
use dubuframework.Ring.Threads.{
  Pc, Shared, claim_tail, write_data, store_seq, claim_head, note_popped,
}
use dubuframework.Ring.Threads.Slots.{Phase, owner, SlotAt, Knows}
use dubuframework.Ring.Threads.Keeps.{
  IsShared, claims_empty, claims_full, tail_next, head_next, moved-IsShared,
}

module _ {A : Type 0} (pcs : ℕ → Pc A) (m : Shared A) (j : ℕ) (v : IsShared pcs m)
    (few : m.pushes + 128 < 2 ^ 64) where
  -- The place of a position, in the phase that it is known to be in
  slot_in :
      (at c : ℕ) (f : Phase)
      → v.phase (at % 64) ≡ f
      → v.turn (at % 64) ≡ c
      → SlotAt m.ring.head m.ring.tail m.pushed (at % 64) c (m.ring.buffer (at % 64)) f
  slot_in at c f e q =
      let i = at % 64 in
      subst (λ k. SlotAt m.ring.head m.ring.tail m.pushed i k (m.ring.buffer i) f) q
        (subst (λ k. SlotAt m.ring.head m.ring.tail m.pushed i (v.turn i) (m.ring.buffer i) k) e
          (v.slots i (omega arith)))

  -- A place that this thread has claimed is no other's.
  mine_only : (i : ℕ) → owner (v.phase i) ≡ some j → (j2 : ℕ) → j ≢ j2 → owner (v.phase i) ≢ some j2
  mine_only i own j2 ne own2 = ne (some-injective j j2 (sym own ∙ own2))

  nobody : (i : ℕ) → owner (v.phase i) ≡ none → (j2 : ℕ) → j ≢ j2 → owner (v.phase i) ≢ some j2
  nobody i own j2 ne own2 = cc (own, own2)

  -- Push claims the place of its number.
  pub claim_push :
      (t : A) (tail seq : ℕ)
      → seq ≤ (m.ring.buffer (tail % 64)).seq
      → seq ≡ tail
      → m.ring.tail ≡ tail
      → IsShared (update pcs j (Pc.push_write t tail seq)) (claim_tail t tail m)
  claim_push t tail seq up same is =
      let i = tail % 64 in
      let old = v.slots i (omega arith) in
      let at : m.ring.tail % 64 ≡ i = ap (λ n. n % 64) is in
      let (free, turn) =
        claims_empty m.ring.head m.ring.tail i (v.turn i) m.pushed (m.ring.buffer i) (v.phase i) old
          at (omega (arith, up, same, is)) v.le in
      let s = slot_in tail m.ring.tail Phase.empty free turn in
      let next : m.ring.tail + 1 ≡ u64 (tail + 1) = omega (arith, is, few, v.counted) in
      let count : m.pushes ≡ tail = omega (arith, is, v.counted) in
      let more : (p : ℕ) (x : A)
          → m.pushed p ≡ some x
          → update m.pushed m.pushes (some t) p ≡ some x =
        λ p x on. elim (ℕ_discrete m.pushes p) [
          | no ne ↦ update_ne m.pushed m.pushes (some t) p ne ∙ on
          | yes e ↦ cc (on, v.later p (omega (arith, e, v.counted)))
        ] in
      moved-IsShared pcs m (claim_tail t tail m) j i tail (Pc.push_write t tail seq)
        (m.ring.buffer i) (Phase.pushing j) v (omega arith) (nobody i (ap owner free)) more
        (sym (update-same m.ring.buffer i))
        (
          update_self v.phase i (Phase.pushing j),
          update_self v.turn i tail,
          same,
          ap (update m.pushed m.pushes (some t)) (sym count)
              ∙ update_self m.pushed m.pushes (some t),
        )
        (
          refl,
          omega (arith, s.1, is),
          (s.2.0 ∙ is, omega (arith, v.le, is), omega (arith, next, is)),
        )
        (λ k ne old'.
          subst
            (λ n.
              SlotAt m.ring.head n (update m.pushed m.pushes (some t)) k (v.turn k)
                (m.ring.buffer k) (v.phase k))
            next
            (tail_next m.ring.head m.ring.tail k (v.turn k) m.pushed
              (update m.pushed m.pushes (some t)) (m.ring.buffer k) (v.phase k)
              (λ e. ne (sym at ∙ e)) more old'))
        (omega (arith, next, v.counted), omega (arith, next, v.le), omega (arith, next, s.1, is))
        (λ p x on. ((v.read p x on).0, more p x (v.read p x on).1))
        (λ p le.
          update_ne m.pushed m.pushes (some t) p (omega (arith, le, next, v.counted))
          ∙ v.later p (omega (arith, le, next)))

  pub write_push :
      (t : A) (tail seq : ℕ)
      → Knows m.ring.buffer m.pushed v.phase v.turn j (Pc.push_write t tail seq)
      → IsShared (update pcs j (Pc.push_store tail seq)) (write_data t tail m)
  write_push t tail seq (own, turn, same, what) =
      let i = tail % 64 in
      let s = slot_in tail tail (Phase.pushing j) own turn in
      let node : Node A = record (m.ring.buffer i) { data_of = t } in
      moved-IsShared pcs m (write_data t tail m) j i tail (Pc.push_store tail seq) node
        (Phase.pushing j) v (omega arith) (mine_only i (ap owner own)) (λ p x on. on) refl
        (
          update_self v.phase i (Phase.pushing j),
          update_self v.turn i tail,
          same,
          what ∙ ap (λ n. some (Node.data_of n)) (sym (update_self m.ring.buffer i node)),
        )
        s (λ k ne old. old) (v.counted, v.le, v.fits) v.read v.later

  pub store_push :
      (tail seq : ℕ)
      → Knows m.ring.buffer m.pushed v.phase v.turn j (Pc.push_store tail seq)
      → IsShared (update pcs j (Pc.push_done true)) (store_seq tail (seq + 1) m)
  store_push tail seq (own, turn, same, what) =
      let i = tail % 64 in
      let s = slot_in tail tail (Phase.pushing j) own turn in
      let node : Node A = record (m.ring.buffer i) { seq = u64 (seq + 1) } in
      let next : u64 (seq + 1) ≡ tail + 1 = omega (arith, same, s.2.2, few, v.counted) in
      moved-IsShared pcs m (store_seq tail (seq + 1) m) j i tail (Pc.push_done true) node Phase.full
        v (omega (arith, next, s.2.0)) (mine_only i (ap owner own)) (λ p x on. on) refl tt
        (s.0, s.1, (next, s.2.1, s.2.2, what)) (λ k ne old. old) (v.counted, v.le, v.fits) v.read
        v.later

  -- Pop claims the place of its number.
  pub claim_pop :
      (head seq : ℕ)
      → seq ≤ (m.ring.buffer (head % 64)).seq
      → seq ≡ u64 (head + 1)
      → m.ring.head ≡ head
      → IsShared (update pcs j (Pc.pop_read head)) (claim_head head m)
  claim_pop head seq up same is =
      let i = head % 64 in
      let old = v.slots i (omega arith) in
      let at : m.ring.head % 64 ≡ i = ap (λ n. n % 64) is in
      let next : m.ring.head + 1 ≡ u64 (head + 1) = omega (arith, is, few, v.counted, v.le) in
      let (full, turn) =
        claims_full m.ring.head m.ring.tail i (v.turn i) m.pushed (m.ring.buffer i) (v.phase i) old
          at (omega (arith, up, same, next)) v.fits in
      let s = slot_in head m.ring.head Phase.full full turn in
      moved-IsShared pcs m (claim_head head m) j i head (Pc.pop_read head) (m.ring.buffer i)
        (Phase.popping j) v (omega arith) (nobody i (ap owner full)) (λ p x on. on)
        (sym (update-same m.ring.buffer i))
        (update_self v.phase i (Phase.popping j), update_self v.turn i head)
        (
          refl,
          omega (arith, next, is),
          (
            omega (arith, s.2.0, is),
            omega (arith, next, is),
            omega (arith, v.fits, is),
            ap m.pushed (sym is) ∙ s.2.3,
          ),
        )
        (λ k ne old'.
          subst (λ n. SlotAt n m.ring.tail m.pushed k (v.turn k) (m.ring.buffer k) (v.phase k)) next
            (head_next m.ring.head m.ring.tail k (v.turn k) m.pushed (m.ring.buffer k) (v.phase k)
              (λ e. ne (sym at ∙ e)) old'))
        (v.counted, omega (arith, next, s.2.2), omega (arith, next, v.fits))
        (λ p x on. (omega (arith, next, (v.read p x on).0), (v.read p x on).1)) v.later

  pub read_pop :
      (head : ℕ)
      → Knows m.ring.buffer m.pushed v.phase v.turn j (Pc.pop_read head)
      → let x = (m.ring.buffer (head % 64)).data_of in
        IsShared (update pcs j (Pc.pop_store head x)) (note_popped head x m)
  read_pop head (own, turn) =
      let i = head % 64 in
      let s = slot_in head head (Phase.popping j) own turn in
      let x = (m.ring.buffer i).data_of in
      moved-IsShared pcs m (note_popped head x m) j i head (Pc.pop_store head x) (m.ring.buffer i)
        (Phase.popping j) v (omega arith) (mine_only i (ap owner own)) (λ p x on. on)
        (sym (update-same m.ring.buffer i))
        (update_self v.phase i (Phase.popping j), update_self v.turn i head) s (λ k ne old. old)
        (v.counted, v.le, v.fits)
        (λ p y on. elim (ℕ_discrete head p) [
          | no ne ↦ v.read p y (sym (update_ne m.popped head (some x) p ne) ∙ on)
          | yes e ↦
              let same : some x ≡ some y =
                sym
                  (ap (update m.popped head (some x)) (sym e) ∙ update_self m.popped head (some x))
                ∙ on in
              (omega (arith, e, s.2.1), ap m.pushed (sym e) ∙ s.2.3 ∙ same)
        ])
        v.later

  pub store_pop :
      (head : ℕ) (x : A)
      → Knows m.ring.buffer m.pushed v.phase v.turn j (Pc.pop_store head x)
      → IsShared (update pcs j (Pc.pop_done (some x))) (store_seq head (head + window_count) m)
  store_pop head x (own, turn) =
      let i = head % 64 in
      let s = slot_in head head (Phase.popping j) own turn in
      let node : Node A = record (m.ring.buffer i) { seq = u64 (head + 64) } in
      let next : u64 (head + 64) ≡ head + 64 = omega (arith, s.2.1, v.le, few, v.counted) in
      moved-IsShared pcs m (store_seq head (head + window_count) m) j i (head + 64)
        (Pc.pop_done (some x)) node Phase.empty v (omega (arith, next, s.2.0))
        (mine_only i (ap owner own)) (λ p x on. on) refl tt
        (omega arith, omega (arith, s.2.1), (next, s.2.2)) (λ k ne old. old)
        (v.counted, v.le, v.fits) v.read v.later
