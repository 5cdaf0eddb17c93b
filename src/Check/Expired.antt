-- ===== src/Check/Expired.antt =====
-- The sessions that CheckSessions ends.
use dubuframework.Base.{
  ℕ, zero, suc, ◌%◌, ◌-◌, ◌≤◌, ◌≡◌, refl, sym, ap, ◌∙◌, subst, Bool, true, false, not, ◌&&◌, ◌||◌,
  ◌==◌, sub32, Option, none, some, List, [], ◌∷◌, ◌++◌, append-nil, append_assoc, take, length,
  length-append, ltb, lt→ltb, le→ltb, if◌then◌else◌, Bool-cases, Option-cases, inl, inr, update,
  update_self, update_ne, arith,
}
use native.Mathlib.Decide.{dec_lt, ℕ_discrete}
use dubuframework.PacketState.{window_count}
use dubuframework.SessionManager.{get_session}
use dubuframework.Server.{Connection, Server, is_null, put_session, send_ping}
use dubuframework.Server.Paired.{sessions_of}
use dubuframework.Check.{is_checked, is_expired, wants_ping, check_session, check_from, check_all}

module _ (now session_timeout worker_count num : ℕ) where
  -- Whether a session is to be ended: it is the worker's, connected and not always kept, and it is
  -- silent for longer than the timeout or to be disconnected.
  abbrev pub ends : Option Connection → Bool
  ends none = false
  ends (some c) =
      ((c.session_id % worker_count == num) && (c.is_connect && not c.aways_connect))
      && (ltb session_timeout (sub32 now c.timestamp) || c.ready_disconnect)

  -- The identifiers, in their order, of the sessions to be ended, up to the first null session
  abbrev pub expired : (ℕ → Option Connection) → List ℕ → List ℕ
  expired sessions [] = []
  expired sessions (id ∷ rest) =
      let later = expired sessions rest in
      if is_null (sessions id) then [] else if ends (sessions id) then id ∷ later else later

  -- What the loop looks for in a session of the map
  abbrev look : Option Connection → Bool × Bool
  look o = (ends o, is_null o)

  -- Tables in which the same sessions are to be ended
  abbrev Alike : (ℕ → Option Connection) → (ℕ → Option Connection) → Type 0
  Alike f g = (id : ℕ) → look (f id) ≡ look (g id)

  expired-Alike :
      (f g : ℕ → Option Connection) (ids : List ℕ) → Alike f g → expired f ids ≡ expired g ids
  expired-Alike f g [] h = refl
  expired-Alike f g (id ∷ rest) h =
      let e : ends (f id) ≡ ends (g id) = ap (λ r. r.0) (h id) in
      let n : is_null (f id) ≡ is_null (g id) = ap (λ r. r.1) (h id) in
      rw (e, n, expired-Alike f g rest h) refl

-- As many of the elements of a list as fit with the first 64
add-take :
    (removes rest : List ℕ) (id : ℕ)
    → take (window_count - length removes) (id ∷ rest) ≡ (
        if ltb (length removes) window_count
        then id ∷ take (window_count - length (removes ++ id ∷ [])) rest
        else [])
add-take removes rest id = elim (dec_lt (length removes) window_count) [
  | yes lt ↦
      let t = lt→ltb (length removes) window_count lt in
      let e : window_count - length removes ≡ suc (window_count - length (removes ++ id ∷ [])) =
        omega (arith, length-append removes (id ∷ [])) in
      rw (t, e) refl
  | no ge ↦
      let t = le→ltb (length removes) window_count (omega arith) in
      let e : window_count - length removes ≡ zero = omega arith in rw (t, e) refl
]

module _ {S : Type 0} (crc_u32 crc_u8 : ℕ → ℕ → ℕ)
    (now session_timeout ping_timeout worker_count num : ℕ) (repeat_all : ℕ → Server S → Server S)
    (repeats : (id : ℕ) (w : Server S) → sessions_of (repeat_all id w) ≡ sessions_of w) where
  abbrev seen : Option Connection → Bool × Bool
  seen = look now session_timeout worker_count num

  abbrev is_ended : Option Connection → Bool
  is_ended = ends now session_timeout worker_count num

  abbrev checked : ℕ → List ℕ × Server S → List ℕ × Server S
  checked id (removes, v) =
      check_session crc_u32 crc_u8 now session_timeout ping_timeout worker_count num repeat_all id
        (sessions_of v id) (removes, v)

  abbrev pinged : ℕ → Connection → Server S → Server S
  pinged id c v =
      let (c', n) = send_ping crc_u32 crc_u8 now c v.net in
      put_session id (record c' { last_ping_sent_time = now }) (record v { net = n })

  pinged-Alike :
      (id : ℕ) (c : Connection) (v : Server S)
      → sessions_of v id ≡ some c
      → Alike now session_timeout worker_count num (sessions_of (pinged id c v)) (sessions_of v)
  unfolding send_ping is_checked is_expired
  pinged-Alike id c v at j = elim (ℕ_discrete id j) [
    | yes e ↦
        let (c', n) = send_ping crc_u32 crc_u8 now c v.net in
        let o = some (record c' { last_ping_sent_time = now }) in
        subst (λ k. seen (update (sessions_of v) id o k) ≡ seen (sessions_of v k)) e
          (ap seen (update_self (sessions_of v) id o) ∙ ap seen (sym at))
    | no ne ↦ ap seen (update_ne (sessions_of v) id _ j ne)
  ]

  -- What one round adds, and what it leaves
  abbrev Round : ℕ → List ℕ → Server S → List ℕ × Server S → Type 0
  Round id removes v (removes', v') =
      (removes' ≡ (
        if is_ended (sessions_of v id)
        then if ltb (length removes) window_count then removes ++ id ∷ [] else removes
        else removes))
      × Alike now session_timeout worker_count num (sessions_of v') (sessions_of v)

  round : (id : ℕ) (removes : List ℕ) (v : Server S) → Round id removes v (checked id (removes, v))
  unfolding check_session is_checked is_expired
  round id removes v = elim (Option-cases (sessions_of v id)) [
    | inl gone ↦ rw (gone, check_session) (refl, λ j. refl)
    | inr (c, at) ↦ elim (Bool-cases (is_checked worker_count num c)) [
      | inr off ↦ rw (at, check_session, off) (refl, λ j. refl)
      | inl on ↦ elim (Bool-cases (is_expired now session_timeout c)) [
        | inl old ↦ rw (at, check_session, on, old) (refl, λ j. ap (λ f. seen (f j)) (repeats id v))
        | inr young ↦ elim (Bool-cases (wants_ping now ping_timeout c)) [
          | inr quiet ↦
              rw (at, check_session, on, young, quiet)
                (refl, λ j. ap (λ f. seen (f j)) (repeats id v))
          | inl ping ↦
              rw (at, check_session, on, young, ping)
                (
                  refl,
                  λ j. ap (λ f. seen (f j)) (repeats id (pinged id c v)) ∙ pinged-Alike id c v at j,
                )
        ]
      ]
    ]
  ]

  take_nil : (n : ℕ) → take {A = ℕ} n [] ≡ []
  take_nil zero = refl
  take_nil (suc n) = refl

  -- What the list is after one more identifier
  grown :
      (removes rest : List ℕ) (id : ℕ) (b : Bool)
      → let next =
          if b
          then if ltb (length removes) window_count then removes ++ id ∷ [] else removes
          else removes in
        next ++ take (window_count - length next) rest
        ≡ removes ++ take (window_count - length removes) (if b then id ∷ rest else rest)
  grown removes rest id false = refl
  grown removes rest id true = elim (dec_lt (length removes) window_count) [
    | yes lt ↦
        let t = lt→ltb (length removes) window_count lt in
        let e = add-take removes rest id in rw (e, t) (append_assoc removes (id ∷ []) _)
    | no ge ↦
        let t = le→ltb (length removes) window_count (omega arith) in
        let e = add-take removes rest id in
        let z : window_count - length removes ≡ zero = omega arith in
        rw (e, t) (ap (λ n. removes ++ take n rest) z)
  ]

  abbrev all_checked : List ℕ → List ℕ × Server S → List ℕ × Server S
  all_checked ids state =
      check_all crc_u32 crc_u8 now session_timeout ping_timeout worker_count num repeat_all ids
        state

  abbrev from_next : ℕ → List ℕ → List ℕ → Server S → (List ℕ × Server S) × Bool
  from_next id rest removes v =
      check_from crc_u32 crc_u8 now session_timeout ping_timeout worker_count num repeat_all rest
        (checked id (removes, v))

  -- The loop at a null session, and at another one
  stopped :
      (id : ℕ) (rest removes : List ℕ) (v : Server S)
      → is_null (sessions_of v id) ≡ true
      → all_checked (id ∷ rest) (removes, v) ≡ (removes, v)
  unfolding check_from get_session
  stopped id rest removes v gone =
      ap (λ b. (if b then ((removes, v), false) else from_next id rest removes v).0) gone

  went_on :
      (id : ℕ) (rest removes : List ℕ) (v : Server S)
      → is_null (sessions_of v id) ≡ false
      → all_checked (id ∷ rest) (removes, v) ≡ all_checked rest (checked id (removes, v))
  unfolding check_from get_session
  went_on id rest removes v there =
      ap (λ b. (if b then ((removes, v), false) else from_next id rest removes v).0) there

  check_all-expired :
      (ids removes : List ℕ) (v : Server S)
      → (all_checked ids (removes, v)).0
        ≡ removes
          ++ take
              (window_count - length removes)
              (expired now session_timeout worker_count num (sessions_of v) ids)
  unfolding check_from
  check_all-expired [] removes v =
      rw (take_nil (window_count - length removes)) (sym (append-nil removes))
  check_all-expired (id ∷ rest) removes v = elim (Bool-cases (is_null (sessions_of v id))) [
    | inl gone ↦
        ap (λ r. r.0) (stopped id rest removes v gone)
        ∙ rw (gone, take_nil (window_count - length removes)) (sym (append-nil removes))
    | inr there ↦
        let next = checked id (removes, v) in
        let (grows, alike) = round id removes v in
        let later = expired now session_timeout worker_count num (sessions_of v) rest in
        ap (λ r. r.0) (went_on id rest removes v there)
        ∙ rw there (
            check_all-expired rest next.0 next.1
            ∙ (ap (λ l. next.0 ++ take (window_count - length next.0) l)
                  (expired-Alike now session_timeout worker_count num (sessions_of next.1)
                    (sessions_of v) rest alike)
                ∙ (ap (λ r. r ++ take (window_count - length r) later) grows
                    ∙ grown removes later id (is_ended (sessions_of v id)))))
  ]

  length-take : (n : ℕ) (xs : List ℕ) → length (take n xs) ≤ n
  length-take zero xs = omega arith
  length-take (suc n) [] = omega arith
  length-take (suc n) (x ∷ xs) = omega (arith, length-take n xs)

  -- If resending leaves the sessions alone, the loop of CheckSessions collects the first 64, in the
  -- order of the map, of the sessions that the worker owns, that are connected and not always kept,
  -- and that are silent for too long or are to be disconnected: never more than its array holds. A
  -- null session in the map ends the loop, and those after it are not collected.
  pub check_all-bounded :
      (ids : List ℕ) (v : Server S)
      → let removes =
          (check_all crc_u32 crc_u8 now session_timeout ping_timeout worker_count num repeat_all ids
            ([], v)).0 in
        (removes
          ≡ take window_count (expired now session_timeout worker_count num (sessions_of v) ids))
        × (length removes ≤ window_count)
  check_all-bounded ids v =
      let e = check_all-expired ids [] v in (e, rw e (length-take window_count _))
