-- ===== src/SessionManager/Fresh.antt =====
-- The identifiers that are given out.
use dubuframework.Base.{
  ℕ, zero, suc, ◌+◌, ◌≤◌, ◌≡◌, ◌≢◌, refl, sym, ◌∙◌, ◌-◌, inl, inr, Option, none, some, arith,
  Option-cases, ◌==◌, if◌then◌else◌, update, update_self, update_ne,
}
use native.Mathlib.Decide.{ℕ_discrete}
use dubuframework.SessionManager.{
  SessionManager, generate_id, add_session, remove_session, get_session,
}

module _ {A : Type 0} (draws : ℕ → ℕ) where
  -- If one of the next numbers is free, the loop finds a free one.
  generate_id_free :
      (fuel i j : ℕ) (sessions : ℕ → Option A)
      → j ≤ fuel
      → sessions (draws (i + j)) ≡ none
      → sessions (generate_id draws fuel i sessions).0 ≡ none
  unfolding generate_id
  generate_id_free zero i j sessions le free = let e : i + j ≡ i = omega arith in rw e at free
  generate_id_free (suc fuel) i j sessions le free = elim (Option-cases (sessions (draws i))) [
    | inl gone ↦ rw gone gone
    | inr (a, is) ↦
        let later : j ≢ 0 = λ z. let e : i + j ≡ i = omega (arith, z) in cc (is, rw e at free) in
        let e : i + j ≡ i + 1 + (j - 1) = omega arith in
        rw is (generate_id_free fuel (i + 1) (j - 1) sessions (omega arith) (rw e at free))
  ]

  -- If one of the numbers drawn within the bound is not taken, AddSession gives out an identifier
  -- that no session has; the session is then found under it, with it as its own, and every other
  -- session as before; and RemoveSession of it restores what is found.
  pub add_session-get_session :
      (pop : A) (set_session_id : ℕ → A → A) (fuel j : ℕ) (m : SessionManager A)
      → j ≤ fuel
      → get_session (draws (m.drawn + j)) m ≡ none
      → let (m', id) = add_session draws pop set_session_id fuel m in
        (get_session id m ≡ none)
        × ((any : ℕ)
            → get_session any m'
              ≡ (if id == any then some (set_session_id id pop) else get_session any m))
        × ((any : ℕ) → get_session any (remove_session id m') ≡ get_session any m)
  unfolding add_session get_session remove_session
  add_session-get_session pop set_session_id fuel j m le free =
      let id = (generate_id draws fuel m.drawn m.session_map).0 in
      let fresh = generate_id_free fuel m.drawn j m.session_map le free in
      let s = some (set_session_id id pop) in
      (
        fresh,
        λ any. refl,
        λ any. elim (ℕ_discrete id any) [
          | yes e ↦ rw (← e) (update_self (update m.session_map id s) id none ∙ sym fresh)
          | no ne ↦
              update_ne (update m.session_map id s) id none any ne
              ∙ update_ne m.session_map id s any ne
        ],
      )
