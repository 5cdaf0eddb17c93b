-- ===== src/SessionManager/Tests.antt =====
-- A manager with one session, and a generator that draws its number first.
use dubuframework.Base.{ℕ, ◌+◌, ◌≡◌, refl, none, some, arith, ◌==◌, if◌then◌else◌}
use dubuframework.SessionManager.{
  SessionManager, add_session, remove_session, get_session, generate_id,
}
use dubuframework.SessionManager.Fresh.{add_session-get_session}

-- A session is its identifier.
abbrev manager : SessionManager ℕ
manager = record {
  session_map = λ id. if id == 5 then some 5 else none;
  session_count = 1;
  drawn = 0;
}

abbrev draws : ℕ → ℕ
draws i = if i == 0 then 5 else i + 20

add_session_runs : (add_session draws 0 (λ id s. id) 3 manager).1 ≡ 21
unfolding add_session generate_id
add_session_runs = refl

add_session-get_session_example :
    let (m', id) = add_session draws 0 (λ id s. id) 3 manager in
    (get_session id manager ≡ none)
    × ((any : ℕ) → get_session any m' ≡ (if id == any then some id else get_session any manager))
    × ((any : ℕ) → get_session any (remove_session id m') ≡ get_session any manager)
unfolding get_session
add_session-get_session_example =
    add_session-get_session draws 0 (λ id s. id) 3 1 manager (omega arith) refl
