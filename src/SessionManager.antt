-- ===== src/SessionManager.antt =====
-- SessionManager.h and .cpp: the sessions by their identifiers, which are drawn at random until one
-- is free.
pub mod Fresh
mod Tests
use dubuframework.Base.{
  ℕ, zero, suc, ◌+◌, Bool, true, false, Option, none, some, if◌then◌else◌, update, succ32,
}

-- class SessionManager, for sessions of type `A`; `drawn` counts the numbers drawn so far.
pub record SessionManager (A : Type 0) : Type 0 where
  pub session_map : ℕ → Option A
  pub session_count : ℕ
  pub drawn : ℕ

abbrev pub is_some : {A : Type 0} → Option A → Bool
is_some none = false
is_some (some a) = true

-- `draws i` is the `i`-th number of `distribution_(rng_)`.
module _ {A : Type 0} (draws : ℕ → ℕ) where
  -- GenerateId: the loop after `i` numbers; the first argument bounds its rounds.
  unfoldable pub generate_id : ℕ → ℕ → (ℕ → Option A) → ℕ × ℕ
  generate_id zero i sessions = (draws i, i + 1)
  generate_id (suc fuel) i sessions =
      let rest = generate_id fuel (i + 1) sessions in
      if is_some (sessions (draws i)) then rest else (draws i, i + 1)

  -- AddSession, with the identifier of the session. `pop` is a session from the pool, and
  -- `set_session_id` is Session::SetSessionId; the number after them bounds the draws.
  unfoldable pub add_session : A → (ℕ → A → A) → ℕ → SessionManager A → SessionManager A × ℕ
  add_session pop set_session_id fuel m =
      let (id, drawn) = generate_id fuel m.drawn m.session_map in
      (
        record {
          session_map = update m.session_map id (some (set_session_id id pop));
          session_count = succ32 m.session_count;
          drawn = drawn;
        },
        id,
      )

-- RemoveSession
unfoldable pub remove_session : {A : Type 0} → ℕ → SessionManager A → SessionManager A
remove_session id m = record m { session_map = update m.session_map id none }

-- GetSession
unfoldable pub get_session : {A : Type 0} → ℕ → SessionManager A → Option A
get_session id m = m.session_map id
