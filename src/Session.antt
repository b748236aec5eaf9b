-- ===== src/Session.antt =====
-- internal/security/access/session.go: sessions by token, and the index of each user's tokens. A
-- method runs without interruption. Read-only listings and the cleanup take and give back their
-- locks, and are functions of the state.
mod State
pub mod Consistency
pub mod Sweep
pub mod Invariant
pub mod Calls
pub mod Reach
pub mod Access
pub mod Limit
mod Examples
unfoldable pub use State.*
use sssonector.Session.State.{
  M, Result, Session, SessionConfig, SessionManager, SessionState, active, err, expired, get,
  lock_sessions, lock_user, modify, not_active, not_found, ok, pure, token_failed, unlock_sessions,
  unlock_user, ◌>>=◌,
}
use sssonector.Prelude.{
  Bool, List, Option, String, [], delete, false, if◌then◌else◌, insert, leb, length, lookup, ltb,
  none, some, string_eq, true, ℕ, ◌&&◌, ◌+◌, ◌==◌, ◌||◌, ◌∷◌,
}

-- `m.userIndex[user]`, with the empty set for a user who is not there.
abbrev pub tokens_of : String → SessionManager → List (String × Bool)
tokens_of user m = elim (lookup user m.user_index) [ none ↦ [] | some set ↦ set ]

-- `delete(userSessions, token)` if the user has an entry.
abbrev pub drop_from :
    String → String → List (String × List (String × Bool)) → List (String × List (String × Bool))
drop_from user token index = elim (lookup user index) [
  | none ↦ index
  | some set ↦ insert user (delete token set) index
]

abbrev pub drop_token : String → String → SessionManager → SessionManager
drop_token user token m = record m { user_index = drop_from user token m.user_index }

abbrev pub drop_session : String → SessionManager → SessionManager
drop_session token m = record m { sessions = delete token m.sessions }

unfoldable pub revoke_session : String → M (Result (Unit {0}))
unfolding lock_sessions unlock_sessions lock_user unlock_user
revoke_session token = do
  lock_sessions
  m ← get
  elim (lookup token m.sessions) [
    | none ↦ do unlock_sessions; pure (err not_found)
    | some session ↦ do
      lock_user
      modify (drop_token session.user_id token)
      unlock_user
      modify (drop_session token)
      unlock_sessions
      pure (ok tt)
  ]

-- The loop of `removeOldestSession`: the token and creation time of the oldest so far, "" at first.
unfoldable pub oldest_token : List (String × Session) → List (String × Bool) → String → ℕ → String
oldest_token sessions [] best time = best
oldest_token sessions ((token, b) ∷ rest) best time = elim (lookup token sessions) [
  | none ↦ oldest_token sessions rest best time
  | some session ↦ elim (best == "" || ltb session.created_at time) [
    | true ↦ oldest_token sessions rest token session.created_at
    | false ↦ oldest_token sessions rest best time
  ]
]

unfoldable pub remove_oldest_session : String → M (Unit {0})
unfolding lock_sessions unlock_sessions revoke_session
remove_oldest_session user = do
  lock_sessions
  unlock_sessions
  m ← get
  elim (lookup user m.user_index) [
    | none ↦ pure tt
    | some set ↦ do
      lock_sessions
      unlock_sessions
      let oldest = oldest_token m.sessions set "" 0
      elim (oldest == "") [ true ↦ pure tt | false ↦ revoke_session oldest >>= λ _. pure tt ]
  ]

abbrev pub new_session : SessionManager → String → String → String → String → String → ℕ → Session
new_session m token user role ip agent now = record {
  id = token;
  user_id = user;
  role = role;
  ip_address = ip;
  user_agent = agent;
  created_at = now;
  last_activity = now;
  expires_at = now + m.config.session_timeout;
  state = active;
}

-- `generated` is what `generateToken` gives, `none` being a failure of the random source.
unfoldable pub create_session :
    Option String → String → String → String → String → ℕ → M (Result Session)
unfolding lock_user unlock_user lock_sessions unlock_sessions
create_session none user role ip agent now = pure (err token_failed)
create_session (some token) user role ip agent now = do
  m ← get
  let session = new_session m token user role ip agent now
  lock_user
  modify (λ s. record s { user_index = insert user (tokens_of user s) s.user_index })
  s ← get
  elim (leb m.config.max_sessions_per_user (length (tokens_of user s))) [
    | true ↦ remove_oldest_session user
    | false ↦ pure tt
  ]
  modify (λ t. record t {
    user_index = insert user (insert token true (tokens_of user t)) t.user_index;
  })
  unlock_user
  lock_sessions
  modify (λ t. record t { sessions = insert token session t.sessions })
  unlock_sessions
  pure (ok session)

unfoldable pub get_session : String → ℕ → M (Result Session)
unfolding lock_sessions unlock_sessions
get_session token now = do
  lock_sessions
  m ← get
  unlock_sessions
  elim (lookup token m.sessions) [
    | none ↦ pure (err not_found)
    | some session ↦ if ltb session.expires_at now then pure (err expired) else pure (ok session)
  ]

abbrev pub is_active : SessionState → Bool
is_active active = true
is_active _ = false

-- True on success; every error comes with false.
unfoldable pub validate_session : String → ℕ → M (Result (Unit {0}))
unfolding get_session
validate_session token now = get_session token now >>= λ r. elim r [
  | err e ↦ pure (err e)
  | ok session ↦ if is_active session.state then pure (ok tt) else pure (err not_active)
]

unfoldable pub update_activity : String → ℕ → M (Result (Unit {0}))
unfolding lock_sessions unlock_sessions
update_activity token now = do
  lock_sessions
  m ← get
  elim (lookup token m.sessions) [
    | none ↦ do unlock_sessions; pure (err not_found)
    | some session ↦ do
      modify (λ s. record s {
        sessions =
            insert token
              (record session { last_activity = now; expires_at = now + s.config.session_timeout })
              s.sessions;
      })
      unlock_sessions
      pure (ok tt)
  ]

-- The loop of `RevokeAllUserSessions`.
unfoldable pub delete_all : List (String × Bool) → List (String × Session) → List (String × Session)
delete_all [] sessions = sessions
delete_all ((token, b) ∷ rest) sessions = delete_all rest (delete token sessions)

unfoldable pub revoke_all_user_sessions : String → M (Unit {0})
unfolding lock_user unlock_user lock_sessions unlock_sessions delete_all
revoke_all_user_sessions user = do
  lock_user
  m ← get
  elim (lookup user m.user_index) [
    | none ↦ unlock_user
    | some set ↦ do
      lock_sessions
      modify (λ s. record s {
        sessions = delete_all set s.sessions;
        user_index = delete user s.user_index;
      })
      unlock_sessions
      unlock_user
  ]

-- The loop of `GetUserSessions`.
unfoldable pub sessions_of : List (String × Bool) → List (String × Session) → List Session
sessions_of [] sessions = []
sessions_of ((token, b) ∷ rest) sessions = elim (lookup token sessions) [
  | none ↦ sessions_of rest sessions
  | some session ↦ session ∷ sessions_of rest sessions
]

unfoldable pub get_user_sessions : String → SessionManager → List Session
unfolding sessions_of
get_user_sessions user m = sessions_of (tokens_of user m) m.sessions

unfoldable pub get_active_sessions : List (String × Session) → List Session
get_active_sessions [] = []
get_active_sessions ((token, session) ∷ rest) =
    if is_active session.state then session ∷ get_active_sessions rest else get_active_sessions rest

unfoldable pub get_session_count : List (String × Session) → ℕ
get_session_count [] = 0
get_session_count ((token, session) ∷ rest) =
    (if is_active session.state then 1 else 0) + get_session_count rest

-- `cleanupExpiredSessions`: an active session goes when it has expired or is too old.
unfoldable pub is_over : SessionConfig → ℕ → Session → Bool
is_over config now session =
    is_active session.state
    && (ltb session.expires_at now || ltb (session.created_at + config.absolute_timeout) now)

-- The loop over `m.sessions` takes each token that is over from the index; the loop after it takes
-- the same tokens from the sessions.
unfoldable pub sweep_index :
    SessionConfig → ℕ → List (String × Session) → SessionManager → SessionManager
unfolding is_over
sweep_index config now [] m = m
sweep_index config now ((token, session) ∷ rest) m =
    sweep_index config now rest
      (if is_over config now session then drop_token session.user_id token m else m)

unfoldable pub sweep_sessions :
    SessionConfig → ℕ → List (String × Session) → SessionManager → SessionManager
unfolding is_over
sweep_sessions config now [] m = m
sweep_sessions config now ((token, session) ∷ rest) m =
    sweep_sessions config now rest (if is_over config now session then drop_session token m else m)

unfoldable pub cleanup_expired_sessions : ℕ → SessionManager → SessionManager
unfolding sweep_index sweep_sessions
cleanup_expired_sessions now m =
    sweep_sessions m.config now m.sessions (sweep_index m.config now m.sessions m)

unfoldable pub new_session_manager : SessionConfig → SessionManager
new_session_manager config = record {
  config = config;
  sessions = [];
  user_index = [];
  session_locked = false;
  user_locked = false;
}
