-- ===== src/Session/State.antt =====
-- The state of the session manager (internal/security/access/session.go), and methods as state
-- passing with an outcome. The two locks are part of the state: a method that locks a lock which it
-- holds already never returns, which is the outcome `deadlock`.
use sssonector.Prelude.{Bool, List, String, false, if◌then◌else◌, true, ℕ}

pub data SessionState : Type 0 where
  active session_expired revoked timed_out : SessionState

-- `Metadata` is an empty map that nothing reads, and is left out.
pub record Session : Type 0 where
  pub id : String
  pub user_id : String
  pub role : String
  pub ip_address : String
  pub user_agent : String
  pub created_at : ℕ
  pub last_activity : ℕ
  pub expires_at : ℕ
  pub state : SessionState

pub record SessionConfig : Type 0 where
  pub session_timeout : ℕ
  pub absolute_timeout : ℕ
  pub max_sessions_per_user : ℕ

pub record SessionManager : Type 0 where
  pub config : SessionConfig
  pub sessions : List (String × Session)
  pub user_index : List (String × List (String × Bool))
  pub session_locked : Bool
  pub user_locked : Bool

pub data SessionError : Type 0 where
  token_failed not_found expired not_active : SessionError

pub data Result (A : Type 0) : Type 0 where
  ok : A → Result A
  err : SessionError → Result A

pub data Outcome (A : Type 0) : Type 0 where
  done : A → SessionManager → Outcome A
  deadlock : Outcome A

abbrev pub M : Type 0 → Type 0
M A = SessionManager → Outcome A

infixl 5 ◌>>=◌ ◌>>◌
abbrev pub ◌>>=◌ : {A B : Type 0} → M A → (A → M B) → M B
◌>>=◌ m f s = elim (m s) [ done a s' ↦ f a s' | deadlock ↦ deadlock ]

abbrev pub ◌>>◌ : {B : Type 0} → M (Unit {0}) → M B → M B
m >> k = m >>= λ _. k

abbrev pub pure : {A : Type 0} → A → M A
pure a s = done a s

abbrev pub modify : (SessionManager → SessionManager) → M (Unit {0})
modify f s = done tt (f s)

abbrev pub get : M SessionManager
get s = done s s

unfoldable pub lock_user : M (Unit {0})
lock_user m = if m.user_locked then deadlock else done tt (record m { user_locked = true })

unfoldable pub unlock_user : M (Unit {0})
unlock_user m = done tt (record m { user_locked = false })

unfoldable pub lock_sessions : M (Unit {0})
lock_sessions m =
    if m.session_locked then deadlock else done tt (record m { session_locked = true })

unfoldable pub unlock_sessions : M (Unit {0})
unlock_sessions m = done tt (record m { session_locked = false })
