-- ===== src/Session/Reach.antt =====
-- Sequences of the manager's methods, from an empty manager on.
use mathlib.Core.Path.{subst}
use sssonector.Prelude.{String, arith, lookup, none, refl, some, string_eq, sym, ℕ, ◌≡◌, ◌≢◌}
use sssonector.Session.{
  Result, Session, SessionConfig, SessionManager, cleanup_expired_sessions, create_session, done,
  new_session_manager, revoke_all_user_sessions, revoke_session, update_activity,
}
use sssonector.Session.Consistency.{unlocked}
use sssonector.Session.Invariant.{Inv}
use sssonector.Session.Calls.{
  Ensures, cleanup-Inv, create_session-Ensures, revoke_all-Ensures, revoke_session-Ensures,
  update_activity-Ensures,
}

-- What a client and the cleanup timer do. A fresh token is neither empty nor in use.
pub data Step : SessionManager → SessionManager → Type 0 where
  creates :
      {m m' : SessionManager} (token user role ip agent : String) (now : ℕ) (r : Result Session)
      → token ≢ ""
      → lookup token m.sessions ≡ none
      → create_session (some token) user role ip agent now m ≡ done r m'
      → Step m m'
  revokes :
      {m m' : SessionManager} (token : String) (r : Result (Unit {0}))
      → revoke_session token m ≡ done r m'
      → Step m m'
  revokes_all :
      {m m' : SessionManager} (user : String)
      → revoke_all_user_sessions user m ≡ done tt m'
      → Step m m'
  touches :
      {m m' : SessionManager} (token : String) (now : ℕ) (r : Result (Unit {0}))
      → update_activity token now m ≡ done r m'
      → Step m m'
  cleans : {m m' : SessionManager} (now : ℕ) → m' ≡ cleanup_expired_sessions now m → Step m m'

pub data Reach (s : SessionManager) : SessionManager → Type 0 where
  here : Reach s s
  next : {t u : SessionManager} → Reach s t → Step t u → Reach s u

abbrev free : SessionManager → SessionManager
free m = unlocked m.config m.sessions m.user_index

free-Inv : (m : SessionManager) → Inv m → free m ≡ m
free-Inv m v = ground arith

Step-Inv : {m m' : SessionManager} → Step m m' → Inv m → Inv m'
Step-Inv {m} (creates token user role ip agent now r some' fresh e) v =
    let f = free-Inv m v in
    subst (Ensures Inv) e (
      subst
        (λ (x : SessionManager). Ensures Inv (create_session (some token) user role ip agent now x))
        f
        (create_session-Ensures m.config m.sessions m.user_index token user role ip agent now some'
          fresh (subst Inv (sym f) v)))
Step-Inv {m} (revokes token r e) v =
    let f = free-Inv m v in
    subst (Ensures Inv) e (
      subst (λ (x : SessionManager). Ensures Inv (revoke_session token x)) f
        (revoke_session-Ensures m.config m.sessions m.user_index token (subst Inv (sym f) v)))
Step-Inv {m} (revokes_all user e) v =
    let f = free-Inv m v in
    subst (Ensures Inv) e (
      subst (λ (x : SessionManager). Ensures Inv (revoke_all_user_sessions user x)) f
        (revoke_all-Ensures m.config m.sessions m.user_index user (subst Inv (sym f) v)))
Step-Inv {m} (touches token now r e) v =
    let f = free-Inv m v in
    subst (Ensures Inv) e (
      subst (λ (x : SessionManager). Ensures Inv (update_activity token now x)) f
        (update_activity-Ensures m.config m.sessions m.user_index token now (subst Inv (sym f) v)))
Step-Inv {m} (cleans now e) v =
    let f = free-Inv m v in
    subst Inv (sym e) (
      subst (λ (x : SessionManager). Inv (cleanup_expired_sessions now x)) f
        (cleanup-Inv m.config m.sessions m.user_index now (subst Inv (sym f) v)))

Reach-Inv : {s t : SessionManager} → Inv s → Reach s t → Inv t
Reach-Inv v here = v
Reach-Inv v (next r st) = Step-Inv st (Reach-Inv v r)

-- From an empty manager, and after any sequence of calls that return, of creations with fresh tokens,
-- revocations, revocations of all sessions of a user, activity updates and cleanups: both locks are
-- free, no token stands twice or is empty, and a token is in a user's entry of the index exactly if
-- it has a session of that user.
pub reachable-Inv :
    (config : SessionConfig) {m : SessionManager} → Reach (new_session_manager config) m → Inv m
unfolding new_session_manager lookup
reachable-Inv config r =
    Reach-Inv
      (record {
        unlocked_user = refl;
        unlocked_sessions = refl;
        distinct = tt;
        named = refl;
        consistent = λ u t. refl;
      })
      r
