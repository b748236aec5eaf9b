-- ===== src/Session/Access.antt =====
-- Which tokens a manager accepts, after revocations, expiry and activity.
use sssonector.Session.Invariant.{Inv}
use sssonector.Session.Calls.{revoke_all_found, update_activity_found}
use sssonector.Session.Sweep.{lookup-delete_all}
use sssonector.Prelude.{
  Bool, Bool-cases, List, String, arith, delete, eq_iff, if◌then◌else◌, inl, inr, insert, le→ltb,
  lookup, lookup-delete, lookup-insert, ltb, lt→ltb, none, refl, some, string_eq, ℕ, ◌+◌, ◌<◌, ◌==◌,
  ◌∙◌, ◌≡◌,
}
use sssonector.Session.{
  Session, SessionConfig, SessionManager, active, delete_all, done, drop_from, err, expired,
  is_active, not_active, not_found, ok, revoke_all_user_sessions, revoke_session, update_activity,
  validate_session,
}
use sssonector.Session.Consistency.{revoke_session-found, unlocked}

module _ (config : SessionConfig) (sessions : List (String × Session))
    (index : List (String × List (String × Bool))) where
  abbrev manager : SessionManager
  manager = unlocked config sessions index

  validate_missing :
      (token : String) (now : ℕ)
      → lookup token sessions ≡ none
      → validate_session token now manager ≡ done (err not_found) manager
  unfolding validate_session lookup
  validate_missing token now e = rw (e, validate_session) refl

  -- What `ValidateSession` answers for a token that has a session: it accepts an active session that
  -- has not passed its expiry time, and changes nothing in any case.
  pub validate_session-found :
      (token : String) (now : ℕ) (s : Session)
      → lookup token sessions ≡ some s
      → validate_session token now manager
        ≡ done
            (if ltb s.expires_at now
              then err expired
              else if is_active s.state
              then ok tt
              else err not_active)
            manager
  unfolding validate_session lookup
  validate_session-found token now s e = elim (Bool-cases (ltb s.expires_at now)) [
    | inl h ↦ rw (e, validate_session) (rw h refl)
    | inr h ↦ elim (Bool-cases (is_active s.state)) [
      | inl a ↦ rw (e, validate_session) (rw (h, a) refl)
      | inr a ↦ rw (e, validate_session) (rw (h, a) refl)
    ]
  ]

module _ (config : SessionConfig) (sessions : List (String × Session))
    (index : List (String × List (String × Bool))) where
  -- Revoking a token that has a session succeeds, and then the token is not found, while every other
  -- token has the session that it had.
  pub revoke_session-revokes :
      (token : String) (s : Session) (t : String) (now : ℕ)
      → lookup token sessions ≡ some s
      → (m' : SessionManager) × (revoke_session token (unlocked config sessions index)
          ≡ done (ok tt) m')
        × (validate_session token now m' ≡ done (err not_found) m')
        × (lookup t m'.sessions ≡ (if token == t then none else lookup t sessions))
  revoke_session-revokes token s t now e =
      let rest : List (String × Session) = delete token sessions in
      let index' : List (String × List (String × Bool)) = drop_from s.user_id token index in
      (
        unlocked config rest index',
        revoke_session-found token config sessions index s e,
        validate_missing config rest index' token now
            (ground (arith, eq_iff token token, lookup-delete token token sessions)),
        lookup-delete token t sessions,
      )

  -- Revoking all sessions of a user who has an entry removes the sessions of that user, and no other
  -- session, and the user's entry.
  pub revoke_all-revokes :
      (user t : String) (set : List (String × Bool))
      → Inv (unlocked config sessions index)
      → lookup user index ≡ some set
      → (m' : SessionManager) × (revoke_all_user_sessions user (unlocked config sessions index)
          ≡ done tt m')
        × (lookup t m'.sessions ≡ elim (lookup t sessions) [
          | none ↦ none
          | some s ↦ if s.user_id == user then none else some s
        ])
        × (lookup user m'.user_index ≡ none)
  revoke_all-revokes user t set v e = (
    unlocked config (delete_all set sessions) (delete user index),
    revoke_all_found config sessions index user set e,
    ground (arith, lookup-delete_all t set sessions, v.consistent user t),
    ground (arith, eq_iff user user, lookup-delete user user index),
  )

  -- Activity brings an expired session back: `UpdateActivity` does not look at the expiry time, so an
  -- active session that `ValidateSession` refuses as expired is accepted again after it, as long as
  -- no cleanup has come between.
  pub update_activity-revives :
      (token : String) (now : ℕ) (s : Session)
      → lookup token sessions ≡ some s
      → s.state ≡ active
      → s.expires_at < now
      → let m = unlocked config sessions index in
        (m' : SessionManager) × (validate_session token now m ≡ done (err expired) m)
        × (update_activity token now m ≡ done (ok tt) m')
        × (validate_session token now m' ≡ done (ok tt) m')
  update_activity-revives token now s e a late =
      let s' : Session = record s {
        last_activity = now;
        expires_at = now + config.session_timeout;
      } in
      let sessions' : List (String × Session) = insert token s' sessions in
      let found : lookup token sessions' ≡ some s' =
        ground (arith, eq_iff token token, lookup-insert token token s' sessions) in
      (
        unlocked config sessions' index,
        validate_session-found config sessions index token now s e
            ∙ rw (lt→ltb s.expires_at now late) refl,
        update_activity_found config sessions index token now s e,
        validate_session-found config sessions' index token now s' found
            ∙ rw (le→ltb (now + config.session_timeout) now (omega arith), a) refl,
      )
