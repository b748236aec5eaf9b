-- ===== src/Session/Consistency.antt =====
-- The index of tokens and the map of sessions agree: a user's entry holds exactly the tokens of
-- that user's sessions.
use sssonector.Prelude.{
  Bool, List, Option-cases, String, arith, delete, eq_iff, false, if◌then◌else◌, inl, inr, lookup,
  lookup-delete, lookup-insert, lookup-nil, none, refl, some, string_eq, true, ◌&&◌, ◌==◌, ◌≡◌,
}
use sssonector.Session.{
  Session, SessionConfig, SessionManager, done, drop_from, drop_session, drop_token, err, not_found,
  ok, revoke_session, tokens_of,
}

abbrev pub is_indexed : SessionManager → String → String → Bool
is_indexed m user token = elim (lookup token (tokens_of user m)) [ none ↦ false | some _ ↦ true ]

abbrev pub is_owned : SessionManager → String → String → Bool
is_owned m user token = elim (lookup token m.sessions) [ none ↦ false | some s ↦ s.user_id == user ]

abbrev pub IsConsistent : SessionManager → Type 0
IsConsistent m = (user token : String) → is_indexed m user token ≡ is_owned m user token

abbrev pub IsUnlocked : SessionManager → Type 0
IsUnlocked m = (m.user_locked ≡ false) × (m.session_locked ≡ false)

pub is_indexed-drop_token :
    (user token u t : String) (m : SessionManager)
    → is_indexed (drop_token user token m) u t
      ≡ (if user == u && token == t then false else is_indexed m u t)
is_indexed-drop_token user token u t m = elim (Option-cases (lookup user m.user_index)) [
  | inl e ↦ ground (arith, eq_iff user u, eq_iff token t, lookup-nil {V = Bool} t)
  | inr (set, e) ↦ ground (
    arith,
    eq_iff user u,
    eq_iff token t,
    lookup-insert user u (delete token set) m.user_index,
    lookup-delete token t set,
  )
]

pub is_owned-drop_session :
    (token u t : String) (m : SessionManager)
    → is_owned (drop_session token m) u t ≡ (if token == t then false else is_owned m u t)
is_owned-drop_session token u t m = ground (arith, lookup-delete token t m.sessions)

-- Taking a token from its owner's entry and from the sessions keeps the two in step.
pub drop-IsConsistent :
    (token : String) (session : Session) (m : SessionManager)
    → lookup token m.sessions ≡ some session
    → IsConsistent m
    → IsConsistent (drop_session token (drop_token session.user_id token m))
drop-IsConsistent token session m e c u t = ground (
  arith,
  eq_iff session.user_id u,
  eq_iff token t,
  is_indexed-drop_token session.user_id token u t m,
  is_owned-drop_session token u t (drop_token session.user_id token m),
  c u t,
)

-- A manager whose locks are free.
abbrev pub unlocked :
    SessionConfig → List (String × Session) → List (String × List (String × Bool)) → SessionManager
unlocked config sessions index = record {
  config = config;
  sessions = sessions;
  user_index = index;
  session_locked = false;
  user_locked = false;
}

module _ (token : String) (config : SessionConfig) (sessions : List (String × Session))
    (index : List (String × List (String × Bool))) where
  pub revoke_session-found :
      (session : Session)
      → lookup token sessions ≡ some session
      → revoke_session token (unlocked config sessions index)
        ≡ done
            (ok tt)
            (unlocked config (delete token sessions) (drop_from session.user_id token index))
  unfolding revoke_session lookup delete
  revoke_session-found session e = rw (e, revoke_session) refl

  pub revoke_session-missing :
      lookup token sessions ≡ none
      → revoke_session token (unlocked config sessions index)
        ≡ done (err not_found) (unlocked config sessions index)
  unfolding revoke_session lookup
  revoke_session-missing e = rw (e, revoke_session) refl
