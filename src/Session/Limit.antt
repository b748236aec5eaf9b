-- ===== src/Session/Limit.antt =====
-- What `CreateSession` does below the limit of sessions of a user, and at it.
use sssonector.Session.Consistency.{unlocked}
use sssonector.Session.Invariant.{created, entered}
use sssonector.Prelude.{
  Bool, Bool-cases, List, Option-cases, String, [], arith, eq_iff, false, inl, inr, insert, leb,
  length, le→leb, lookup, lookup-insert, ltb, none, refl, some, string_eq, suc, true, ℕ, ◌==◌, ◌||◌,
  ◌∙◌, ◌∷◌, ◌≡◌, ◌≤◌,
}
use sssonector.Session.{
  Session, SessionConfig, SessionManager, create_session, deadlock, done, new_session, ok,
  oldest_token, remove_oldest_session, tokens_of,
}

oldest_token-found :
    (sessions : List (String × Session)) (set : List (String × Bool)) (best : String) (time : ℕ)
    (s : Session)
    → lookup best sessions ≡ some s
    → (s' : Session) × (lookup (oldest_token sessions set best time) sessions ≡ some s')
unfolding oldest_token
oldest_token-found sessions [] best time s e = (s, e)
oldest_token-found sessions ((t, b) ∷ rest) best time s e =
    elim (Option-cases (lookup t sessions)) [
      | inl none' ↦ rw (none', oldest_token) (oldest_token-found sessions rest best time s e)
      | inr (u, some') ↦ elim (Bool-cases (best == "" || ltb u.created_at time)) [
        | inl older ↦
            rw (some', oldest_token)
              (rw older (oldest_token-found sessions rest t u.created_at u some'))
        | inr newer ↦
            rw (some', oldest_token) (rw newer (oldest_token-found sessions rest best time s e))
      ]
    ]

-- With no session under the empty token, a user's first live token makes the loop find one.
oldest_token-cons :
    (sessions : List (String × Session)) (t : String) (b : Bool) (rest : List (String × Bool))
    (s : Session)
    → lookup t sessions ≡ some s
    → (s' : Session) × (lookup (oldest_token sessions ((t, b) ∷ rest) "" 0) sessions ≡ some s')
unfolding oldest_token
oldest_token-cons sessions t b rest s e =
    rw (e, oldest_token) (oldest_token-found sessions rest t s.created_at s e)

tokens_of-entered :
    (m : SessionManager) (user : String) → tokens_of user (entered m user) ≡ tokens_of user m
tokens_of-entered m user =
    ground (arith, eq_iff user user, lookup-insert user user (tokens_of user m) m.user_index)

module _ (token user role ip agent : String) (now : ℕ) (config : SessionConfig)
    (sessions : List (String × Session)) (index : List (String × List (String × Bool))) where
  abbrev start : SessionManager
  start = unlocked config sessions index

  pub create_session-below :
      leb config.max_sessions_per_user (length (tokens_of user start)) ≡ false
      → let session = new_session start token user role ip agent now in
        create_session (some token) user role ip agent now start
        ≡ done (ok session) (created start token user session)
  unfolding create_session lookup insert
  create_session-below below =
      let low : leb config.max_sessions_per_user (length (tokens_of user (entered start user)))
          ≡ false =
        rw (tokens_of-entered start user) below in
      rw (low, create_session) refl

  remove_oldest_session-deadlocks :
      (t : String) (b : Bool) (rest : List (String × Bool)) (s : Session)
      → lookup user index ≡ some ((t, b) ∷ rest)
      → lookup t sessions ≡ some s
      → lookup "" sessions ≡ none
      → remove_oldest_session user (record start { user_locked = true }) ≡ deadlock
  unfolding remove_oldest_session lookup
  remove_oldest_session-deadlocks t b rest s has live empty =
      let (s', found) = oldest_token-cons sessions t b rest s live in
      let oldest : String = oldest_token sessions ((t, b) ∷ rest) "" 0 in
      let named : (oldest == "") ≡ false = ground (arith, eq_iff oldest "") in
      rw (has, remove_oldest_session)
        (rw (named, remove_oldest_session) (rw (found, remove_oldest_session) refl))

  remove_oldest_session-empty :
      lookup user index ≡ some []
      → remove_oldest_session user (record start { user_locked = true })
        ≡ done tt (record start { user_locked = true })
  unfolding remove_oldest_session lookup oldest_token
  remove_oldest_session-empty has = rw (has, remove_oldest_session) refl

lookup-entered :
    (config : SessionConfig) (sessions : List (String × Session))
    (index : List (String × List (String × Bool))) (user : String) (set : List (String × Bool))
    → lookup user index ≡ some set
    → lookup user (entered (unlocked config sessions index) user).user_index ≡ some set
lookup-entered config sessions index user set has = ground (
  arith,
  eq_iff user user,
  lookup-insert user user (tokens_of user (unlocked config sessions index)) index,
)

-- At the limit of sessions of a user, `CreateSession` never returns: it holds the users' lock when
-- it removes the oldest session, and the removal takes that lock again. So it is for every user
-- whose entry is full and starts with a token that has a session, as long as no session has the
-- empty token.
pub create_session-deadlocks :
    (token user role ip agent : String) (now : ℕ) (config : SessionConfig)
    (sessions : List (String × Session)) (index : List (String × List (String × Bool))) (t : String)
    (b : Bool) (rest : List (String × Bool)) (s : Session)
    → lookup user index ≡ some ((t, b) ∷ rest)
    → lookup t sessions ≡ some s
    → lookup "" sessions ≡ none
    → config.max_sessions_per_user ≤ suc (length rest)
    → create_session (some token) user role ip agent now (unlocked config sessions index) ≡ deadlock
unfolding create_session lookup insert remove_oldest_session
create_session-deadlocks token user role ip agent now config sessions index t b rest s has live
      empty full =
    let m : SessionManager = unlocked config sessions index in
    let held : tokens_of user (entered m user) ≡ (t, b) ∷ rest =
      tokens_of-entered m user ∙ rw (has, tokens_of) in
    let high : leb config.max_sessions_per_user (length (tokens_of user (entered m user))) ≡ true =
      rw held (le→leb config.max_sessions_per_user (suc (length rest)) full) in
    let stuck =
      remove_oldest_session-deadlocks token user role ip agent now config sessions
        (entered m user).user_index t b rest s
        (lookup-entered config sessions index user ((t, b) ∷ rest) has) live empty in
    rw (high, create_session) (rw stuck refl)

lookup-entered_nil :
    (m : SessionManager) (user : String)
    → tokens_of user m ≡ []
    → lookup user (entered m user).user_index ≡ some []
lookup-entered_nil m user e =
    ground (arith, eq_iff user user, lookup-insert user user (tokens_of user m) m.user_index)

-- With no token in the user's entry there is no oldest session, and the limit, 0 here, is passed.
pub create_session-empty :
    (token user role ip agent : String) (now : ℕ) (config : SessionConfig)
    (sessions : List (String × Session)) (index : List (String × List (String × Bool)))
    → tokens_of user (unlocked config sessions index) ≡ []
    → let m = unlocked config sessions index in
      let session = new_session m token user role ip agent now in
      create_session (some token) user role ip agent now m
      ≡ done (ok session) (created m token user session)
unfolding create_session lookup insert remove_oldest_session
create_session-empty token user role ip agent now config sessions index none' =
    let m : SessionManager = unlocked config sessions index in
    let nothing =
      remove_oldest_session-empty token user role ip agent now config sessions
        (entered m user).user_index (lookup-entered_nil m user none') in
    elim (Bool-cases
      (leb config.max_sessions_per_user (length (tokens_of user (entered m user))))) [
        | inl high ↦ rw (high, create_session) (rw nothing refl)
        | inr low ↦ rw (low, create_session) refl
      ]
