-- ===== src/Session/Calls.antt =====
-- Each method keeps the invariant of the session manager, from a state whose locks are free.
use sssonector.Prelude.{
  Bool, Bool-cases, HasDistinctKeys, List, Option, Option-cases, String, [], arith, delete,
  delete-HasDistinctKeys, eq_iff, inl, inr, insert, insert-HasDistinctKeys, leb, leb→le, length,
  lookup, lookup-delete, lookup-insert, none, refl, some, string_eq, ℕ, ◌+◌, ◌∷◌, ◌≡◌, ◌≢◌, ◌≤◌,
}
use sssonector.Session.{
  Outcome, Session, SessionConfig, SessionManager, cleanup_expired_sessions, create_session,
  deadlock, delete_all, done, err, new_session, not_found, ok, revoke_all_user_sessions,
  revoke_session, tokens_of, update_activity,
}
use sssonector.Session.Consistency.{
  drop-IsConsistent, revoke_session-found, revoke_session-missing, unlocked,
}
use sssonector.Session.Invariant.{
  Inv, created, created-IsConsistent, revoked_all-IsConsistent, touched-IsConsistent,
}
use sssonector.Session.Sweep.{
  cleanup-IsConsistent, cleanup_frame, lookup-cleanup, lookup-delete_all,
}
use sssonector.Session.Limit.{create_session-below, create_session-deadlocks, create_session-empty}

abbrev pub Ensures : {A : Type 0} → (SessionManager → Type 0) → Outcome A → Type 0
Ensures P (done a m) = P m
Ensures P deadlock = Unit

module _ (config : SessionConfig) (sessions : List (String × Session))
    (index : List (String × List (String × Bool))) where
  abbrev pub current : SessionManager
  current = unlocked config sessions index

  pub revoke_session-Ensures :
      (token : String) → Inv current → Ensures Inv (revoke_session token current)
  revoke_session-Ensures token v = elim (Option-cases (lookup token sessions)) [
    | inl e ↦ rw (revoke_session-missing token config sessions index e) v
    | inr (s, e) ↦ rw (revoke_session-found token config sessions index s e) (record {
      unlocked_user = refl;
      unlocked_sessions = refl;
      distinct = delete-HasDistinctKeys token sessions v.distinct;
      named = ground (arith, eq_iff token "", lookup-delete token "" sessions, v.named);
      consistent = drop-IsConsistent token s current e v.consistent;
    })
  ]

  created-Inv :
      (token user role ip agent : String) (now : ℕ)
      → token ≢ ""
      → lookup token sessions ≡ none
      → Inv current
      → Inv (created current token user (new_session current token user role ip agent now))
  created-Inv token user role ip agent now some' fresh v = record {
    unlocked_user = refl;
    unlocked_sessions = refl;
    distinct =
        insert-HasDistinctKeys token (new_session current token user role ip agent now) sessions
          v.distinct;
    named = ground (
      arith,
      eq_iff token "",
      lookup-insert token "" (new_session current token user role ip agent now) sessions,
      v.named,
    );
    consistent = created-IsConsistent current token user _ refl fresh v.consistent;
  }

  pub live_token :
      (user t : String) (b : Bool) (rest : List (String × Bool))
      → lookup user index ≡ some ((t, b) ∷ rest)
      → Inv current
      → (s : Session) × (lookup t sessions ≡ some s)
  unfolding lookup
  live_token user t b rest e v = elim (Option-cases (lookup t sessions)) [
    | inl absent ↦ absurd (ground (arith, v.consistent user t, eq_iff t t))
    | inr found ↦ found
  ]

  -- The user's entry is full: it is empty and the limit is 0, or the call does not return.
  full_entry :
      (token user role ip agent : String) (now : ℕ) (entry : Option (List (String × Bool)))
      → lookup user index ≡ entry
      → config.max_sessions_per_user ≤ length (tokens_of user current)
      → Inv (created current token user (new_session current token user role ip agent now))
      → Inv current
      → Ensures Inv (create_session (some token) user role ip agent now current)
  full_entry token user role ip agent now none e full after v =
      rw
        (create_session-empty token user role ip agent now config sessions index
          (rw (e, tokens_of)))
        after
  full_entry token user role ip agent now (some []) e full after v =
      rw
        (create_session-empty token user role ip agent now config sessions index
          (rw (e, tokens_of)))
        after
  full_entry token user role ip agent now (some ((t, b) ∷ rest)) e full after v =
      let live = live_token user t b rest e v in
      rw
        (create_session-deadlocks token user role ip agent now config sessions index t b rest live.0
          e live.1 v.named (ground arith))
        tt

  pub create_session-Ensures :
      (token user role ip agent : String) (now : ℕ)
      → token ≢ ""
      → lookup token sessions ≡ none
      → Inv current
      → Ensures Inv (create_session (some token) user role ip agent now current)
  create_session-Ensures token user role ip agent now some' fresh v =
      let after = created-Inv token user role ip agent now some' fresh v in
      elim (Bool-cases (leb config.max_sessions_per_user (length (tokens_of user current)))) [
        | inr low ↦
            rw (create_session-below token user role ip agent now config sessions index low) after
        | inl high ↦
            full_entry token user role ip agent now (lookup user index) refl (leb→le _ _ high) after
              v
      ]

  delete_all-HasDistinctKeys :
      (set : List (String × Bool)) (l : List (String × Session))
      → HasDistinctKeys l
      → HasDistinctKeys (delete_all set l)
  unfolding delete_all
  delete_all-HasDistinctKeys [] l h = h
  delete_all-HasDistinctKeys ((t, b) ∷ rest) l h =
      delete_all-HasDistinctKeys rest (delete t l) (delete-HasDistinctKeys t l h)

  revoke_all_missing :
      (user : String)
      → lookup user index ≡ none
      → revoke_all_user_sessions user current ≡ done tt current
  unfolding revoke_all_user_sessions lookup delete
  revoke_all_missing user e = rw (e, revoke_all_user_sessions) refl

  pub revoke_all_found :
      (user : String) (set : List (String × Bool))
      → lookup user index ≡ some set
      → revoke_all_user_sessions user current
        ≡ done tt (unlocked config (delete_all set sessions) (delete user index))
  unfolding revoke_all_user_sessions lookup delete
  revoke_all_found user set e = rw (e, revoke_all_user_sessions) refl

  update_activity_missing :
      (token : String) (now : ℕ)
      → lookup token sessions ≡ none
      → update_activity token now current ≡ done (err not_found) current
  unfolding update_activity lookup insert
  update_activity_missing token now e = rw (e, update_activity) refl

  pub update_activity_found :
      (token : String) (now : ℕ) (s : Session)
      → lookup token sessions ≡ some s
      → update_activity token now current
        ≡ done (ok tt) (record current {
          sessions =
              insert token
                (record s { last_activity = now; expires_at = now + config.session_timeout })
                sessions;
        })
  unfolding update_activity lookup insert
  update_activity_found token now s e = rw (e, update_activity) refl

  pub revoke_all-Ensures :
      (user : String) → Inv current → Ensures Inv (revoke_all_user_sessions user current)
  revoke_all-Ensures user v = elim (Option-cases (lookup user index)) [
    | inl e ↦ rw (revoke_all_missing user e) v
    | inr (set, e) ↦ rw (revoke_all_found user set e) (record {
      unlocked_user = refl;
      unlocked_sessions = refl;
      distinct = delete_all-HasDistinctKeys set sessions v.distinct;
      named = ground (arith, lookup-delete_all "" set sessions, v.named);
      consistent = revoked_all-IsConsistent current user set e v.consistent;
    })
  ]

  pub update_activity-Ensures :
      (token : String) (now : ℕ) → Inv current → Ensures Inv (update_activity token now current)
  update_activity-Ensures token now v = elim (Option-cases (lookup token sessions)) [
    | inl e ↦ rw (update_activity_missing token now e) v
    | inr (s, e) ↦
        let s' : Session = record s {
          last_activity = now;
          expires_at = now + config.session_timeout;
        } in
        rw (update_activity_found token now s e) (record {
          unlocked_user = refl;
          unlocked_sessions = refl;
          distinct = insert-HasDistinctKeys token s' sessions v.distinct;
          named = ground (arith, eq_iff token "", lookup-insert token "" s' sessions, v.named);
          consistent = touched-IsConsistent current token s s' e refl v.consistent;
        })
  ]

  pub cleanup-Inv : (now : ℕ) → Inv current → Inv (cleanup_expired_sessions now current)
  cleanup-Inv now v =
      let (d, u, s, c) = cleanup_frame now current v.distinct in
      record {
        unlocked_user = u;
        unlocked_sessions = s;
        distinct = d;
        named = ground (arith, lookup-cleanup now "" current v.distinct, v.named);
        consistent = cleanup-IsConsistent now current v.distinct v.consistent;
      }
