-- ===== src/Session/Invariant.antt =====
-- Every sequence of the manager's methods keeps the index and the sessions in step.
use sssonector.Prelude.{
  Bool, HasDistinctKeys, List, Option-cases, String, arith, delete, eq_iff, false, inl, inr, insert,
  lookup, lookup-delete, lookup-insert, lookup-nil, none, some, string_eq, true, ◌≡◌,
}
use sssonector.Session.{Session, SessionManager, delete_all, tokens_of}
use sssonector.Session.Consistency.{IsConsistent}
use sssonector.Session.Sweep.{lookup-delete_all}

-- Locks are free between methods, no token stands twice, none is empty, and index and sessions
-- agree.
pub record Inv (m : SessionManager) : Type 0 where
  pub unlocked_user : m.user_locked ≡ false
  pub unlocked_sessions : m.session_locked ≡ false
  pub distinct : HasDistinctKeys m.sessions
  pub named : lookup "" m.sessions ≡ none
  pub consistent : IsConsistent m

-- The state in which `CreateSession` has made an entry for the user.
abbrev pub entered : SessionManager → String → SessionManager
entered m user = record m { user_index = insert user (tokens_of user m) m.user_index }

abbrev pub created : SessionManager → String → String → Session → SessionManager
created m token user session =
    let n = entered m user in
    record n {
      sessions = insert token session n.sessions;
      user_index = insert user (insert token true (tokens_of user n)) n.user_index;
    }

pub created-IsConsistent :
    (m : SessionManager) (token user : String) (session : Session)
    → session.user_id ≡ user
    → lookup token m.sessions ≡ none
    → IsConsistent m
    → IsConsistent (created m token user session)
created-IsConsistent m token user session own fresh c u t =
    let n = entered m user in
    ground (
      arith,
      eq_iff user u,
      eq_iff user user,
      eq_iff token t,
      lookup-insert token t session m.sessions,
      lookup-insert user u (insert token true (tokens_of user n)) n.user_index,
      lookup-insert user u (tokens_of user m) m.user_index,
      lookup-insert user user (tokens_of user m) m.user_index,
      lookup-insert token t true (tokens_of user n),
      c u t,
    )

pub revoked_all-IsConsistent :
    (m : SessionManager) (user : String) (set : List (String × Bool))
    → lookup user m.user_index ≡ some set
    → IsConsistent m
    → IsConsistent
        (record m { sessions = delete_all set m.sessions; user_index = delete user m.user_index })
revoked_all-IsConsistent m user set e c u t = elim (Option-cases (lookup t m.sessions)) [
  | inl absent ↦ ground (
    arith,
    eq_iff user u,
    lookup-delete_all t set m.sessions,
    lookup-delete user u m.user_index,
    lookup-nil {V = Bool} t,
    c u t,
  )
  | inr (s, found) ↦ ground (
    arith,
    eq_iff user u,
    eq_iff s.user_id u,
    eq_iff s.user_id user,
    lookup-delete_all t set m.sessions,
    lookup-delete user u m.user_index,
    lookup-nil {V = Bool} t,
    c u t,
    c user t,
  )
]

pub touched-IsConsistent :
    (m : SessionManager) (token : String) (s s' : Session)
    → lookup token m.sessions ≡ some s
    → s'.user_id ≡ s.user_id
    → IsConsistent m
    → IsConsistent (record m { sessions = insert token s' m.sessions })
touched-IsConsistent m token s s' e same c u t =
    ground (arith, eq_iff token t, lookup-insert token t s' m.sessions, c u t)
