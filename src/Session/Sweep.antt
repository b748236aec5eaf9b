-- ===== src/Session/Sweep.antt =====
-- What a revocation of all of a user's sessions and the cleanup do to the index and the sessions.
use sssonector.Prelude.{
  Bool, Bool-cases, HasDistinctKeys, List, String, [], ap, arith, delete, delete-HasDistinctKeys,
  eq_iff, false, has_key, if◌then◌else◌, inl, inr, lookup, lookup-delete, none, refl, some,
  string_eq, true, ℕ, ◌&&◌, ◌==◌, ◌||◌, ◌∙◌, ◌∷◌, ◌≡◌,
}
use sssonector.Session.{
  Session, SessionConfig, SessionManager, cleanup_expired_sessions, delete_all, drop_session,
  drop_token, is_over, sweep_index, sweep_sessions,
}
use sssonector.Session.Consistency.{IsConsistent, is_indexed, is_indexed-drop_token}

pub lookup-delete_all :
    (t : String) (set : List (String × Bool)) (sessions : List (String × Session))
    → lookup t (delete_all set sessions) ≡ (if has_key t set then none else lookup t sessions)
unfolding delete_all lookup
lookup-delete_all t [] sessions = refl
lookup-delete_all t ((k, b) ∷ rest) sessions =
    ground
      (arith, eq_iff k t, lookup-delete_all t rest (delete k sessions), lookup-delete k t sessions)

-- Whether the loop over the sessions drops this token, and from this user's entry.
abbrev is_gone : SessionConfig → ℕ → String → List (String × Session) → Bool
is_gone config now t [] = false
is_gone config now t ((k, s) ∷ rest) = (k == t && is_over config now s) || is_gone config now t rest

abbrev is_taken : SessionConfig → ℕ → String → String → List (String × Session) → Bool
is_taken config now u t [] = false
is_taken config now u t ((k, s) ∷ rest) =
    (k == t && (is_over config now s && s.user_id == u)) || is_taken config now u t rest

is_gone-lookup :
    (config : SessionConfig) (now : ℕ) (t : String) (l : List (String × Session))
    → HasDistinctKeys l
    → is_gone config now t l ≡ elim (lookup t l) [ none ↦ false | some s ↦ is_over config now s ]
unfolding lookup
is_gone-lookup config now t [] h = refl
is_gone-lookup config now t ((k, s) ∷ rest) h =
    ground (arith, eq_iff k t, is_gone-lookup config now t rest h.1)

is_taken-lookup :
    (config : SessionConfig) (now : ℕ) (u t : String) (l : List (String × Session))
    → HasDistinctKeys l
    → is_taken config now u t l
      ≡ elim (lookup t l) [ none ↦ false | some s ↦ is_over config now s && s.user_id == u ]
unfolding lookup
is_taken-lookup config now u t [] h = refl
is_taken-lookup config now u t ((k, s) ∷ rest) h =
    ground (arith, eq_iff k t, is_taken-lookup config now u t rest h.1)

is_indexed-sweep_index :
    (config : SessionConfig) (now : ℕ) (u t : String) (l : List (String × Session))
    (m : SessionManager)
    → is_indexed (sweep_index config now l m) u t
      ≡ (if is_taken config now u t l then false else is_indexed m u t)
unfolding sweep_index
is_indexed-sweep_index config now u t [] m = refl
is_indexed-sweep_index config now u t ((k, s) ∷ rest) m = elim (Bool-cases (is_over config now s)) [
  | inl over ↦ ground (
    arith,
    eq_iff k t,
    eq_iff s.user_id u,
    is_indexed-sweep_index config now u t rest (drop_token s.user_id k m),
    is_indexed-drop_token s.user_id k u t m,
  )
  | inr kept ↦ ground (arith, is_indexed-sweep_index config now u t rest m)
]

lookup-sweep_sessions :
    (config : SessionConfig) (now : ℕ) (t : String) (l : List (String × Session))
    (m : SessionManager)
    → lookup t (sweep_sessions config now l m).sessions
      ≡ (if is_gone config now t l then none else lookup t m.sessions)
unfolding sweep_sessions
lookup-sweep_sessions config now t [] m = refl
lookup-sweep_sessions config now t ((k, s) ∷ rest) m = elim (Bool-cases (is_over config now s)) [
  | inl over ↦ ground (
    arith,
    eq_iff k t,
    lookup-sweep_sessions config now t rest (drop_session k m),
    lookup-delete k t m.sessions,
  )
  | inr kept ↦ ground (arith, lookup-sweep_sessions config now t rest m)
]

drop_token-frame :
    (b : Bool) (user token : String) (m : SessionManager)
    (index : List (String × List (String × Bool)))
    → record (if b then drop_token user token m else m) { user_index = index }
      ≡ record m { user_index = index }
drop_token-frame true user token m index = refl
drop_token-frame false user token m index = refl

drop_session-frame :
    (b : Bool) (token : String) (m : SessionManager) (sessions : List (String × Session))
    → record (if b then drop_session token m else m) { sessions = sessions }
      ≡ record m { sessions = sessions }
drop_session-frame true token m sessions = refl
drop_session-frame false token m sessions = refl

drop_session-HasDistinctKeys :
    (b : Bool) (token : String) (m : SessionManager)
    → HasDistinctKeys m.sessions
    → HasDistinctKeys (if b then drop_session token m else m).sessions
drop_session-HasDistinctKeys true token m h = delete-HasDistinctKeys token m.sessions h
drop_session-HasDistinctKeys false token m h = h

module _ (config : SessionConfig) (now : ℕ) where
  index_frame :
      (l : List (String × Session)) (m : SessionManager)
      → sweep_index config now l m
        ≡ record m { user_index = (sweep_index config now l m).user_index }
  unfolding sweep_index
  index_frame [] m = refl
  index_frame ((k, s) ∷ rest) m =
      index_frame rest (if is_over config now s then drop_token s.user_id k m else m)
      ∙ drop_token-frame (is_over config now s) s.user_id k m _

  sessions_frame :
      (l : List (String × Session)) (m : SessionManager)
      → sweep_sessions config now l m
        ≡ record m { sessions = (sweep_sessions config now l m).sessions }
  unfolding sweep_sessions
  sessions_frame [] m = refl
  sessions_frame ((k, s) ∷ rest) m =
      sessions_frame rest (if is_over config now s then drop_session k m else m)
      ∙ drop_session-frame (is_over config now s) k m _

  sweep_sessions-HasDistinctKeys :
      (l : List (String × Session)) (m : SessionManager)
      → HasDistinctKeys m.sessions
      → HasDistinctKeys (sweep_sessions config now l m).sessions
  unfolding sweep_sessions
  sweep_sessions-HasDistinctKeys [] m h = h
  sweep_sessions-HasDistinctKeys ((k, s) ∷ rest) m h =
      sweep_sessions-HasDistinctKeys rest (if is_over config now s then drop_session k m else m)
        (drop_session-HasDistinctKeys (is_over config now s) k m h)

-- A session that the cleanup finds over is gone, and every other one is as it was.
pub lookup-cleanup :
    (now : ℕ) (t : String) (m : SessionManager)
    → HasDistinctKeys m.sessions
    → lookup t (cleanup_expired_sessions now m).sessions ≡ elim (lookup t m.sessions) [
      | none ↦ none
      | some s ↦ if is_over m.config now s then none else some s
    ]
unfolding cleanup_expired_sessions
lookup-cleanup now t m h = ground (
  arith,
  lookup-sweep_sessions m.config now t m.sessions (sweep_index m.config now m.sessions m),
  index_frame m.config now m.sessions m,
  is_gone-lookup m.config now t m.sessions h,
)

pub is_indexed-cleanup :
    (now : ℕ) (u t : String) (m : SessionManager)
    → HasDistinctKeys m.sessions
    → is_indexed (cleanup_expired_sessions now m) u t ≡ (
        if elim (lookup t m.sessions) [
          | none ↦ false
          | some s ↦ is_over m.config now s && s.user_id == u
        ]
        then false
        else is_indexed m u t)
unfolding cleanup_expired_sessions
is_indexed-cleanup now u t m h =
    rw (sessions_frame m.config now m.sessions (sweep_index m.config now m.sessions m)) (
      ground (
        arith,
        is_indexed-sweep_index m.config now u t m.sessions m,
        is_taken-lookup m.config now u t m.sessions h,
      ))

pub cleanup-IsConsistent :
    (now : ℕ) (m : SessionManager)
    → HasDistinctKeys m.sessions
    → IsConsistent m
    → IsConsistent (cleanup_expired_sessions now m)
cleanup-IsConsistent now m h c u t =
    ground (arith, lookup-cleanup now t m h, is_indexed-cleanup now u t m h, c u t)

-- The cleanup leaves the locks free and no token twice.
pub cleanup_frame :
    (now : ℕ) (m : SessionManager)
    → HasDistinctKeys m.sessions
    → let m' = cleanup_expired_sessions now m in
      HasDistinctKeys m'.sessions
      × (m'.user_locked ≡ m.user_locked)
      × (m'.session_locked ≡ m.session_locked)
      × (m'.config ≡ m.config)
unfolding cleanup_expired_sessions
cleanup_frame now m h =
    let i = index_frame m.config now m.sessions m in
    let s = sessions_frame m.config now m.sessions (sweep_index m.config now m.sessions m) in
    (
      sweep_sessions-HasDistinctKeys m.config now m.sessions _
          (rw (ap (λ (x : SessionManager). x.sessions) i) h),
      ap (λ (x : SessionManager). x.user_locked) s ∙ ap (λ (x : SessionManager). x.user_locked) i,
      ap (λ (x : SessionManager). x.session_locked) s
          ∙ ap (λ (x : SessionManager). x.session_locked) i,
      ap (λ (x : SessionManager). x.config) s ∙ ap (λ (x : SessionManager). x.config) i,
    )
