-- ===== src/Session/Examples.antt =====
-- A manager in use, and the theorems at concrete inputs.
use sssonector.Prelude.{
  Bool, List, String, [], arith, insert, lookup, none, refl, some, string_eq, true, ◌∷◌, ◌≡◌,
}
use sssonector.Session.{
  Session, SessionConfig, active, cleanup_expired_sessions, create_session, deadlock, done, is_over,
  new_session_manager, ok, oldest_token, remove_oldest_session, revoke_session,
}
use sssonector.Session.Consistency.{unlocked}
use sssonector.Session.Invariant.{Inv}
use sssonector.Session.Reach.{Reach, creates, here, next, reachable-Inv}
use sssonector.Session.Sweep.{lookup-cleanup}
use sssonector.Session.Limit.{create_session-deadlocks}
use sssonector.Session.Access.{}

abbrev one_each : SessionConfig
one_each = record { session_timeout = 30; absolute_timeout = 100; max_sessions_per_user = 1 }

abbrev of_ann : Session
of_ann = record {
  id = "a1";
  user_id = "ann";
  role = "client";
  ip_address = "10.0.0.1";
  user_agent = "cli";
  created_at = 0;
  last_activity = 0;
  expires_at = 30;
  state = active;
}

abbrev anns : List (String × Session)
anns = ("a1", of_ann) ∷ []

abbrev ann_index : List (String × List (String × Bool))
ann_index = ("ann", ("a1", true) ∷ []) ∷ []

-- Her first session is made, and her second call never returns.
first_returns :
    create_session (some "a1") "ann" "client" "10.0.0.1" "cli" 0 (unlocked one_each [] [])
    ≡ done (ok of_ann) (unlocked one_each anns ann_index)
unfolding create_session lookup insert
first_returns = refl

second_hangs :
    create_session (some "a2") "ann" "client" "10.0.0.1" "cli" 5 (unlocked one_each anns ann_index)
    ≡ deadlock
unfolding create_session remove_oldest_session revoke_session oldest_token lookup insert
second_hangs = refl

create_session-deadlocks_example :
    create_session (some "a2") "ann" "client" "10.0.0.1" "cli" 5 (unlocked one_each anns ann_index)
    ≡ deadlock
unfolding lookup
create_session-deadlocks_example =
    create_session-deadlocks "a2" "ann" "client" "10.0.0.1" "cli" 5 one_each anns ann_index "a1"
      true [] of_ann refl refl refl (omega arith)

reached : Reach (new_session_manager one_each) (unlocked one_each anns ann_index)
unfolding new_session_manager lookup
reached =
    next here
      (creates "a1" "ann" "client" "10.0.0.1" "cli" 0 (ok of_ann) (λ e. cc) refl first_returns)

reachable-Inv_example : Inv (unlocked one_each anns ann_index)
reachable-Inv_example = reachable-Inv one_each reached

lookup-cleanup_example :
    lookup "a1" (cleanup_expired_sessions 31 (unlocked one_each anns ann_index)).sessions ≡ none
unfolding lookup is_over
lookup-cleanup_example = lookup-cleanup 31 "a1" (unlocked one_each anns ann_index) (refl, tt)
