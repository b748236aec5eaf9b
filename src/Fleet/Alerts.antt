-- ===== src/Fleet/Alerts.antt =====
-- Alerts are at least half a minute apart.
use sssonector.Prelude.{
  All, Bool, Float64, List, [], arith, false, le→ltb, ltb, lt→ltb, map, refl, true, ℕ, ◌+◌, ◌<◌,
  ◌∷◌, ◌≡◌, ◌≤◌,
}
use sssonector.Fleet.{AlertMetrics, GlobalState, should_alert}

-- Any number of checks, each at its time and with the global state that it finds: the metrics in the
-- end and the answers.
unfoldable pub checks :
    (F : Float64) → List (ℕ × GlobalState) → AlertMetrics → AlertMetrics × List Bool
checks F [] cm = (cm, [])
checks F ((now, g) ∷ rest) cm =
    let (cm', alert) = should_alert F now g cm in
    let (cm'', alerts) = checks F rest cm' in (cm'', alert ∷ alerts)

within :
    (F : Float64) (until : ℕ) (cm : AlertMetrics) (later : List (ℕ × GlobalState))
    → until ≤ cm.last_check + 30000000000
    → All (λ c. c.0 < until) later
    → checks F later cm ≡ (cm, map (λ c. false) later)
unfolding checks should_alert
within F until cm [] h a = refl
within F until cm ((now, g) ∷ rest) h a =
    let early : ltb now (cm.last_check + 30000000000) ≡ true = lt→ltb _ _ (omega (arith, a.0)) in
    let ih = within F until cm rest h a.1 in rw early (rw ih refl)

-- Once ShouldAlert has looked at the breakers, whether or not it alerted, every check in the thirty
-- seconds after that answers no, whatever the state of the breakers, and neither counts an alert nor
-- delays the next look.
pub should_alert-spaced :
    (F : Float64) (now : ℕ) (g : GlobalState) (cm : AlertMetrics) (later : List (ℕ × GlobalState))
    → cm.last_check + 30000000000 ≤ now
    → All (λ c. c.0 < now + 30000000000) later
    → let cm' = (should_alert F now g cm).0 in checks F later cm' ≡ (cm', map (λ c. false) later)
unfolding should_alert
should_alert-spaced F now g cm later h a =
    let due : ltb now (cm.last_check + 30000000000) ≡ false = le→ltb _ _ h in
    let cm' = (should_alert F now g cm).0 in
    let looked : cm'.last_check ≡ now = ground (arith, due) in
    within F (now + 30000000000) cm' later (omega arith) a
