-- ===== src/Fleet/Events.antt =====
-- The log keeps the newest events.
use mathlib.Core.List.{append-nil, append_assoc}
use sssonector.Prelude.{
  List, [], ap, arith, dec_lt, drop, eqb, false, if◌then◌else◌, length, length-append, le→ltb, ltb,
  lt→ltb, refl, suc, sym, true, zero, ℕ, ◌++◌, ◌+◌, ◌-◌, ◌<◌, ◌||◌, ◌∙◌, ◌∷◌, ◌≡◌, ◌≤◌,
}
use sssonector.Fleet.{CircuitBreakerEvents, get_events, log_event, new_circuit_breaker_events}

module _ {ℓ} {A : Type ℓ} where
  abbrev pub last : ℕ → List A → List A
  last n xs = drop (length xs - n) xs

  drop-append : (k : ℕ) (xs ys : List A) → k ≤ length xs → drop k (xs ++ ys) ≡ drop k xs ++ ys
  drop-append zero xs ys h = refl
  drop-append (suc k) [] ys h = absurd (omega arith)
  drop-append (suc k) (x ∷ xs) ys h = drop-append k xs ys (omega arith)

  drop_1-drop : (k : ℕ) (xs : List A) → drop 1 (drop k xs) ≡ drop (suc k) xs
  drop_1-drop zero xs = refl
  drop_1-drop (suc k) [] = refl
  drop_1-drop (suc k) (x ∷ xs) = drop_1-drop k xs

  length-drop : (k : ℕ) (xs : List A) → length (drop k xs) ≡ length xs - k
  length-drop zero xs = omega arith
  length-drop (suc k) [] = omega arith
  length-drop (suc k) (x ∷ xs) = omega (arith, length-drop k xs)

  -- Logging one event after the other, the first of the list first.
  unfoldable pub log_all : List A → CircuitBreakerEvents A → CircuitBreakerEvents A
  log_all [] ce = ce
  log_all (e ∷ es) ce = log_all es (log_event e ce)

  log_event-last :
      (max : ℕ) (past : List A) (e : A)
      → 0 < max
      → log_event e (record { events = last max past; max_events = max })
        ≡ record { events = last max (past ++ (e ∷ [])); max_events = max }
  unfolding log_event
  log_event-last max past e h =
      let size : length (last max past) ≡ length past - (length past - max) =
        length-drop (length past - max) past in
      let size' : length (last max past ++ (e ∷ [])) ≡ length (last max past) + 1 =
        length-append (last max past) (e ∷ []) in
      let size'' : length (past ++ (e ∷ [])) ≡ length past + 1 = length-append past (e ∷ []) in
      let moved = drop-append (length past - max) past (e ∷ []) (omega arith) in
      elim (dec_lt (length past) max) [
        | yes below ↦
            let fits : ltb max (length (last max past ++ (e ∷ []))) ≡ false =
              le→ltb _ _ (omega arith) in
            let all_past : length past - max ≡ 0 = omega arith in
            let all_now : length (past ++ (e ∷ [])) - max ≡ 0 = omega arith in
            rw fits (rw (all_past, all_now) refl)
        | no full ↦
            let over : ltb max (length (last max past ++ (e ∷ []))) ≡ true =
              lt→ltb _ _ (omega arith) in
            let one_more : length (past ++ (e ∷ [])) - max ≡ suc (length past - max) =
              omega arith in
            rw over (
              ap (λ es. record { events = es; max_events = max })
                (ap (drop 1) (sym moved)
                  ∙ drop_1-drop (length past - max) (past ++ (e ∷ []))
                  ∙ ap (λ k. drop k (past ++ (e ∷ []))) (sym one_more)))
      ]

  log_all-last :
      (max : ℕ) (past es : List A)
      → 0 < max
      → log_all es (record { events = last max past; max_events = max })
        ≡ record { events = last max (past ++ es); max_events = max }
  unfolding log_all
  log_all-last max past [] h = rw (append-nil past) refl
  log_all-last max past (e ∷ es) h = rw (log_event-last max past e h) (
      log_all-last max (past ++ (e ∷ [])) es h
      ∙ ap (λ xs. record { events = last max xs; max_events = max })
          (append_assoc past (e ∷ []) es))

  drop-nil : (n : ℕ) → drop {A = A} n [] ≡ []
  drop-nil zero = refl
  drop-nil (suc n) = refl

  drop_at : (j k : ℕ) (xs : List A) → j ≡ k → drop j xs ≡ drop k xs
  drop_at j k xs p = ap (λ n. drop n xs) p

  drop-drop : (j k : ℕ) (xs : List A) → drop j (drop k xs) ≡ drop (k + j) xs
  drop-drop j zero xs = drop_at j (0 + j) xs (omega arith)
  drop-drop j (suc k) [] = drop-nil j ∙ sym (drop-nil (suc k + j))
  drop-drop j (suc k) (x ∷ xs) =
      drop-drop j k xs ∙ drop_at (suc (k + j)) (suc k + j) (x ∷ xs) (omega arith)

-- A new log with a maximum (1000 where none is given), after any events, holds exactly the newest of
-- them up to that maximum, in the order in which they were logged; and GetEvents answers the newest
-- of those, as many as its limit says, all of them where the limit is 0 or too large, also in the
-- order in which they were logged: the most recent is the last one of the answer.
pub log-newest {ℓ} :
    {A : Type ℓ} (max limit : ℕ) (es : List A)
    → let m = if eqb max 0 then 1000 else max in
      let ce = log_all es (new_circuit_breaker_events max) in
      let n = if eqb limit 0 || ltb m limit then m else limit in
      (ce.events ≡ last m es) × (length ce.events ≤ m) × (get_events limit ce ≡ last n es)
unfolding get_events
log-newest max limit es =
    let m = if eqb max 0 then 1000 else max in
    let positive : 0 < m = ground arith in
    let logged : log_all es (new_circuit_breaker_events max)
        ≡ record { events = last m es; max_events = m } =
      ap (λ xs. log_all es (record { events = xs; max_events = m })) (sym (drop-nil (0 - m)))
      ∙ log_all-last m [] es positive in
    let size : length (last m es) ≡ length es - (length es - m) = length-drop (length es - m) es in
    rw logged (
      refl,
      omega arith,
      drop-drop
            (length (last m es)
              - (if eqb limit 0 || ltb (length (last m es)) limit
                  then length (last m es)
                  else limit))
            (length es - m) es
          ∙ drop_at _ _ es (ground arith),
    )
