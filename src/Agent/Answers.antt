-- ===== src/Agent/Answers.antt =====
-- internal/monitor/snmp.go: what the loop over a request's variables makes of their answers.
use sssonector.Prelude.{
  All, Bool-cases, List, String, [], arith, false, if◌then◌else◌, inl, inr, refl, suc, sym, true, ℕ,
  ◌++◌, ◌∙◌, ◌∷◌, ◌≡◌, ◌⊎◌,
}
use mathlib.Core.Path.{subst}
use mathlib.Core.List.{append-nil, append_assoc}
use sssonector.Mib.{MibTree, Sorting, get_entry, get_next_entry}
use sssonector.Agent.{
  PduType, SnmpError, SnmpMessage, SnmpPdu, add_answer, answer_to, get_error, get_next_error,
  get_next_request, get_request, get_response, has_failed, new_response, no_error, other_pdu,
  process_variables, result_of,
}

-- The results before the first failure.
unfoldable pub granted : List (SnmpError ⊎ SnmpPdu) → List SnmpPdu
granted [] = []
granted (inl e ∷ answers) = []
granted (inr pdu ∷ answers) = pdu ∷ granted answers

-- The last failure and its place, counted from `i`, or what is given where there is none.
unfoldable pub last_failure : ℕ → ℕ × SnmpError → List (SnmpError ⊎ SnmpPdu) → ℕ × SnmpError
last_failure i last [] = last
last_failure i last (inl e ∷ answers) = last_failure (suc i) (i, e) answers
last_failure i last (inr pdu ∷ answers) = last_failure (suc i) last answers

abbrev pub IsFailure : SnmpError ⊎ SnmpPdu → Type 0
IsFailure (inl e) = has_failed e ≡ true
IsFailure (inr pdu) = Unit

get_error-IsFailure : (code : ℕ) → has_failed (get_error code) ≡ true
get_error-IsFailure code = ground arith

get_next_error-IsFailure : (code : ℕ) → has_failed (get_next_error code) ≡ true
get_next_error-IsFailure code = ground arith

module _ (sorting : Sorting) (tree : MibTree) (request : SnmpMessage) where
  -- The answers to the variables, each on its own.
  unfoldable pub answers_to : List SnmpPdu → List (SnmpError ⊎ SnmpPdu)
  answers_to [] = []
  answers_to (pdu ∷ pdus) =
      answer_to sorting tree request request.pdu_type pdu.name ∷ answers_to pdus

  answer_to-IsFailure :
      (type : PduType) (oid : String) → IsFailure (answer_to sorting tree request type oid)
  unfolding answer_to
  answer_to-IsFailure get_request oid =
      elim (get_entry oid request.community tree)
        as (λ x.
          IsFailure
            (elim x [ inl e ↦ inl (get_error e.code) | inr entry ↦ inr (result_of oid entry) ])) [
              | inl e ↦ get_error-IsFailure e.code
              | inr entry ↦ tt
            ]
  answer_to-IsFailure get_next_request oid =
      elim (get_next_entry sorting oid request.community tree)
        as (λ x. IsFailure (elim x [
          | inl e ↦ inl (get_next_error e.code)
          | inr entry ↦ inr (result_of entry.oid entry)
        ])) [ inl e ↦ get_next_error-IsFailure e.code | inr entry ↦ tt ]
  answer_to-IsFailure get_response oid = refl
  answer_to-IsFailure (other_pdu n) oid = refl

  answers-IsFailure : (pdus : List SnmpPdu) → All IsFailure (answers_to pdus)
  unfolding answers_to
  answers-IsFailure [] = tt
  answers-IsFailure (pdu ∷ pdus) =
      (answer_to-IsFailure request.pdu_type pdu.name, answers-IsFailure pdus)

  -- The loop on answers that are already computed.
  add_answers : ℕ → List (SnmpError ⊎ SnmpPdu) → SnmpMessage → SnmpMessage
  add_answers i [] response = response
  add_answers i (answer ∷ answers) response =
      add_answers (suc i) answers (add_answer sorting tree request i answer response)

  process_variables-answers :
      (i : ℕ) (pdus : List SnmpPdu) (response : SnmpMessage)
      → process_variables sorting tree request i pdus response
        ≡ add_answers i (answers_to pdus) response
  unfolding process_variables add_answers answers_to
  process_variables-answers i [] response = refl
  process_variables-answers i (pdu ∷ pdus) response = process_variables-answers (suc i) pdus (
      add_answer sorting tree request i (answer_to sorting tree request request.pdu_type pdu.name)
        response)

  add_answer-failed :
      (i : ℕ) (pdu : SnmpPdu) (response : SnmpMessage)
      → has_failed response.error ≡ true
      → add_answer sorting tree request i (inr pdu) response ≡ response
  unfolding add_answer
  add_answer-failed i pdu response failed = rw failed refl

  add_answer-fine :
      (i : ℕ) (pdu : SnmpPdu) (response : SnmpMessage)
      → has_failed response.error ≡ false
      → add_answer sorting tree request i (inr pdu) response
        ≡ record response { variables = response.variables ++ (pdu ∷ []) }
  unfolding add_answer
  add_answer-fine i pdu response fine = rw fine refl

  add_answers-last :
      (i : ℕ) (answers : List (SnmpError ⊎ SnmpPdu)) (response : SnmpMessage)
      → (((add_answers i answers response).index, (add_answers i answers response).error)
          ≡ last_failure i (response.index, response.error) answers)
  unfolding add_answers add_answer last_failure
  add_answers-last i [] response = refl
  add_answers-last i (inl e ∷ answers) response =
      add_answers-last (suc i) answers (record response { error = e; index = i })
  add_answers-last i (inr pdu ∷ answers) response =
      let IsLast : SnmpMessage → Type 0 = λ x.
        ((add_answers (suc i) answers x).index, (add_answers (suc i) answers x).error)
        ≡ last_failure (suc i) (response.index, response.error) answers in
      elim (Bool-cases (has_failed response.error)) [
        | inl failed ↦
            subst IsLast (sym (add_answer-failed i pdu response failed))
              (add_answers-last (suc i) answers response)
        | inr fine ↦ subst IsLast (sym (add_answer-fine i pdu response fine)) (
            add_answers-last (suc i) answers
              (record response { variables = response.variables ++ (pdu ∷ []) }))
      ]

  add_answers-granted :
      (i : ℕ) (answers : List (SnmpError ⊎ SnmpPdu)) (response : SnmpMessage)
      → All IsFailure answers
      → (add_answers i answers response).variables ≡ (
          if has_failed response.error
          then response.variables
          else response.variables ++ granted answers)
  unfolding add_answers add_answer granted
  add_answers-granted i [] response h = elim (Bool-cases (has_failed response.error)) [
    | inl failed ↦ rw failed refl
    | inr fine ↦ rw fine (sym (append-nil response.variables))
  ]
  add_answers-granted i (inl e ∷ answers) response h =
      let rest =
        add_answers-granted (suc i) answers (record response { error = e; index = i }) h.1 in
      let kept : (add_answers (suc i) answers (record response { error = e; index = i })).variables
          ≡ response.variables =
        rest ∙ rw (h.0) refl in
      elim (Bool-cases (has_failed response.error)) [
        | inl failed ↦ rw failed kept
        | inr fine ↦ rw fine (kept ∙ sym (append-nil response.variables))
      ]
  add_answers-granted i (inr pdu ∷ answers) response h =
      let HasGranted : SnmpMessage → Type 0 = λ x. (add_answers (suc i) answers x).variables ≡ (
        if has_failed response.error
        then response.variables
        else response.variables ++ (pdu ∷ granted answers)) in
      elim (Bool-cases (has_failed response.error)) [
        | inl failed ↦
            subst HasGranted (sym (add_answer-failed i pdu response failed))
              (add_answers-granted (suc i) answers response h.1 ∙ rw failed refl)
        | inr fine ↦
            let more = record response { variables = response.variables ++ (pdu ∷ []) } in
            subst HasGranted (sym (add_answer-fine i pdu response fine)) (
              add_answers-granted (suc i) answers more h.1
              ∙ rw fine (append_assoc response.variables (pdu ∷ []) (granted answers)))
      ]

  -- The loop's response to a request: the results of the variables before the first that fails, and
  -- the error and the place, from 0, of the last that fails, which are "no error" and 0 where none
  -- does.
  pub process_variables-granted :
      (pdus : List SnmpPdu)
      → ((process_variables sorting tree request 0 pdus (new_response request)).variables
          ≡ granted (answers_to pdus))
        × ((
          (process_variables sorting tree request 0 pdus (new_response request)).index,
          (process_variables sorting tree request 0 pdus (new_response request)).error,
        )
            ≡ last_failure 0 (0, no_error) (answers_to pdus))
  unfolding new_response
  process_variables-granted pdus = rw (process_variables-answers 0 pdus (new_response request)) (
    add_answers-granted 0 (answers_to pdus) (new_response request) (answers-IsFailure pdus),
    add_answers-last 0 (answers_to pdus) (new_response request),
  )
