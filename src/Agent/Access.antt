-- ===== src/Agent/Access.antt =====
-- internal/monitor/snmp.go and mib.go: who gets which values from the agent.
use mathlib.Core.Path.{subst}
use sssonector.Mib.Tree.{update_metrics}
use sssonector.Mib.Objects.{update_metrics-IsTree}
use sssonector.Prelude.{
  All, Bool-cases, Float64, List, Option, Option-cases, String, [], ap, arith, false, inl, inr,
  lookup, refl, some, sym, true, ℕ, ◌∙◌, ◌∷◌, ◌≡◌, ◌⊎◌,
}
use sssonector.Prelude.{string_eq}
use sssonector.Mib.{
  MibEntry, MibError, MibTree, Sorting, get_entry, get_next_entry, invalid_community, is_hidden,
  is_refused, no_access, not_found,
}
use sssonector.Mib.Next.{IsNext, IsTree, get_next_entry-IsNext, sees}
use sssonector.Agent.{
  Agent, PduType, SnmpError, SnmpMessage, SnmpPdu, Strings, answer_to, authorization_error,
  get_error, get_next_request, get_request, get_response, handle_request, new_response,
  no_such_name, other_pdu, process_request, process_variables, result_of, validate_community,
}
use sssonector.Agent.Answers.{answers_to, granted, process_variables-granted}

-- A variable that holds what the tree has under its name, for a community that the tree knows and
-- that may read the entry.
unfoldable pub IsReadable : String → MibTree → SnmpPdu → Type 0
IsReadable community tree pdu =
    (is_refused community ≡ false)
    × ((e : MibEntry) × (lookup pdu.name tree ≡ some e)
        × (is_hidden community e ≡ false)
        × (pdu ≡ result_of pdu.name e))

abbrev Grants : (SnmpPdu → Type 0) → SnmpError ⊎ SnmpPdu → Type 0
Grants P (inl e) = Unit
Grants P (inr pdu) = P pdu

granted-All :
    (P : SnmpPdu → Type 0) (answers : List (SnmpError ⊎ SnmpPdu))
    → All (Grants P) answers
    → All P (granted answers)
unfolding granted
granted-All P [] h = tt
granted-All P (inl e ∷ answers) h = tt
granted-All P (inr pdu ∷ answers) h = (h.0, granted-All P answers h.1)

not_hidden :
    (community : String) (o : Option MibEntry) (e : MibEntry)
    → o ≡ some e
    → sees community o ≡ true
    → is_hidden community e ≡ false
not_hidden community o e at h = elim (Bool-cases (is_hidden community e)) [
  | inl hidden ↦ absurd (ground (arith, ap (sees community) at, h, hidden))
  | inr shown ↦ shown
]

get_entry-cases :
    (oid community : String) (tree : MibTree)
    → ((error : MibError) × (get_entry oid community tree ≡ inl error))
      ⊎ ((e : MibEntry) × (get_entry oid community tree ≡ inr e)
          × (is_refused community ≡ false)
          × (lookup oid tree ≡ some e)
          × (is_hidden community e ≡ false))
unfolding get_entry
get_entry-cases oid community tree = elim (Bool-cases (is_refused community)) [
  | inl refused ↦ inl (invalid_community, rw refused refl)
  | inr known ↦ elim (Option-cases (lookup oid tree)) [
    | inl missing ↦ inl (not_found, rw (known, missing) refl)
    | inr (e, at) ↦ elim (Bool-cases (is_hidden community e)) [
      | inl hidden ↦ inl (no_access, rw (known, at, hidden) refl)
      | inr shown ↦ inr (e, rw (known, at, shown) refl, known, at, shown)
    ]
  ]
]

module _ (sorting : Sorting) (tree : MibTree) (request : SnmpMessage) (h : IsTree tree) where
  GrantsTo : SnmpError ⊎ SnmpPdu → Type 0
  GrantsTo = Grants (IsReadable request.community tree)

  get_entry-Grants : (oid : String) → GrantsTo (answer_to sorting tree request get_request oid)
  unfolding answer_to GrantsTo IsReadable
  get_entry-Grants oid = elim (get_entry-cases oid request.community tree) [
    | inl (error, eq) ↦
        let step : answer_to sorting tree request get_request oid ≡ inl (get_error error.code) =
          rw (answer_to, eq) refl in
        subst GrantsTo (sym step) tt
    | inr (e, eq, known, at, shown) ↦
        let step : answer_to sorting tree request get_request oid ≡ inr (result_of oid e) =
          rw (answer_to, eq) refl in
        subst GrantsTo (sym step) (known, (e, at, shown, refl))
  ]

  get_next_entry-Grants :
      (oid : String) → GrantsTo (answer_to sorting tree request get_next_request oid)
  unfolding answer_to GrantsTo IsReadable IsNext get_next_entry
  get_next_entry-Grants oid = elim (Bool-cases (is_refused request.community)) [
    | inl refused ↦
        let step : answer_to sorting tree request get_next_request oid ≡ inl authorization_error =
          rw (answer_to, get_next_entry, refused) refl in
        subst GrantsTo (sym step) tt
    | inr known ↦ elim (get_next_entry-IsNext sorting oid request.community tree known h) [
      | inl (last, eq) ↦
          let step : answer_to sorting tree request get_next_request oid ≡ inl no_such_name =
            rw (answer_to, eq) refl in
          subst GrantsTo (sym step) tt
      | inr (e, eq, at, next) ↦
          let step : answer_to sorting tree request get_next_request oid ≡ inr (result_of e.oid e) =
            rw (answer_to, eq) refl in
          subst GrantsTo (sym step)
            (known, (e, at, not_hidden request.community (lookup e.oid tree) e at next.0, refl))
    ]
  ]

  answer_to-Grants :
      (type : PduType) (oid : String) → GrantsTo (answer_to sorting tree request type oid)
  unfolding GrantsTo answer_to
  answer_to-Grants get_request oid = get_entry-Grants oid
  answer_to-Grants get_next_request oid = get_next_entry-Grants oid
  answer_to-Grants get_response oid = tt
  answer_to-Grants (other_pdu n) oid = tt

  answers-Grants : (pdus : List SnmpPdu) → All GrantsTo (answers_to sorting tree request pdus)
  unfolding answers_to
  answers-Grants [] = tt
  answers-Grants (pdu ∷ pdus) = (answer_to-Grants request.pdu_type pdu.name, answers-Grants pdus)

  process_variables-IsReadable :
      (pdus : List SnmpPdu)
      → All
          (IsReadable request.community tree)
          (process_variables sorting tree request 0 pdus (new_response request)).variables
  unfolding GrantsTo
  process_variables-IsReadable pdus = rw (process_variables-granted sorting tree request pdus).0 (
      granted-All (IsReadable request.community tree) (answers_to sorting tree request pdus)
        (answers-Grants pdus))

-- What follows from a packet that the agent answers: the response that it encodes has no variable, or
-- the packet is a request whose community validateCommunity accepts, and every variable of the
-- response holds what the updated tree has under its name, for a community that the tree knows and
-- that may read the entry; the tree before has each identifier once, with an entry that names it.
pub handle_request-IsReadable :
    {F : Float64} (to_int32 : F.Float → ℕ) (sorting : Sorting) (strings : Strings)
    (decode : List ℕ → Option SnmpMessage) (encode : SnmpMessage → Option (List ℕ))
    (packet sent : List ℕ) (agent : Agent F)
    → IsTree agent.mib_tree
    → (handle_request to_int32 sorting strings decode encode packet agent).1 ≡ some sent
    → (response : SnmpMessage) × (encode response ≡ some sent)
      × ((response.variables ≡ [])
          ⊎ ((request : SnmpMessage) × (decode packet ≡ some request)
              × (validate_community strings agent.snmp_community request.community ≡ true)
              × All
                  (IsReadable request.community
                    (update_metrics to_int32 agent.metrics agent.mib_tree))
                  response.variables))
unfolding handle_request process_request new_response
handle_request-IsReadable to_int32 sorting strings decode encode packet sent agent h out =
    elim (Option-cases (decode packet)) [
      | inl bad ↦ absurd (ground (arith, bad, out))
      | inr (request, at) ↦
          elim (Bool-cases (validate_community strings agent.snmp_community request.community)) [
            | inl valid ↦
                let tree = update_metrics to_int32 agent.metrics agent.mib_tree in
                let step : (handle_request to_int32 sorting strings decode encode packet agent).1
                    ≡ encode (
                        process_variables sorting tree request 0 request.variables
                          (new_response request)) =
                  rw (handle_request, at, valid) refl in
                (
                  process_variables sorting tree request 0 request.variables (new_response request),
                  sym step ∙ out,
                  inr (
                    request,
                    at,
                    valid,
                    process_variables-IsReadable sorting tree request
                        (update_metrics-IsTree to_int32 agent.metrics agent.mib_tree h)
                        request.variables,
                  ),
                )
            | inr invalid ↦
                let step : (handle_request to_int32 sorting strings decode encode packet agent).1
                    ≡ encode (record (new_response request) { error = authorization_error }) =
                  rw (handle_request, at, invalid) refl in
                (
                  record (new_response request) { error = authorization_error },
                  sym step ∙ out,
                  inl refl,
                )
          ]
    ]
