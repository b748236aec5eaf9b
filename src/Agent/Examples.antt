-- ===== src/Agent/Examples.antt =====
-- Runs of the agent. A packet stands for its request by its first byte; the bytes of a response are
-- the number of its variables and the place of its error.
use sssonector.Prelude.{
  All, Float64, List, Option, String, [], eqb, if◌then◌else◌, insert, leb, length, lookup, ltb,
  none, refl, some, true, ℕ, ◌/◌, ◌∷◌, ◌≡◌, ◌⊎◌,
}
use sssonector.Prelude.{string_eq}
use sssonector.Mib.{
  MibTree, add_counter64, add_gauge32, add_integer, add_string, get_entry, nothing,
}
use sssonector.Mib.Insertion.{insertion}
use sssonector.Mib.Tree.{Metrics, new_mib_tree, update_metrics, updated_value}
use sssonector.Mib.Objects.{new_mib_tree-IsTree}
use sssonector.Agent.{
  Agent, SnmpMessage, SnmpPdu, Strings, add_answer, all_print, answer_to, clean_community_string,
  get_request, handle_request, integer, new_response, no_error, process_request, process_variables,
  validate_community,
}
use sssonector.Agent.Answers.{answers_to, granted, last_failure, process_variables-granted}
use sssonector.Agent.Access.{IsReadable, handle_request-IsReadable}

abbrev floats : Float64
floats = record { Float = ℕ; of_nat = λ n. n; div = ◌/◌; lt = ltb; le = leb }

abbrev metrics : Metrics floats
metrics = record {
  bytes_in = 100;
  bytes_out = 200;
  connections = 3;
  cpu_usage = 12;
  memory_usage = 5242880;
  connect_time = 7;
  disconnect_time = 4;
  last_error = "";
  start_time = 1700000000;
}

abbrev tree : MibTree
tree = new_mib_tree (λ n. n) metrics

abbrev variable : String → SnmpPdu
variable oid = record { name = oid; tag = integer; value = nothing }

abbrev request_of : String → List SnmpPdu → SnmpMessage
request_of community variables = record {
  version = 1;
  community = community;
  pdu_type = get_request;
  request_id = 9;
  variables = variables;
  error = no_error;
  index = 0;
}

-- The first and the third have values, the second and the fourth do not.
abbrev four_variables : List SnmpPdu
four_variables =
    variable ".1.3.6.1.4.1.54321.1.1"
    ∷ variable ".1.3"
    ∷ variable ".1.3.6.1.4.1.54321.1.2"
    ∷ variable ".1"
    ∷ []

abbrev community_of : ℕ → String
community_of n = if eqb n 0 then "public" else "monitor"

abbrev decode : List ℕ → Option SnmpMessage
decode [] = none
decode (n ∷ bytes) = some (request_of (community_of n) four_variables)

abbrev encode : SnmpMessage → Option (List ℕ)
encode response = some (length response.variables ∷ response.index ∷ [])

abbrev strings : Strings
strings = record { remove_nulls = λ s. s; trim_space = λ s. s; is_print = λ c. true }

abbrev agent_for : String → Agent floats
agent_for community = record {
  snmp_community = community;
  metrics = metrics;
  mib_tree = tree;
  total_requests = 0;
  invalid_requests = 0;
  auth_errors = 0;
  successful_requests = 0;
}

-- A response with an error has the one value before it and the place of the last failure.
answers_public :
    (handle_request (λ n. n) insertion strings decode encode (0 ∷ []) (agent_for "public")).1
    ≡ some (1 ∷ 3 ∷ [])
unfolding handle_request process_request process_variables add_answer answer_to get_entry
    new_response clean_community_string validate_community all_print new_mib_tree update_metrics
    updated_value add_counter64 add_gauge32 add_integer add_string insert lookup
answers_public = refl

-- A community that the configuration has and the tree does not know gets no value.
answers_monitor :
    (handle_request (λ n. n) insertion strings decode encode (1 ∷ []) (agent_for "monitor")).1
    ≡ some (0 ∷ 3 ∷ [])
unfolding handle_request process_request process_variables add_answer answer_to get_entry
    new_response clean_community_string validate_community all_print new_mib_tree update_metrics
    updated_value add_counter64 add_gauge32 add_integer add_string insert lookup
answers_monitor = refl

process_variables-granted_example :
    ((process_variables insertion tree
        (request_of "public" four_variables)
        0
        four_variables
        (new_response (request_of "public" four_variables))).variables
      ≡ granted (answers_to insertion tree (request_of "public" four_variables) four_variables))
    × ((
      (process_variables insertion tree
          (request_of "public" four_variables)
          0
          four_variables
          (new_response (request_of "public" four_variables))).index,
      (process_variables insertion tree
          (request_of "public" four_variables)
          0
          four_variables
          (new_response (request_of "public" four_variables))).error,
    )
        ≡ last_failure 0
            (0, no_error)
            (answers_to insertion tree (request_of "public" four_variables) four_variables))
process_variables-granted_example =
    process_variables-granted insertion tree (request_of "public" four_variables) four_variables

handle_request-IsReadable_example :
    (response : SnmpMessage) × (encode response ≡ some (1 ∷ 3 ∷ []))
    × ((response.variables ≡ [])
        ⊎ ((request : SnmpMessage) × (decode (0 ∷ []) ≡ some request)
            × (validate_community strings "public" request.community ≡ true)
            × All
                (IsReadable request.community (update_metrics (λ n. n) metrics tree))
                response.variables))
handle_request-IsReadable_example =
    handle_request-IsReadable (λ n. n) insertion strings decode encode (0 ∷ []) (1 ∷ 3 ∷ [])
      (agent_for "public") (new_mib_tree-IsTree (λ n. n) metrics) answers_public
