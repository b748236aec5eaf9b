-- ===== src/Agent.antt =====
-- internal/monitor/snmp.go: a packet from its bytes to the answer's. The functions DecodeMessage and
-- EncodeMessage are arguments, and so are the names of package strings and unicode. The handlers and
-- the requests that they start are taken one after the other, each to its end: the time-out, the
-- socket, the log and the metrics that the tree does not read are not modelled.
pub mod Answers
pub mod Access
mod Examples
use Prim.Native.Char.{Char}
use Prim.Native.String.{[] as end, ◌∷◌ as ◌then◌, len}
use sssonector.Prelude.{
  Bool, Float64, List, Option, String, [], eqb, false, if◌then◌else◌, inl, inr, ltb, none, some,
  suc, true, u64, ℕ, ◌&&◌, ◌++◌, ◌==◌, ◌||◌, ◌∷◌, ◌⊎◌,
}
use sssonector.Prelude.{string_eq}
use sssonector.Mib.{MibEntry, MibTree, Sorting, Value, get_entry, get_next_entry, int64}
use sssonector.Mib.Tree.{Metrics, update_metrics}

-- The kinds of message of package gosnmp that the code names, and any other.
pub data PduType : Type 0 where
  get_request get_next_request get_response : PduType
  other_pdu : ℕ → PduType

pub data SnmpError : Type 0 where
  no_error authorization_error refused_access wrong_type no_such_name gen_err : SnmpError

-- `response.Error != gosnmp.NoError`
abbrev pub has_failed : SnmpError → Bool
has_failed no_error = false
has_failed _ = true

pub data Asn1 : Type 0 where
  counter64 gauge32 octet_string integer : Asn1

pub record SnmpPdu : Type 0 where
  pub name : String
  pub tag : Asn1  -- `Type`
  pub value : Value

pub record SnmpMessage : Type 0 where
  pub version : ℕ
  pub community : String
  pub pdu_type : PduType
  pub request_id : ℕ
  pub variables : List SnmpPdu
  pub error : SnmpError
  pub index : ℕ

-- The response before the first variable is read.
unfoldable pub new_response : SnmpMessage → SnmpMessage
new_response request = record request {
  pdu_type = get_response;
  variables = [];
  error = no_error;
  index = 0;
}

-- What the codes of the tree's errors become, of GetEntry and of GetNextEntry.
abbrev pub get_error : ℕ → SnmpError
get_error code =
    if eqb code 1
    then authorization_error
    else if eqb code 2
    then refused_access
    else if eqb code 3
    then wrong_type
    else if eqb code 6
    then no_such_name
    else gen_err

abbrev pub get_next_error : ℕ → SnmpError
get_next_error code =
    if eqb code 1
    then authorization_error
    else if eqb code 2
    then refused_access
    else if eqb code 3
    then wrong_type
    else if eqb code 7
    then no_such_name
    else gen_err

abbrev pub tag_of : String → Asn1
tag_of type_name =
    if type_name == "Counter64"
    then counter64
    else if type_name == "Gauge32"
    then gauge32
    else if type_name == "OCTET STRING"
    then octet_string
    else integer

abbrev pub result_of : String → MibEntry → SnmpPdu
result_of oid e = record {
  name = oid;
  tag = tag_of e.type_name;
  value = if e.type_name == "OCTET STRING" then e.value else int64 (e.value_to_int64 e.value);
}

module _ (sorting : Sorting) (tree : MibTree) (request : SnmpMessage) where
  -- The switch in the loop over the variables.
  unfoldable pub answer_to : PduType → String → SnmpError ⊎ SnmpPdu
  answer_to get_request oid = elim (get_entry oid request.community tree) [
    | inl e ↦ inl (get_error e.code)
    | inr entry ↦ inr (result_of oid entry)
  ]
  answer_to get_next_request oid = elim (get_next_entry sorting oid request.community tree) [
    | inl e ↦ inl (get_next_error e.code)
    | inr entry ↦ inr (result_of entry.oid entry)
  ]
  answer_to get_response oid = inl gen_err
  answer_to (other_pdu n) oid = inl gen_err

  -- The rest of the loop's body: a `break` there leaves the switch alone.
  unfoldable pub add_answer : ℕ → SnmpError ⊎ SnmpPdu → SnmpMessage → SnmpMessage
  add_answer i (inl e) response = record response { error = e; index = i }
  add_answer i (inr pdu) response =
      if has_failed response.error
      then response
      else record response { variables = response.variables ++ (pdu ∷ []) }

  unfoldable pub process_variables : ℕ → List SnmpPdu → SnmpMessage → SnmpMessage
  process_variables i [] response = response
  process_variables i (pdu ∷ pdus) response =
      process_variables (suc i) pdus (add_answer i (answer_to request.pdu_type pdu.name) response)

pub record Agent (F : Float64) : Type 0 where
  pub snmp_community : String  -- the configuration's
  pub metrics : Metrics F
  pub mib_tree : MibTree
  pub total_requests : ℕ
  pub invalid_requests : ℕ
  pub auth_errors : ℕ
  pub successful_requests : ℕ

pub record Strings : Type 0 where
  pub remove_nulls : String → String  -- `strings.ReplaceAll(community, "\x00", "")`
  pub trim_space : String → String
  pub is_print : Char → Bool

unfoldable pub all_print : (Char → Bool) → String → Bool
all_print is_print end = true
all_print is_print (c then s) = let rest = all_print is_print s in is_print c && rest

module _ (strings : Strings) where
  unfoldable pub clean_community_string : String → String
  clean_community_string received =
      let community = strings.trim_space (strings.remove_nulls received) in
      if all_print strings.is_print community then community else ""

  unfoldable pub validate_community : String → String → Bool
  validate_community configured received =
      let community = clean_community_string received in
      let own = clean_community_string configured in
      if community == "" || ltb 32 (len community)
      then false
      else if own == ""
      then false
      else own == community

module _ {F : Float64} (to_int32 : F.Float → ℕ) (sorting : Sorting) (strings : Strings)
    (decode : List ℕ → Option SnmpMessage) (encode : SnmpMessage → Option (List ℕ)) where
  -- The response is sent where it can be encoded, and counted in any case.
  unfoldable pub process_request : SnmpMessage → Agent F → Agent F × Option (List ℕ)
  process_request request agent =
      let tree = update_metrics to_int32 agent.metrics agent.mib_tree in
      let response =
        process_variables sorting tree request 0 request.variables (new_response request) in
      let successful = agent.successful_requests in
      let counted = if has_failed response.error then successful else u64 (suc successful) in
      (record agent { mib_tree = tree; successful_requests = counted }, encode response)

  -- One turn of the loop in handleRequests.
  unfoldable pub handle_request : List ℕ → Agent F → Agent F × Option (List ℕ)
  handle_request packet before =
      let agent = record before { total_requests = u64 (suc before.total_requests) } in
      elim (decode packet) [
        | none ↦ (record agent { invalid_requests = u64 (suc agent.invalid_requests) }, none)
        | some request ↦
            if validate_community strings agent.snmp_community request.community
            then process_request request agent
            else (
              record agent { auth_errors = u64 (suc agent.auth_errors) },
              encode (record (new_response request) { error = authorization_error }),
            )
      ]
