-- ===== src/Mib.antt =====
-- internal/monitor/mib.go: the objects that the SNMP agent serves. The map from identifiers to
-- entries is an association list, an int32 or int64 the number that its bits spell. Of an entry's
-- two closures `validate` is what Validate answers whenever it is called, since it reads nothing
-- that changes. The tree's text and the constants' names for humans are not modelled.
pub mod Tree
pub mod Next
pub mod Walk
pub mod Objects
pub mod Insertion
mod Examples
use sssonector.Prelude.{
  All, Bool, List, Option, String, [], false, if◌then◌else◌, inl, inr, insert, lookup, lt_int32,
  lt_int64, lt_string, ltb, member, none, not, some, ℕ, ◌&&◌, ◌+◌, ◌==◌, ◌||◌, ◌∷◌, ◌≡◌, ◌⊎◌,
}
use sssonector.Prelude.{string_eq}

pub record MibError : Type 0 where
  pub code : ℕ
  pub message : String

abbrev pub invalid_community : MibError
invalid_community = record { code = 1; message = "Invalid community string" }

abbrev pub no_access : MibError
no_access = record { code = 2; message = "No access to this OID" }

abbrev pub not_found : MibError
not_found = record { code = 6; message = "OID not found" }

abbrev pub no_next : MibError
no_next = record { code = 7; message = "No next OID found" }

-- What the field of type `interface{}` holds: nothing, an int64, an int32, an int, a string.
pub data Value : Type 0 where
  nothing : Value
  int64 int32 int : ℕ → Value
  text : String → Value

pub record MibEntry : Type 0 where
  pub oid : String
  pub name : String
  pub description : String
  pub type_name : String  -- `Type`
  pub value : Value
  pub access : String
  pub value_to_int64 : Value → ℕ
  pub validate : Option MibError

-- `MIBEntry{}`; its closures are nil there, and nothing calls them.
abbrev pub empty_entry : MibEntry
empty_entry = record {
  oid = "";
  name = "";
  description = "";
  type_name = "";
  value = nothing;
  access = "";
  value_to_int64 = λ v. 0;
  validate = none;
}

abbrev pub MibTree : Type 0
MibTree = List (String × MibEntry)

abbrev pub int64_value : Value → ℕ
int64_value (int64 n) = n
int64_value _ = 0

-- A conversion from int32 extends the sign.
abbrev pub int32_value : Value → ℕ
int32_value (int32 n) = if ltb n 2147483648 then n else n + 18446744069414584320
int32_value _ = 0

abbrev pub int_value : Value → ℕ
int_value (int n) = n
int_value _ = 0

unfoldable pub add_counter64 : String → String → String → ℕ → String → MibTree → MibTree
add_counter64 oid name desc n access = insert oid (record {
  oid = oid;
  name = name;
  description = desc;
  type_name = "Counter64";
  value = int64 n;
  access = access;
  value_to_int64 = int64_value;
  validate =
      if lt_int64 n 0
      then some (record { code = 4; message = "Counter64 cannot be negative" })
      else none;
})

unfoldable pub add_gauge32 : String → String → String → ℕ → String → MibTree → MibTree
add_gauge32 oid name desc n access = insert oid (record {
  oid = oid;
  name = name;
  description = desc;
  type_name = "Gauge32";
  value = int32 n;
  access = access;
  value_to_int64 = int32_value;
  validate =
      if lt_int32 n 0
      then some (record { code = 5; message = "Gauge32 cannot be negative" })
      else none;
})

unfoldable pub add_integer : String → String → String → ℕ → String → MibTree → MibTree
add_integer oid name desc n access = insert oid (record {
  oid = oid;
  name = name;
  description = desc;
  type_name = "INTEGER";
  value = int n;
  access = access;
  value_to_int64 = int_value;
  validate = none;
})

unfoldable pub add_string : String → String → String → String → String → MibTree → MibTree
add_string oid name desc s access = insert oid (record {
  oid = oid;
  name = name;
  description = desc;
  type_name = "OCTET STRING";
  value = text s;
  access = access;
  value_to_int64 = λ v. 0;
  validate = none;
})

-- `community == "" || (community != readCommunity && community != writeCommunity)`
abbrev pub is_refused : String → Bool
is_refused community =
    community == "" || (not (community == "public") && not (community == "private"))

-- The entries that the read community does not see.
abbrev pub is_hidden : String → MibEntry → Bool
is_hidden community e = community == "public" && (e.access == "write-only")

unfoldable pub get_entry : String → String → MibTree → MibError ⊎ MibEntry
get_entry oid community tree =
    if is_refused community then inl invalid_community else elim (lookup oid tree) [
      | none ↦ inl not_found
      | some e ↦ if is_hidden community e then inl no_access else inr e
    ]

-- The first loop of GetNextEntry.
unfoldable pub oids_for : String → MibTree → List String
oids_for community [] = []
oids_for community ((k, e) ∷ tree) =
    let rest = oids_for community tree in if is_hidden community e then rest else k ∷ rest

-- The second: its test `i < len(oids)` always holds.
unfoldable pub first_after : String → List String → Option String
first_after oid [] = none
first_after oid (k ∷ oids) =
    let rest = first_after oid oids in if lt_string oid k then some k else rest

-- Go's map answers a missing key with the zero value.
abbrev pub entry_at : Option MibEntry → MibEntry
entry_at none = empty_entry
entry_at (some e) = e

-- No string stands before a smaller one.
unfoldable pub IsSorted : List String → Type 0
IsSorted [] = Unit
IsSorted (s ∷ l) = All (λ t. lt_string t s ≡ false) l × IsSorted l

-- sort.Strings: it keeps the strings and puts them in increasing order.
pub record Sorting : Type 0 where
  pub sort : List String → List String
  pub member-sort : (s : String) (l : List String) → member s (sort l) ≡ member s l
  pub sort-IsSorted : (l : List String) → IsSorted (sort l)

unfoldable pub get_next_entry : Sorting → String → String → MibTree → MibError ⊎ MibEntry
get_next_entry sorting oid community tree =
    if is_refused community
    then inl invalid_community
    else elim (first_after oid (sorting.sort (oids_for community tree))) [
      | none ↦ inl no_next
      | some k ↦ inr (entry_at (lookup k tree))
    ]
