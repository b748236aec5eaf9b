-- ===== src/Recover.antt =====
-- internal/resilience/recovery.go: how errors are classified and which strategy takes one.
-- An error is what the code asks of it: three answers of `errors.Is`, and the bytes of its message.
pub mod Messages
pub mod Classifiers
pub mod Recovery
pub mod Outcomes
pub mod Strategies
mod Examples
use Prim.Native.Char.{code}
use Prim.Native.String.{String}
use sssonector.Prelude.{
  Bool, List, Option, String, [], eqb, false, if◌then◌else◌, leb, length, ltb, none, not, some,
  take, true, ℕ, ◌&&◌, ◌+◌, ◌-◌, ◌||◌, ◌∷◌,
}

pub record Error : Type 0 where
  pub is_canceled : Bool  -- errors.Is(err, context.Canceled)
  pub is_deadline_exceeded : Bool  -- errors.Is(err, context.DeadlineExceeded)
  pub is_circuit_open : Bool  -- errors.Is(err, ErrCircuitOpen)
  pub message : List ℕ

pub data ErrorCategory : Type 0 where
  unknown retryable non_retryable rate_limit resource_exhaustion network timeout circuit_open
        validation configuration recoverable :
      ErrorCategory

-- The values that `iota` gives.
abbrev pub category_code : ErrorCategory → ℕ
category_code unknown = 0
category_code retryable = 1
category_code non_retryable = 2
category_code rate_limit = 3
category_code resource_exhaustion = 4
category_code network = 5
category_code timeout = 6
category_code circuit_open = 7
category_code validation = 8
category_code configuration = 9
category_code recoverable = 10

abbrev pub codes : String → List ℕ
codes String.[] = []
codes (String.◌∷◌ c s) = code c ∷ codes s

unfoldable pub bytes_eq : List ℕ → List ℕ → Bool
bytes_eq [] [] = true
bytes_eq (x ∷ xs) (y ∷ ys) = eqb x y && bytes_eq xs ys
bytes_eq _ _ = false

unfoldable pub contains_string : List ℕ → List ℕ → Bool
unfolding bytes_eq
contains_string s substr =
    leb (length substr) (length s) && bytes_eq s (take (length s - length substr + length substr) s)

unfoldable pub match_error : List ℕ → List (List ℕ) → Bool
unfolding contains_string
match_error err_str [] = false
match_error err_str (pattern' ∷ patterns) =
    let rest = match_error err_str patterns in
    if contains_string err_str pattern' then true else rest

abbrev pub network_patterns : List (List ℕ)
network_patterns =
    codes "connection refused"
    ∷ codes "no such host"
    ∷ codes "network is unreachable"
    ∷ codes "dial tcp"
    ∷ []

abbrev pub rate_limit_patterns : List (List ℕ)
rate_limit_patterns = codes "rate limit" ∷ codes "too many requests" ∷ codes "429" ∷ []

abbrev pub resource_patterns : List (List ℕ)
resource_patterns =
    codes "resource exhausted" ∷ codes "out of memory" ∷ codes "insufficient resources" ∷ []

abbrev pub validation_patterns : List (List ℕ)
validation_patterns =
    codes "invalid" ∷ codes "validation" ∷ codes "malformed" ∷ codes "bad request" ∷ []

abbrev pub configuration_patterns : List (List ℕ)
configuration_patterns = codes "configuration" ∷ codes "config" ∷ codes "settings" ∷ []

unfoldable pub classify_message : List ℕ → ErrorCategory
classify_message err_str =
    if match_error err_str network_patterns
    then network
    else if match_error err_str rate_limit_patterns
    then rate_limit
    else if match_error err_str resource_patterns
    then resource_exhaustion
    else if match_error err_str validation_patterns
    then validation
    else if match_error err_str configuration_patterns
    then configuration
    else recoverable

unfoldable pub classify_common_error : Option Error → ErrorCategory
classify_common_error none = unknown
classify_common_error (some e) =
    if e.is_canceled
    then non_retryable
    else if e.is_deadline_exceeded
    then timeout
    else if e.is_circuit_open
    then circuit_open
    else classify_message e.message

abbrev pub is_category : ErrorCategory → ErrorCategory → Bool
is_category a b = eqb (category_code a) (category_code b)

-- `CanRecover` of the four built-in strategies.
unfoldable pub backoff_retry_can_recover : Error → Bool
backoff_retry_can_recover e =
    let cat = classify_common_error (some e) in
    not (is_category cat non_retryable) && not (is_category cat circuit_open)

unfoldable pub circuit_reset_can_recover : Error → Bool
circuit_reset_can_recover e = e.is_circuit_open

unfoldable pub resource_retry_can_recover : Error → Bool
resource_retry_can_recover e =
    let cat = classify_common_error (some e) in
    is_category cat resource_exhaustion || is_category cat rate_limit

unfoldable pub network_retry_can_recover : Error → Bool
network_retry_can_recover e =
    let cat = classify_common_error (some e) in is_category cat network || is_category cat timeout

pub record ErrorClassifier : Type 0 where
  pub name : String
  pub classify : Error → ErrorCategory
  pub priority : ℕ

-- The loop of `AddClassifier`: before the first classifier of a lower priority.
unfoldable pub add_classifier : ErrorClassifier → List ErrorClassifier → List ErrorClassifier
add_classifier c [] = c ∷ []
add_classifier c (x ∷ xs) =
    if ltb x.priority c.priority then c ∷ x ∷ xs else x ∷ add_classifier c xs

-- What `addDefaultClassifiers` appends, in its order.
unfoldable pub default_classifiers : List ErrorClassifier
default_classifiers =
    record {
      name = "network_errors";
      classify = λ e. classify_common_error (some e);
      priority = 10;
    }
    ∷ record {
      name = "resource_errors";
      classify = λ e.
          if is_category (classify_common_error (some e)) resource_exhaustion
          then resource_exhaustion
          else unknown;
      priority = 5;
    }
    ∷ record { name = "fallback"; classify = λ _. recoverable; priority = 0 }
    ∷ []

unfoldable pub classify_error : List ErrorClassifier → Error → ErrorCategory
classify_error [] e = unknown
classify_error (c ∷ cs) e =
    let category = c.classify e in
    let rest = classify_error cs e in if is_category category unknown then rest else category

-- A strategy by its name and `CanRecover`. `findStrategy` takes the first that accepts the error,
-- in the order of iteration.
unfoldable pub find_strategy : List (String × (Error → Bool)) → Error → Option String
find_strategy [] e = none
find_strategy ((name, can_recover) ∷ rest) e =
    let later = find_strategy rest e in if can_recover e then some name else later

unfoldable pub builtin_recovery_strategies : List (String × (Error → Bool))
builtin_recovery_strategies =
    ("backoff_retry", backoff_retry_can_recover)
    ∷ ("circuit_reset", circuit_reset_can_recover)
    ∷ ("resource_retry", resource_retry_can_recover)
    ∷ ("network_retry", network_retry_can_recover)
    ∷ []
