-- ===== src/Recover/Messages.antt =====
-- What the search for patterns in a message does: `containsString` compares lengths only.
use sssonector.Prelude.{
  Bool, Bool-cases, List, Option, [], arith, false, if◌then◌else◌, inl, inr, leb, length, none,
  refl, some, take_all, true, ℕ, ◌+◌, ◌-◌, ◌<◌, ◌∷◌, ◌≡◌, ◌≢◌,
}
use sssonector.Recover.{
  Error, ErrorCategory, bytes_eq, classify_common_error, classify_message, configuration,
  configuration_patterns, contains_string, match_error, network, network_patterns, rate_limit,
  rate_limit_patterns, recoverable, resource_exhaustion, resource_patterns, validation,
  validation_patterns,
}

bytes_eq_refl : (s : List ℕ) → bytes_eq s s ≡ true
unfolding bytes_eq
bytes_eq_refl [] = refl
bytes_eq_refl (x ∷ xs) = ground (arith, bytes_eq_refl xs)

-- `containsString` holds exactly when the text is as long as the pattern, whatever the two texts
-- are.
pub contains_string-leb : (s sub : List ℕ) → contains_string s sub ≡ leb (length sub) (length s)
unfolding contains_string
contains_string-leb s sub = elim (Bool-cases (leb (length sub) (length s))) [
  | inl h ↦ rw (h, take_all (length s - length sub + length sub) s (ground arith), bytes_eq_refl s)
  | inr h ↦ rw h
]

abbrev any_fits : ℕ → List (List ℕ) → Bool
any_fits n [] = false
any_fits n (p ∷ ps) = if leb (length p) n then true else any_fits n ps

match_error-eq : (s : List ℕ) (ps : List (List ℕ)) → match_error s ps ≡ any_fits (length s) ps
unfolding match_error
match_error-eq s [] = refl
match_error-eq s (p ∷ ps) = rw (contains_string-leb s p, match_error-eq s ps)

abbrev pub by_length : ℕ → ErrorCategory
by_length n = if leb 8 n then network else if leb 3 n then rate_limit else recoverable

fits_network : (n : ℕ) → any_fits n network_patterns ≡ leb 8 n
fits_network n = ground arith

fits_rate_limit : (n : ℕ) → any_fits n rate_limit_patterns ≡ leb 3 n
fits_rate_limit n = ground arith

fits_late :
    (n : ℕ)
    → n < 3
    → (any_fits n resource_patterns ≡ false)
      × (any_fits n validation_patterns ≡ false)
      × (any_fits n configuration_patterns ≡ false)
fits_late n h = ground arith

-- The message of an error decides its category by its length alone: network from 8 bytes on, rate
-- limit from 3 to 7 bytes, and recoverable below 3.
pub classify_message-by_length : (s : List ℕ) → classify_message s ≡ by_length (length s)
unfolding classify_message
classify_message-by_length s = ground (
  arith,
  match_error-eq s network_patterns,
  match_error-eq s rate_limit_patterns,
  match_error-eq s resource_patterns,
  match_error-eq s validation_patterns,
  match_error-eq s configuration_patterns,
  fits_network (length s),
  fits_rate_limit (length s),
  fits_late (length s),
)

-- No error is ever classified as resource exhaustion, validation or configuration.
pub classify_common_error-unreachable :
    (e : Option Error)
    → (classify_common_error e ≢ resource_exhaustion)
      × (classify_common_error e ≢ validation)
      × (classify_common_error e ≢ configuration)
unfolding classify_common_error
classify_common_error-unreachable none = ground arith
classify_common_error-unreachable (some e) = ground (arith, classify_message-by_length e.message)
