-- ===== src/Recover/Classifiers.antt =====
-- The classifier list kept by priority, and which strategies an error can reach.
use mathlib.Core.List.{Perm}
use mathlib.Core.List.Perm
use sssonector.Prelude.{
  All, Bool-cases, List, [], arith, dec_lt, false, if◌then◌else◌, inl, inr, leb, length, le→ltb,
  ltb, lt→ltb, none, not, some, true, ℕ, ◌&&◌, ◌∷◌, ◌≡◌, ◌≢◌, ◌≤◌,
}
use sssonector.Recover.{
  Error, ErrorCategory, ErrorClassifier, add_classifier, backoff_retry_can_recover,
  builtin_recovery_strategies, circuit_reset_can_recover, classify_common_error, classify_error,
  default_classifiers, find_strategy, is_category, network_retry_can_recover,
  resource_retry_can_recover, unknown,
}
use sssonector.Recover.Messages.{classify_message-by_length}

-- Priorities never rise along the list.
abbrev pub IsOrdered : List ErrorClassifier → Type 0
IsOrdered [] = Unit {0}
IsOrdered (c ∷ cs) = All (λ (d : ErrorClassifier). d.priority ≤ c.priority) cs × IsOrdered cs

All-add_classifier :
    (n : ℕ) (c : ErrorClassifier) (cs : List ErrorClassifier)
    → c.priority ≤ n
    → All (λ (d : ErrorClassifier). d.priority ≤ n) cs
    → All (λ (d : ErrorClassifier). d.priority ≤ n) (add_classifier c cs)
unfolding add_classifier
All-add_classifier n c [] h a = (h, tt)
All-add_classifier n c (x ∷ xs) h a = ground (arith, All-add_classifier n c xs h a.1)

All-lower :
    (m n : ℕ) (cs : List ErrorClassifier)
    → m ≤ n
    → All (λ (d : ErrorClassifier). d.priority ≤ m) cs
    → All (λ (d : ErrorClassifier). d.priority ≤ n) cs
All-lower m n [] h a = tt
All-lower m n (x ∷ xs) h a = (omega arith, All-lower m n xs h a.1)

add_classifier-IsOrdered :
    (c : ErrorClassifier) (cs : List ErrorClassifier)
    → IsOrdered cs
    → IsOrdered (add_classifier c cs)
unfolding add_classifier
add_classifier-IsOrdered c [] o = (tt, tt)
add_classifier-IsOrdered c (x ∷ xs) o = elim (dec_lt x.priority c.priority) [
  | yes h ↦
      rw (lt→ltb _ _ h) ((omega arith, All-lower x.priority c.priority xs (omega arith) o.0), o)
  | no h ↦
      rw (le→ltb x.priority c.priority (omega arith))
        (All-add_classifier x.priority c xs (omega arith) o.0, add_classifier-IsOrdered c xs o.1)
]

add_classifier-perm :
    (c : ErrorClassifier) (cs : List ErrorClassifier) → Perm (add_classifier c cs) (c ∷ cs)
unfolding add_classifier
add_classifier-perm c [] = Perm.refl _
add_classifier-perm c (x ∷ xs) = elim (Bool-cases (ltb x.priority c.priority)) [
  | inl h ↦ rw h (Perm.refl _)
  | inr h ↦ rw h (Perm.trans (Perm.cons x (add_classifier-perm c xs)) (Perm.swap c x xs))
]

-- Adding a classifier to a list that is ordered by falling priority keeps it so, and the new list
-- holds the classifiers of the old one and the new classifier, each as often.
pub add_classifier-IsOrdered_perm :
    (c : ErrorClassifier) (cs : List ErrorClassifier)
    → IsOrdered cs
    → IsOrdered (add_classifier c cs) × Perm (add_classifier c cs) (c ∷ cs)
add_classifier-IsOrdered_perm c cs o = (add_classifier-IsOrdered c cs o, add_classifier-perm c cs)

classify_common_error-ne-unknown : (e : Error) → classify_common_error (some e) ≢ unknown
unfolding classify_common_error
classify_common_error-ne-unknown e = ground (arith, classify_message-by_length e.message)

is_category-unknown : (a : ErrorCategory) → a ≢ unknown → is_category a unknown ≡ false
is_category-unknown a h = ground arith

-- An added classifier is asked first if its priority is over 10, the highest of the defaults, and
-- then decides unless it answers unknown; with a priority up to 10 it is never heard, since the first
-- default always answers. What is left is the common classification.
pub classify_error-add_classifier :
    (c : ErrorClassifier) (e : Error)
    → classify_error (add_classifier c default_classifiers) e ≡ (
        if ltb 10 c.priority && not (is_category (c.classify e) unknown)
        then c.classify e
        else classify_common_error (some e))
unfolding classify_error add_classifier default_classifiers
classify_error-add_classifier c e =
    let known =
      is_category-unknown (classify_common_error (some e)) (classify_common_error-ne-unknown e) in
    elim (Bool-cases (ltb 10 c.priority)) [
      | inl h ↦ rw (h, known) (ground arith)
      | inr h ↦ rw (h, known) (ground arith)
    ]

-- Which built-in strategies accept an error that is neither a cancellation, a deadline nor an open
-- circuit: the backoff always, the circuit reset never, the resource retry for messages of 3 to 7
-- bytes and the network retry for messages from 8 bytes on, whatever the messages say.
pub strategies_by_length :
    (e : Error)
    → e.is_canceled ≡ false
    → e.is_deadline_exceeded ≡ false
    → e.is_circuit_open ≡ false
    → (backoff_retry_can_recover e ≡ true)
      × (circuit_reset_can_recover e ≡ false)
      × (resource_retry_can_recover e ≡ leb 3 (length e.message) && ltb (length e.message) 8)
      × (network_retry_can_recover e ≡ leb 8 (length e.message))
unfolding backoff_retry_can_recover circuit_reset_can_recover resource_retry_can_recover
    network_retry_can_recover classify_common_error
strategies_by_length e c d o = ground (arith, classify_message-by_length e.message)

-- The built-in strategies, tried in the order of their declaration, for an error that is not both a
-- cancellation and an open circuit: a cancellation finds none, an open circuit that is no deadline
-- finds the circuit reset, and every other error finds the backoff.
pub find_strategy-builtin :
    (e : Error)
    → e.is_canceled && e.is_circuit_open ≡ false
    → find_strategy builtin_recovery_strategies e ≡ (
        if e.is_canceled
        then none
        else if e.is_circuit_open && not e.is_deadline_exceeded
        then some "circuit_reset"
        else some "backoff_retry")
unfolding find_strategy builtin_recovery_strategies backoff_retry_can_recover
    circuit_reset_can_recover resource_retry_can_recover network_retry_can_recover
    classify_common_error
find_strategy-builtin e h = ground (arith, classify_message-by_length e.message)
