-- ===== src/Access/Examples.antt =====
-- Filtering at concrete inputs: addresses are numbers and a network is a list of them.
use sssonector.Prelude.{
  Bool, List, Option, String, [], arith, eqb, false, if◌then◌else◌, inr, nat_eq, none, refl, some,
  string_eq, true, ℕ, ◌==◌, ◌||◌, ◌∷◌, ◌≡◌,
}
use sssonector.Access.{
  IpFilterRule, NetPackage, add_rule, check_and_update_rate_limit, check_ip, invalid_action,
}
use sssonector.Access.Filtering.{check_ip-first}
use sssonector.Access.RateLimit.{limit_rule, rate_limit-blocks}

abbrev member : ℕ → List ℕ → Bool
member n [] = false
member n (m ∷ ms) = eqb m n || member n ms

abbrev toy_ip : String → Option ℕ
toy_ip s = if s == "10.0.0.1" then some 1 else if s == "9.9.9.9" then some 2 else none

abbrev toy_cidr : String → Option (List ℕ)
toy_cidr s =
    if s == "10.0.0.0/8"
    then some (1 ∷ 3 ∷ [])
    else if s == "10.0.0.1/32"
    then some (1 ∷ [])
    else if s == "9.9.9.9/32"
    then some (2 ∷ [])
    else none

abbrev toy_name : List ℕ → String
toy_name [] = "nothing"
toy_name (n ∷ []) = "10.0.0.1/32"
toy_name (n ∷ m ∷ ns) = "10.0.0.0/8"

abbrev toy : NetPackage (List ℕ) ℕ
toy = record {
  parse_cidr = toy_cidr;
  net_string = toy_name;
  contains = λ net ip. member ip net;
  parse_ip = toy_ip;
}

abbrev private_rule : IpFilterRule (List ℕ)
private_rule = record {
  ip_net = 1 ∷ 3 ∷ [];
  action = "allow";
  description = "Private network range";
  created_at = 5;
  updated_at = 5;
  expires_at = none;
  source = "manual";
}

refused_action : (add_rule toy 5 "10.0.0.0/8" "drop" "" []).1 ≡ some invalid_action
unfolding add_rule
refused_action = refl

check_ip-first_example :
    ((check_ip toy 6 6 "10.0.0.1" (limit_rule 0 (2 ∷ []) ∷ private_rule ∷ [])).1
      ≡ inr (true, "Private network range"))
    × ((check_ip toy 6 6 "10.0.0.1" (limit_rule 0 (2 ∷ []) ∷ [])).1
        ≡ inr (true, "no matching rules"))
check_ip-first_example =
    check_ip-first toy 6 6 "10.0.0.1" 1 (limit_rule 0 (2 ∷ []) ∷ []) [] private_rule refl (refl, tt)
      refl

rate_limit-blocks_example :
    ((check_and_update_rate_limit toy 1 1 "9.9.9.9" 5 5 (private_rule ∷ [])).1 ≡ inr false)
    × ((check_ip toy 100 100 "9.9.9.9"
          (check_and_update_rate_limit toy 1 1 "9.9.9.9" 5 5 (private_rule ∷ [])).0).1
        ≡ inr (false, "Rate limit exceeded"))
rate_limit-blocks_example =
    rate_limit-blocks toy 1 1 100 100 5 5 "9.9.9.9" 2 (2 ∷ []) (private_rule ∷ []) refl refl refl
      (refl, tt) (omega arith) (omega arith) (omega arith) (omega arith) (omega arith)

added : add_rule toy 5 "10.0.0.0/8" "allow" "Private network range" [] ≡ (private_rule ∷ [], none)
unfolding add_rule
added = refl
