-- ===== src/Access/Filtering.antt =====
-- Which rule decides, and what removing and expiring rules does to the others.
use mathlib.Core.List.{append-nil}
use sssonector.Prelude.{
  All, Bool, Bool-cases, List, Option-cases, String, [], ap, arith, eq_iff, false, inl, inr, ltb,
  ltb→lt, lt→ltb, none, not, refl, some, string_eq, sym, true, ℕ, ◌&&◌, ◌++◌, ◌==◌, ◌∙◌, ◌∷◌, ◌≡◌,
  ◌≤◌,
}
use sssonector.Access.{
  IpFilterRule, NetPackage, add_rule, check_ip, cleanup_expired_rules, first_match, has_expired,
  is_action, is_current, remove_rule, without_net,
}

module _ {ℓ} {Net Ip : Type ℓ} (net : NetPackage Net Ip) where
  open net use {parse_cidr, net_string, contains, parse_ip}

  -- The rule speaks of the address, and has not expired at either of the two readings of the clock.
  abbrev pub applies : ℕ → ℕ → Ip → IpFilterRule Net → Bool
  applies now later ip rule =
      contains rule.ip_net ip && is_current net now rule && not (has_expired net later rule)

  pub first_match-skip :
      (now later : ℕ) (ip : Ip) (before rest : List (IpFilterRule Net))
      → All (λ r. applies now later ip r ≡ false) before
      → first_match net later ip (cleanup_expired_rules net now (before ++ rest))
        ≡ first_match net later ip (cleanup_expired_rules net now rest)
  unfolding first_match cleanup_expired_rules
  first_match-skip now later ip [] rest h = refl
  first_match-skip now later ip (r ∷ before) rest h =
      let ih = first_match-skip now later ip before rest h.1 in
      let g = h.0 in
      elim (Bool-cases (is_current net now r)) [
        | inl c ↦ elim (Bool-cases (contains r.ip_net ip)) [
          | inl d ↦ elim (Bool-cases (has_expired net later r)) [
            | inl e ↦ rw c (rw d (rw e ih))
            | inr e ↦ ground (arith, c, d, e, g)
          ]
          | inr d ↦ rw c (rw d ih)
        ]
        | inr c ↦ rw c ih
      ]

  pub first_match-hit :
      (now later : ℕ) (ip : Ip) (rule : IpFilterRule Net) (after : List (IpFilterRule Net))
      → applies now later ip rule ≡ true
      → first_match net later ip (cleanup_expired_rules net now (rule ∷ after))
        ≡ (rule.action == "allow", rule.description)
  unfolding first_match cleanup_expired_rules
  first_match-hit now later ip r after g = elim (Bool-cases (is_current net now r)) [
    | inl c ↦ elim (Bool-cases (contains r.ip_net ip)) [
      | inl d ↦ elim (Bool-cases (has_expired net later r)) [
        | inl e ↦ ground (arith, c, d, e, g)
        | inr e ↦ rw c (rw d (rw e refl))
      ]
      | inr d ↦ ground (arith, c, d, g)
    ]
    | inr c ↦ ground (arith, c, g)
  ]

  current_earlier :
      (now later : ℕ) (r : IpFilterRule Net)
      → now ≤ later
      → is_current net later r ≡ true
      → is_current net now r ≡ true
  current_earlier now later r h d = elim (Option-cases r.expires_at) [
    | inl none_set ↦ rw none_set refl
    | inr (e, is_set) ↦
        let before : ltb later e ≡ true = rw is_set at d in
        rw is_set (lt→ltb now e (omega (arith, ltb→lt later e before)))
  ]

  pub cleanup-cleanup :
      (now later : ℕ) (rules : List (IpFilterRule Net))
      → now ≤ later
      → cleanup_expired_rules net later (cleanup_expired_rules net now rules)
        ≡ cleanup_expired_rules net later rules
  unfolding cleanup_expired_rules
  cleanup-cleanup now later [] h = refl
  cleanup-cleanup now later (r ∷ rules) h =
      let ih = cleanup-cleanup now later rules h in
      elim (Bool-cases (is_current net now r)) [
        | inl c ↦ elim (Bool-cases (is_current net later r)) [
          | inl d ↦ rw c (rw d (ap (◌∷◌ r) ih))
          | inr d ↦ rw c (rw d ih)
        ]
        | inr c ↦ elim (Bool-cases (is_current net later r)) [
          | inl d ↦ ground (arith, current_earlier now later r h d, c)
          | inr d ↦ rw c (rw d ih)
        ]
      ]

  without_net-append :
      (name : String) (rules : List (IpFilterRule Net)) (rule : IpFilterRule Net)
      → All (λ r. (net_string r.ip_net == name) ≡ false) rules
      → (net_string rule.ip_net == name) ≡ true
      → without_net net name (rules ++ (rule ∷ [])) ≡ (rules, true)
  unfolding without_net
  without_net-append name [] rule h g = rw (g, without_net) refl
  without_net-append name (r ∷ rules) rule h g =
      rw (without_net-append name rules rule h.1 g) (rw (h.0) refl)

eq_same : (s : String) → (s == s) ≡ true
eq_same s = (eq_iff s s).1 refl

abbrev manual {ℓ} : {Net : Type ℓ} → ℕ → Net → String → String → IpFilterRule Net
manual now ip_net action description = record {
  ip_net = ip_net;
  action = action;
  description = description;
  created_at = now;
  updated_at = now;
  expires_at = none;
  source = "manual";
}

add_rule-adds {ℓ} :
    {Net Ip : Type ℓ} (net : NetPackage Net Ip) (now : ℕ) (cidr action description : String)
    (ip_net : Net) (rules : List (IpFilterRule Net))
    → net.parse_cidr cidr ≡ some ip_net
    → is_action net action ≡ true
    → add_rule net now cidr action description rules
      ≡ (rules ++ (manual now ip_net action description ∷ []), none)
unfolding add_rule
add_rule-adds net now cidr action description ip_net rules p a =
    rw (p, add_rule) (rw (a, add_rule) refl)

-- RemoveRule undoes AddRule: where the CIDR parses, the action is "allow" or "deny" and no rule has
-- the network yet, adding the rule succeeds, and removing it then succeeds too and leaves the rules
-- as they were.
pub remove_rule-add_rule {ℓ} :
    {Net Ip : Type ℓ} (net : NetPackage Net Ip) (now : ℕ) (cidr action description : String)
    (ip_net : Net) (rules : List (IpFilterRule Net))
    → net.parse_cidr cidr ≡ some ip_net
    → is_action net action ≡ true
    → All (λ r. (net.net_string r.ip_net == net.net_string ip_net) ≡ false) rules
    → let (added, e) = add_rule net now cidr action description rules in
      (e ≡ none) × (remove_rule net cidr added ≡ (rules, none))
unfolding add_rule remove_rule
remove_rule-add_rule net now cidr action description ip_net rules p a fresh =
    let new = manual now ip_net action description in
    rw (add_rule-adds net now cidr action description ip_net rules p a) (
      refl,
      rw (p, remove_rule)
          (rw
            (without_net-append net (net.net_string ip_net) rules new fresh
              (eq_same (net.net_string ip_net)))
            refl),
    )

-- CheckIP: the first rule that contains the address and has not expired at either of the two times
-- at which it reads the clock decides, whatever rules come before it that have expired or do not
-- contain the address, and whatever comes after it: the answer is whether its action is "allow",
-- with its description. Where there is none, the address is allowed.
pub check_ip-first {ℓ} :
    {Net Ip : Type ℓ} (net : NetPackage Net Ip) (now later : ℕ) (ip_str : String) (ip : Ip)
    (before after : List (IpFilterRule Net)) (rule : IpFilterRule Net)
    → net.parse_ip ip_str ≡ some ip
    → All (λ r. applies net now later ip r ≡ false) before
    → applies net now later ip rule ≡ true
    → ((check_ip net now later ip_str (before ++ (rule ∷ after))).1
        ≡ inr (rule.action == "allow", rule.description))
      × ((check_ip net now later ip_str before).1 ≡ inr (true, "no matching rules"))
unfolding check_ip first_match cleanup_expired_rules
check_ip-first net now later ip_str ip before after rule p h g =
    rw (p, check_ip)
      (
        ap inr (
            first_match-skip net now later ip before (rule ∷ after) h
            ∙ first_match-hit net now later ip rule after g),
        ap inr (
            ap (λ rs. first_match net later ip (cleanup_expired_rules net now rs))
              (sym (append-nil before))
            ∙ first_match-skip net now later ip before [] h),
      )

-- Removing the rules that have expired by some time, as CheckIP, ListRules and ClearExpiredRules do,
-- never changes what a later CheckIP answers, nor the rules it leaves.
pub check_ip-cleanup {ℓ} :
    {Net Ip : Type ℓ} (net : NetPackage Net Ip) (earlier now later : ℕ) (ip_str : String)
    (rules : List (IpFilterRule Net))
    → earlier ≤ now
    → let left = cleanup_expired_rules net earlier rules in
      ((check_ip net now later ip_str left).1 ≡ (check_ip net now later ip_str rules).1)
      × (cleanup_expired_rules net now left ≡ cleanup_expired_rules net now rules)
unfolding check_ip
check_ip-cleanup net earlier now later ip_str rules h =
    let same = cleanup-cleanup net earlier now rules h in
    elim (Option-cases (net.parse_ip ip_str)) [
      | inl p ↦ rw (p, check_ip) (refl, same)
      | inr (ip, p) ↦ rw (p, check_ip) (rw same (refl, refl))
    ]
