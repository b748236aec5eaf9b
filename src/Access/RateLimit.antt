-- ===== src/Access/RateLimit.antt =====
-- What the temporary rule of a rate limit blocks, and what it does not.
use mathlib.Core.List.{append-nil, append_assoc}
use sssonector.Prelude.{
  All, Bool-cases, List, Option-cases, String, [], ap, arith, concat, false, inl, inr, leb, none,
  refl, some, string_eq, sym, true, ℕ, ◌*◌, ◌++◌, ◌+◌, ◌<◌, ◌==◌, ◌∙◌, ◌∷◌, ◌≡◌, ◌≤◌,
}
use sssonector.Access.{
  IpFilterRule, NetPackage, add_rate_limit_rule, add_temporary_rule, check_and_update_rate_limit,
  check_ip, cleanup_expired_rules, first_match, is_current, minute,
}
use sssonector.Access.Filtering.{applies, check_ip-first, first_match-hit, first_match-skip}

abbrev pub limit_rule {ℓ} : {Net : Type ℓ} → ℕ → Net → IpFilterRule Net
limit_rule now block = record {
  ip_net = block;
  action = "deny";
  description = "Rate limit exceeded";
  created_at = now;
  updated_at = now;
  expires_at = some (now + 15 * minute);
  source = "temporary";
}

module _ {ℓ} {Net Ip : Type ℓ} (net : NetPackage Net Ip) where
  abbrev NoneApplies : ℕ → ℕ → Ip → List (IpFilterRule Net) → Type 0
  NoneApplies now later ip rules = All (λ r. applies net now later ip r ≡ false) rules

  add_rate_limit_rule-adds :
      (now : ℕ) (ip_str : String) (ip : Ip) (block : Net) (rules : List (IpFilterRule Net))
      → net.parse_ip ip_str ≡ some ip
      → net.parse_cidr (concat ip_str "/32") ≡ some block
      → add_rate_limit_rule net now ip_str (15 * minute) rules
        ≡ (rules ++ (limit_rule now block ∷ []), none)
  unfolding add_rate_limit_rule add_temporary_rule
  add_rate_limit_rule-adds now ip_str ip block rules p q =
      rw (p, add_rate_limit_rule) (rw (q, add_temporary_rule) refl)

  check_ip-allows :
      (now later : ℕ) (ip_str description : String) (ip : Ip) (rules : List (IpFilterRule Net))
      → net.parse_ip ip_str ≡ some ip
      → first_match net later ip (cleanup_expired_rules net now rules) ≡ (true, description)
      → check_ip net now later ip_str rules
        ≡ (cleanup_expired_rules net now rules, inr (true, description))
  unfolding check_ip
  check_ip-allows now later ip_str description ip rules p f = rw (p, check_ip) (rw f refl)

  limit-blocks :
      (now later max_attempts attempt : ℕ) (ip_str description : String) (ip : Ip) (block : Net)
      (rules : List (IpFilterRule Net))
      → net.parse_ip ip_str ≡ some ip
      → net.parse_cidr (concat ip_str "/32") ≡ some block
      → max_attempts ≤ attempt
      → first_match net later ip (cleanup_expired_rules net now rules) ≡ (true, description)
      → check_and_update_rate_limit net now later ip_str max_attempts attempt rules
        ≡ (cleanup_expired_rules net now rules ++ (limit_rule later block ∷ []), inr false)
  unfolding check_and_update_rate_limit
  limit-blocks now later max_attempts attempt ip_str description ip block rules p q h f =
      let left = cleanup_expired_rules net now rules in
      let reached : leb max_attempts attempt ≡ true = ground arith in
      let answer = check_ip-allows now later ip_str description ip rules p f in
      rw (ap (λ r. r.1) answer, check_and_update_rate_limit)
        (rw (reached, ap (λ r. r.0) answer)
          (rw (add_rate_limit_rule-adds later ip_str ip block left p q) refl))

  cleanup-append :
      (now : ℕ) (xs ys : List (IpFilterRule Net))
      → cleanup_expired_rules net now (xs ++ ys)
        ≡ cleanup_expired_rules net now xs ++ cleanup_expired_rules net now ys
  unfolding cleanup_expired_rules
  cleanup-append now [] ys = refl
  cleanup-append now (r ∷ xs) ys = elim (Bool-cases (is_current net now r)) [
    | inl c ↦ rw c (ap (◌∷◌ r) (cleanup-append now xs ys))
    | inr c ↦ rw c (cleanup-append now xs ys)
  ]

  cleanup-All :
      (now : ℕ) (P : IpFilterRule Net → Type 0) (xs : List (IpFilterRule Net))
      → All P xs
      → All P (cleanup_expired_rules net now xs)
  unfolding cleanup_expired_rules
  cleanup-All now P [] h = tt
  cleanup-All now P (r ∷ xs) h = elim (Bool-cases (is_current net now r)) [
    | inl c ↦ rw c (h.0, cleanup-All now P xs h.1)
    | inr c ↦ rw c (cleanup-All now P xs h.1)
  ]

  not_again :
      (now later again again' : ℕ) (ip : Ip) (r : IpFilterRule Net)
      → now ≤ again
      → later ≤ again'
      → applies net now later ip r ≡ false
      → applies net again again' ip r ≡ false
  not_again now later again again' ip r h h' g = elim (Option-cases r.expires_at) [
    | inl e ↦ ground (arith, e, g)
    | inr (t, e) ↦ ground (arith, e, g)
  ]

  none_again :
      (now later again again' : ℕ) (ip : Ip) (rules : List (IpFilterRule Net))
      → now ≤ again
      → later ≤ again'
      → NoneApplies now later ip rules
      → NoneApplies again again' ip rules
  none_again now later again again' ip [] h h' g = tt
  none_again now later again again' ip (r ∷ rules) h h' g = (
    not_again now later again again' ip r h h' g.0,
    none_again now later again again' ip rules h h' g.1,
  )

  first_match-none :
      (now later : ℕ) (ip : Ip) (rules : List (IpFilterRule Net))
      → NoneApplies now later ip rules
      → first_match net later ip (cleanup_expired_rules net now rules) ≡ (true, "no matching rules")
  unfolding first_match cleanup_expired_rules
  first_match-none now later ip rules h =
      ap (λ rs. first_match net later ip (cleanup_expired_rules net now rs))
        (sym (append-nil rules))
      ∙ first_match-skip net now later ip rules [] h

  keeps :
      (now : ℕ) (rule : IpFilterRule Net) (rules : List (IpFilterRule Net))
      → rule.expires_at ≡ none
      → cleanup_expired_rules net now (rule ∷ rules) ≡ rule ∷ cleanup_expired_rules net now rules
  unfolding cleanup_expired_rules
  keeps now rule rules e = rw e refl

  -- Below the maximum the answer is that of CheckIP.
  below :
      (now later : ℕ) (ip_str description : String) (max_attempts attempt : ℕ)
      (rules : List (IpFilterRule Net))
      → (check_ip net now later ip_str rules).1 ≡ inr (true, description)
      → attempt < max_attempts
      → (check_and_update_rate_limit net now later ip_str max_attempts attempt rules).1 ≡ inr true
  unfolding check_and_update_rate_limit
  below now later ip_str description max_attempts attempt rules h m =
      let not_yet : leb max_attempts attempt ≡ false = ground arith in
      rw (h, check_and_update_rate_limit) (rw (not_yet, check_and_update_rate_limit) refl)

-- CheckAndUpdateRateLimit, for an address of which no rule speaks and whose attempts have reached
-- the maximum: it is refused, and so is every CheckIP of it that reads the clock no earlier than the
-- refusal and, both times, before fifteen minutes have passed since the rule was made, with the
-- reason "Rate limit exceeded". (ParseCIDR is asked for the text of the address followed by "/32",
-- and gives a network that contains the address.)
pub rate_limit-blocks {ℓ} :
    {Net Ip : Type ℓ} (net : NetPackage Net Ip) (now later again again' max_attempts attempt : ℕ)
    (ip_str : String) (ip : Ip) (block : Net) (rules : List (IpFilterRule Net))
    → net.parse_ip ip_str ≡ some ip
    → net.parse_cidr (concat ip_str "/32") ≡ some block
    → net.contains block ip ≡ true
    → NoneApplies net now later ip rules
    → max_attempts ≤ attempt
    → now ≤ again
    → later ≤ again'
    → again < later + 15 * minute
    → again' < later + 15 * minute
    → let (left, answer) =
        check_and_update_rate_limit net now later ip_str max_attempts attempt rules in
      (answer ≡ inr false)
      × ((check_ip net again again' ip_str left).1 ≡ inr (false, "Rate limit exceeded"))
rate_limit-blocks net now later again again' max_attempts attempt ip_str ip block rules p q c h m n
      n' b b' =
    let left = cleanup_expired_rules net now rules in
    let old : NoneApplies net again again' ip left =
      cleanup-All net now (λ r. applies net again again' ip r ≡ false) rules
        (none_again net now later again again' ip rules n n' h) in
    let first = first_match-none net now later ip rules h in
    let denies : applies net again again' ip (limit_rule later block) ≡ true =
      ground (arith, c, b, b') in
    rw
      (limit-blocks net now later max_attempts attempt ip_str "no matching rules" ip block rules p q
        m first)
      (
        refl,
        (check_ip-first net again again' ip_str ip left [] (limit_rule later block) p old denies).0,
      )

-- A limit that does not bind: where the first rule that speaks of the address is one that allows it
-- and does not expire, such as those of AddCommonSecurityRules for the private networks,
-- CheckAndUpdateRateLimit also refuses an address whose attempts have reached the maximum, and adds
-- its rule, but that rule stands behind the other: CheckIP goes on to allow the address at any time
-- after, and the next CheckAndUpdateRateLimit with fewer attempts allows it too.
pub rate_limit-shadowed {ℓ} :
    {Net Ip : Type ℓ} (net : NetPackage Net Ip)
    (now later again again' max_attempts attempt attempt' : ℕ) (ip_str : String) (ip : Ip)
    (block : Net) (before after : List (IpFilterRule Net)) (rule : IpFilterRule Net)
    → net.parse_ip ip_str ≡ some ip
    → net.parse_cidr (concat ip_str "/32") ≡ some block
    → NoneApplies net now later ip before
    → net.contains rule.ip_net ip ≡ true
    → rule.expires_at ≡ none
    → (rule.action == "allow") ≡ true
    → max_attempts ≤ attempt
    → attempt' < max_attempts
    → now ≤ again
    → later ≤ again'
    → let rules = before ++ (rule ∷ after) in
      let (left, answer) =
        check_and_update_rate_limit net now later ip_str max_attempts attempt rules in
      (answer ≡ inr false)
      × ((check_ip net again again' ip_str left).1 ≡ inr (true, rule.description))
      × ((check_and_update_rate_limit net again again' ip_str max_attempts attempt' left).1
          ≡ inr true)
rate_limit-shadowed net now later again again' max_attempts attempt attempt' ip_str ip block before
      after rule p q h c e a m m' n n' =
    let new = limit_rule later block ∷ [] in
    let before' = cleanup_expired_rules net now before in
    let after' = cleanup_expired_rules net now after in
    let applied : applies net now later ip rule ≡ true = ground (arith, c, e) in
    let applied' : applies net again again' ip rule ≡ true = ground (arith, c, e) in
    let old : NoneApplies net again again' ip before' =
      cleanup-All net now (λ r. applies net again again' ip r ≡ false) before
        (none_again net now later again again' ip before n n' h) in
    let first : first_match net later ip (cleanup_expired_rules net now (before ++ (rule ∷ after)))
        ≡ (true, rule.description) =
      first_match-skip net now later ip before (rule ∷ after) h
      ∙ first_match-hit net now later ip rule after applied
      ∙ ap (λ x. (x, rule.description)) a in
    let shape : cleanup_expired_rules net now (before ++ (rule ∷ after)) ++ new
        ≡ before' ++ (rule ∷ after' ++ new) =
      ap (λ x. x ++ new)
        (cleanup-append net now before (rule ∷ after)
          ∙ ap (λ x. before' ++ x) (keeps net now rule after e))
      ∙ append_assoc before' (rule ∷ after') new in
    let answered : (check_ip net again again' ip_str (before' ++ (rule ∷ after' ++ new))).1
        ≡ inr (true, rule.description) =
      (check_ip-first net again again' ip_str ip before' (after' ++ new) rule p old applied').0
      ∙ ap (λ x. inr (x, rule.description)) a in
    rw
      (limit-blocks net now later max_attempts attempt ip_str rule.description ip block
        (before ++ (rule ∷ after)) p q m first)
      (rw shape (
        refl,
        answered,
        below net again again' ip_str rule.description max_attempts attempt'
            (before' ++ (rule ∷ after' ++ new)) answered m',
      ))
