-- ===== src/Access.antt =====
-- internal/security/access/ipfilter.go: the rules that admit and deny addresses. Addresses, networks
-- and their textual forms are those of Go's package net: they are parameters. The clock is an
-- argument: `now` is the time at which an operation reads it.
pub mod Filtering
pub mod RateLimit
mod Examples
use sssonector.Prelude.{
  Bool, List, Option, String, [], concat, false, if◌then◌else◌, inl, inr, leb, ltb, none, not, some,
  string_eq, true, ℕ, ◌*◌, ◌++◌, ◌+◌, ◌==◌, ◌||◌, ◌∷◌, ◌⊎◌,
}

pub record IpFilterRule {ℓ} (Net : Type ℓ) : Type ℓ where
  pub ip_net : Net
  pub action : String  -- "allow" or "deny"
  pub description : String
  pub created_at : ℕ
  pub updated_at : ℕ
  pub expires_at : Option ℕ
  pub source : String  -- "manual", "automatic", etc.

pub data AccessError : Type 0 where
  invalid_cidr invalid_action rule_not_found invalid_ip : AccessError

-- Of the package net: `parse_cidr` is ParseCIDR's network, `net_string` is IPNet.String, `contains`
-- is IPNet.Contains, `parse_ip` is ParseIP, `none` for nil.
pub record NetPackage {ℓ} (Net Ip : Type ℓ) : Type ℓ where
  pub parse_cidr : String → Option Net
  pub net_string : Net → String
  pub contains : Net → Ip → Bool
  pub parse_ip : String → Option Ip

abbrev pub minute : ℕ
minute = 60000000000

module _ {ℓ} {Net Ip : Type ℓ} (net : NetPackage Net Ip) where
  open net use {parse_cidr, net_string, contains, parse_ip}

  abbrev Rule : Type ℓ
  Rule = IpFilterRule Net

  -- The manager is its rules, in order.
  abbrev pub new_ip_filter_manager : List Rule
  new_ip_filter_manager = []

  abbrev pub is_action : String → Bool
  is_action action = (action == "allow") || (action == "deny")

  unfoldable pub add_rule :
      ℕ → String → String → String → List Rule → List Rule × Option AccessError
  add_rule now cidr action description rules = elim (parse_cidr cidr) [
    | none ↦ (rules, some invalid_cidr)
    | some ip_net ↦ if not (is_action action) then (rules, some invalid_action) else (
      rules
          ++ (record {
            ip_net = ip_net;
            action = action;
            description = description;
            created_at = now;
            updated_at = now;
            expires_at = none;
            source = "manual";
          }
              ∷ []),
      none,
    )
  ]

  unfoldable pub add_temporary_rule :
      ℕ → String → String → String → ℕ → List Rule → List Rule × Option AccessError
  add_temporary_rule now cidr action description duration rules = elim (parse_cidr cidr) [
    | none ↦ (rules, some invalid_cidr)
    | some ip_net ↦ if not (is_action action) then (rules, some invalid_action) else (
      rules
          ++ (record {
            ip_net = ip_net;
            action = action;
            description = description;
            created_at = now;
            updated_at = now;
            expires_at = some (now + duration);
            source = "temporary";
          }
              ∷ []),
      none,
    )
  ]

  -- The loop of RemoveRule: the rules that stay, and whether one was found.
  unfoldable pub without_net : String → List Rule → List Rule × Bool
  without_net name [] = ([], false)
  without_net name (rule ∷ rules) =
      let (kept, found) = without_net name rules in
      if net_string rule.ip_net == name then (kept, true) else (rule ∷ kept, found)

  unfoldable pub remove_rule : String → List Rule → List Rule × Option AccessError
  remove_rule cidr rules = elim (parse_cidr cidr) [
    | none ↦ (rules, some invalid_cidr)
    | some ip_net ↦
        let (kept, found) = without_net (net_string ip_net) rules in
        if found then (kept, none) else (rules, some rule_not_found)
  ]

  -- Not yet expired at `now`.
  abbrev pub is_current : ℕ → Rule → Bool
  is_current now rule = elim rule.expires_at [ none ↦ true | some e ↦ ltb now e ]

  unfoldable pub cleanup_expired_rules : ℕ → List Rule → List Rule
  cleanup_expired_rules now [] = []
  cleanup_expired_rules now (rule ∷ rules) =
      let rest = cleanup_expired_rules now rules in
      if is_current now rule then rule ∷ rest else rest

  -- The test within the loop of CheckIP reads the clock again.
  abbrev pub has_expired : ℕ → Rule → Bool
  has_expired now rule = elim rule.expires_at [ none ↦ false | some e ↦ ltb e now ]

  unfoldable pub first_match : ℕ → Ip → List Rule → Bool × String
  first_match now ip [] = (true, "no matching rules")
  first_match now ip (rule ∷ rules) =
      let rest = first_match now ip rules in
      if contains rule.ip_net ip
      then if has_expired now rule then rest else (rule.action == "allow", rule.description)
      else rest

  -- The answer of CheckIP is the pair of its two results, or its error; it also removes the expired
  -- rules. `later` is the time at which the loop reads the clock; the source reads
  -- it again for each temporary rule that contains the address, within one call.
  unfoldable pub check_ip : ℕ → ℕ → String → List Rule → List Rule × (AccessError ⊎ (Bool × String))
  check_ip now later ip_str rules = elim (parse_ip ip_str) [
    | none ↦ (rules, inl invalid_ip)
    | some ip ↦
        let rules' = cleanup_expired_rules now rules in (rules', inr (first_match later ip rules'))
  ]

  -- The rules that are left and the copy that is returned.
  abbrev pub list_rules : ℕ → List Rule → List Rule × List Rule
  list_rules now rules = let rules' = cleanup_expired_rules now rules in (rules', rules')

  abbrev pub clear_expired_rules : ℕ → List Rule → List Rule
  clear_expired_rules now rules = cleanup_expired_rules now rules

  unfoldable pub add_rules :
      ℕ → String → String → List String → List Rule → List Rule × Option AccessError
  add_rules now action description [] rules = (rules, none)
  add_rules now action description (cidr ∷ cidrs) rules =
      let (rules', e) = add_rule now cidr action description rules in
      elim e [
        | none ↦ add_rules now action description cidrs rules'
        | some error ↦ (rules', some error)
      ]

  abbrev private_networks : List String
  private_networks = "10.0.0.0/8" ∷ "172.16.0.0/12" ∷ "192.168.0.0/16" ∷ "127.0.0.0/8" ∷ []

  abbrev malicious_networks : List String
  malicious_networks = "1.2.3.0/24" ∷ "5.6.7.0/24" ∷ "9.10.11.0/24" ∷ []

  unfoldable pub add_common_security_rules : ℕ → List Rule → List Rule × Option AccessError
  add_common_security_rules now rules =
      let (rules', e) = add_rules now "allow" "Private network range" private_networks rules in
      elim e [
        | none ↦ add_rules now "deny" "Known malicious network" malicious_networks rules'
        | some error ↦ (rules', some error)
      ]

  unfoldable pub add_rate_limit_rule : ℕ → String → ℕ → List Rule → List Rule × Option AccessError
  add_rate_limit_rule now ip_str duration rules = elim (parse_ip ip_str) [
    | none ↦ (rules, some invalid_ip)
    | some ip ↦
        add_temporary_rule now (concat ip_str "/32") "deny" "Rate limit exceeded" duration rules
  ]

  abbrev blocked : List Rule × Option AccessError → List Rule × (AccessError ⊎ Bool)
  blocked (rules, none) = (rules, inr false)
  blocked (rules, some error) = (rules, inl error)

  unfoldable pub check_and_update_rate_limit :
      ℕ → ℕ → String → ℕ → ℕ → List Rule → List Rule × (AccessError ⊎ Bool)
  check_and_update_rate_limit now later ip_str max_attempts attempt rules =
      let (rules', answer) = check_ip now later ip_str rules in
      elim answer [
        | inl e ↦ (rules', inl e)
        | inr (false, description) ↦ (rules', inr false)
        | inr (true, description) ↦
            if leb max_attempts attempt
            then blocked (add_rate_limit_rule later ip_str (15 * minute) rules')
            else (rules', inr true)
      ]
