-- ===== src/Config/Accepted.antt =====
-- What an accepted configuration is known to satisfy.
use sssonector.Config.Versions.{validate_version}
use sssonector.Prelude.{
  All, Bool-cases, Float64, List, Option, Option-cases, String, [], arith, eq_iff, false, inl, inr,
  lookup, lt_string, ltb_ℤ, negsuc, none, not, pos, refl, some, string_eq, sym, ℕ, ℤ, ◌==◌, ◌||◌,
  ◌∷◌, ◌≡◌, ◌≤◌,
}
use sssonector.Config.{
  AppConfig, Config, ConfigMetadata, GoText, Invalid, NetworkConfig, OneOf, ThrottleConfig,
  TlsConfigOptions, TunnelConfig, environment_config, member, member-OneOf, mode_name, network,
  refuse, security, security_config, then-none, tunnel,
}
use sssonector.Config.Validator.{
  valid_ciphers, valid_environments, valid_versions, validate, validate_all, validate_ciphers,
  validate_environment_config, validate_mode, validate_network, validate_security,
  validate_security_config, validate_tunnel,
}
use sssonector.Config.History.{Upgrades, validate_migration-Upgrades}

-- The number is one from the first to the second.
abbrev pub Within : ℕ → ℕ → ℤ → Type 0
Within low high z = (n : ℕ) × (z ≡ pos n) × (low ≤ n) × (n ≤ high)

pub record IsAccepted (c : Config) (m : ConfigMetadata) : Type 0 where
  pub schema : OneOf m.schema_version ("1.0.0" ∷ "1.1.0" ∷ "2.0.0" ∷ [])
  pub upgrades : Upgrades m.schema_version m.migration_history
  pub known_environment : OneOf m.environment valid_environments
  pub production_tls :
      m.environment ≡ "production" → (c.tls.min_version ≡ "1.3") × (c.tls.max_version ≡ "1.3")
  pub known_mode : OneOf c.mode ("server" ∷ "client" ∷ [])
  pub min_tls : OneOf c.tls.min_version valid_versions
  pub max_tls : OneOf c.tls.max_version valid_versions
  pub ordered_tls : c.tls.min_version ≡ "1.3" → c.tls.max_version ≡ "1.3"
  pub strong_ciphers : All (λ cipher. OneOf cipher valid_ciphers) c.tls.ciphers
  pub usable_mtu : Within 576 65535 c.network.mtu
  pub usable_port : Within 1 65535 c.tunnel.port

between :
    (low high : ℕ) (z : ℤ) (e : Invalid)
    → refuse (ltb_ℤ z (pos low) || ltb_ℤ (pos high) z) e ≡ none
    → Within low high z
between low high (pos n) e h = (n, refl, ground (arith, h), ground (arith, h))
between low high (negsuc n) e h = absurd (ground (arith, h))

known :
    (s : String) (names : List String) (e : Invalid)
    → refuse (not (member s names)) e ≡ none
    → OneOf s names
known s names e h = member-OneOf s names (ground (arith, h))

network-Within :
    (go : GoText) (n : NetworkConfig) → validate_network go n ≡ none → Within 576 65535 n.mtu
unfolding validate_network
network-Within go n h =
    let rest = (then-none (refuse (n.interface == "") network) _ h).1 in
    between 576 65535 n.mtu network (then-none _ _ rest).0

tunnel-Within :
    (go : GoText) (t : TunnelConfig) → validate_tunnel go t ≡ none → Within 1 65535 t.port
unfolding validate_tunnel
tunnel-Within go t h = between 1 65535 t.port tunnel (then-none _ _ h).0

security-OneOf :
    (tls : TlsConfigOptions)
    → validate_security tls ≡ none
    → OneOf tls.min_version valid_versions × OneOf tls.max_version valid_versions
unfolding validate_security
security-OneOf tls h =
    let rest = (then-none _ _ (then-none _ _ h).1).1 in
    (
      known tls.min_version valid_versions security (then-none _ _ rest).0,
      known tls.max_version valid_versions security (then-none _ _ rest).1,
    )

version-OneOf :
    (go : GoText) (c : Config) (m : ConfigMetadata)
    → validate_version go c m ≡ none
    → OneOf m.schema_version ("1.0.0" ∷ "1.1.0" ∷ "2.0.0" ∷ [])
unfolding validate_version lookup
version-OneOf go c m h = elim (Bool-cases ("1.0.0" == m.schema_version)) [
  | inl e ↦ inl (sym ((eq_iff "1.0.0" m.schema_version).0 e))
  | inr d ↦ elim (Bool-cases ("1.1.0" == m.schema_version)) [
    | inl e ↦ inr (inl (sym ((eq_iff "1.1.0" m.schema_version).0 e)))
    | inr d' ↦ elim (Bool-cases ("2.0.0" == m.schema_version)) [
      | inl e ↦ inr (inr (inl (sym ((eq_iff "2.0.0" m.schema_version).0 e))))
      | inr d'' ↦ absurd (ground (arith, h, d, d', d''))
    ]
  ]
]

mode-OneOf : (mode : String) → validate_mode mode ≡ none → OneOf mode ("server" ∷ "client" ∷ [])
unfolding validate_mode
mode-OneOf mode h = known mode ("server" ∷ "client" ∷ []) mode_name h

ciphers-OneOf :
    (ciphers : List String)
    → validate_ciphers ciphers ≡ none
    → All (λ cipher. OneOf cipher valid_ciphers) ciphers
unfolding validate_ciphers
ciphers-OneOf [] h = tt
ciphers-OneOf (cipher ∷ rest) h =
    let (a, b) = then-none _ _ h in
    (known cipher valid_ciphers security_config a, ciphers-OneOf rest b)

security_config_good :
    (go : GoText) (c : Config)
    → validate_security_config go c ≡ none
    → (lt_string c.tls.max_version c.tls.min_version ≡ false)
      × All (λ cipher. OneOf cipher valid_ciphers) c.tls.ciphers
unfolding validate_security_config
security_config_good go c h = (ground (arith, h), ciphers-OneOf c.tls.ciphers (ground (arith, h)))

tls_ordered :
    (tls : TlsConfigOptions)
    → lt_string tls.max_version tls.min_version ≡ false
    → OneOf tls.max_version valid_versions
    → tls.min_version ≡ "1.3"
    → tls.max_version ≡ "1.3"
tls_ordered tls ordered (inr (inl p)) e = p
tls_ordered tls ordered (inr (inr x)) e = elim x [ ]
tls_ordered tls ordered (inl p) e =
    let wrong : lt_string "1.2" "1.3" ≡ false = rw (p, e) at ordered in
    absurd (ground (arith, wrong))

environment_good :
    (c : Config) (m : ConfigMetadata)
    → validate_environment_config c m ≡ none
    → OneOf m.environment valid_environments
      × (m.environment ≡ "production" → c.tls.min_version ≡ "1.3")
unfolding validate_environment_config
environment_good c m h = (
  known m.environment valid_environments environment_config (then-none _ _ h).0,
  λ p.
      (eq_iff c.tls.min_version "1.3").0
        (ground (arith, h, (eq_iff m.environment "production").1 p)),
)

all-IsAccepted :
    (F : Float64) (go : GoText) (c : Config) (m : ConfigMetadata) (t : ThrottleConfig F)
    → validate_all F go c m t ≡ none
    → IsAccepted c m
unfolding validate_all
all-IsAccepted F go c m t h =
    let (ordered, ciphers) = security_config_good go c (ground (arith, h)) in
    let (environment, strict) = environment_good c m (ground (arith, h)) in
    let (low, high) = security-OneOf c.tls (ground (arith, h)) in
    record {
      schema = version-OneOf go c m (ground (arith, h));
      upgrades = validate_migration-Upgrades c m (ground (arith, h));
      known_environment = environment;
      production_tls = λ p. (strict p, tls_ordered c.tls ordered high (strict p));
      known_mode = mode-OneOf c.mode (ground (arith, h));
      min_tls = low;
      max_tls = high;
      ordered_tls = tls_ordered c.tls ordered high;
      strong_ciphers = ciphers;
      usable_mtu = network-Within go c.network (ground (arith, h));
      usable_port = tunnel-Within go c.tunnel (ground (arith, h));
    }

-- A configuration that Validate accepts is there, and: its schema version is one of the three that
-- are supported; its history of migrations is empty, or one record from 1.0.0 to the schema version,
-- or the two from 1.0.0 over 1.1.0 to 2.0.0; its environment and its mode are known; both TLS
-- versions are 1.2 or 1.3, the maximum is 1.3 where the minimum is, and both are 1.3 in production;
-- every cipher is one of the four; the MTU is from 576 to 65535 and the port from 1 to 65535.
pub validate-IsAccepted :
    (F : Float64) (go : GoText) (app : Option (AppConfig F))
    → validate F go app ≡ none
    → (a : AppConfig F) × (c : Config) × (app ≡ some a)
      × (a.config ≡ some c)
      × IsAccepted c a.metadata
unfolding validate
validate-IsAccepted F go none h = absurd (ground (arith, h))
validate-IsAccepted F go (some a) h = elim (Option-cases a.config) [
  | inl nil ↦ absurd (ground (arith, h, nil))
  | inr (c, there) ↦
      (a, c, refl, there, all-IsAccepted F go c a.metadata a.throttle (ground (arith, h, there)))
]
