-- ===== src/Config.antt =====
-- internal/config/types/types.go and internal/config/validator/validator.go: the configuration, of
-- which the records keep the fields that the validator reads, and the helpers that its checks share.
-- An error is the part of the configuration that it names. The zero Time is 0.
pub mod Versions
pub mod Validator
pub mod History
pub mod Accepted
mod Examples
use sssonector.Prelude.{
  Bool, Bool-cases, Float64, List, Option, String, [], arith, eq_iff, false, inl, inr, member, none,
  refl, some, string_eq, sym, true, ℕ, ℤ, ◌==◌, ◌∷◌, ◌≡◌, ◌⊎◌,
}

pub record TlsConfigOptions : Type 0 where
  pub min_version : String
  pub max_version : String
  pub ciphers : List String

pub record CertRotation : Type 0 where
  pub enabled : Bool
  pub interval : ℤ

pub record AuthConfig : Type 0 where
  pub cert_file : String
  pub key_file : String
  pub ca_file : String
  pub cert_rotation : CertRotation

pub record NetworkConfig : Type 0 where
  pub interface : String
  pub mtu : ℤ
  pub address : String
  pub dns_servers : List String

pub record TunnelConfig : Type 0 where
  pub port : ℤ
  pub protocol : String

pub record MonitorConfig : Type 0 where
  pub enabled : Bool
  pub monitor_type : String
  pub interval : ℤ

pub record MetricsConfig : Type 0 where
  pub enabled : Bool
  pub address : String
  pub interval : ℤ
  pub buffer_size : ℤ

pub record ThrottleConfig (F : Float64) : Type 0 where
  pub enabled : Bool
  pub rate : F.Float
  pub burst : ℤ

pub record MigrationRecord : Type 0 where
  pub from_version : String
  pub to_version : String
  pub timestamp : ℕ
  pub status : String

pub record ConfigMetadata : Type 0 where
  pub environment : String
  pub schema_version : String
  pub migration_history : List MigrationRecord

-- `tls` is Security.TLS and `log_level` is Logging.Level.
pub record Config : Type 0 where
  pub mode : String
  pub log_level : String
  pub auth : AuthConfig
  pub network : NetworkConfig
  pub tunnel : TunnelConfig
  pub tls : TlsConfigOptions
  pub monitor : MonitorConfig
  pub metrics : MetricsConfig

pub record AppConfig (F : Float64) : Type 0 where
  pub config : Option Config
  pub metadata : ConfigMetadata
  pub throttle : ThrottleConfig F

-- Of the packages strings, strconv and net. `atoi` is `none` for an error, `is_ip` says that ParseIP
-- is not nil.
pub record GoText : Type 0 where
  pub contains : String → String → Bool
  pub has_prefix : String → String → Bool
  pub has_suffix : String → String → Bool
  pub to_lower : String → String
  pub split : String → String → List String
  pub atoi : String → Option ℤ
  pub is_ip : String → Bool

pub data Invalid : Type 0 where
  nil_config version migration_history migration_path security_config certificate_files
        throttle_config environment_config mode_name logging network tunnel security monitor metrics
        throttle :
      Invalid

-- What a check answers: `none` for nil.
abbrev pub Check : Type 0
Check = Option Invalid

-- `if bad { return error }`, and one check after the other.
abbrev pub refuse : Bool → Invalid → Check
refuse true e = some e
refuse false e = none

infixr 40 ◌then◌
abbrev pub ◌then◌ : Check → Check → Check
none then next = next
(some e) then next = some e

pub then-none : (a b : Check) → a then b ≡ none → (a ≡ none) × (b ≡ none)
then-none none b h = (refl, h)
then-none (some e) b h = ground arith

pub refuse-none : (bad : Bool) (e : Invalid) → refuse bad e ≡ none → bad ≡ false
refuse-none true e h = ground arith
refuse-none false e h = refl

-- A member of a list of names is one of them.
abbrev pub OneOf : String → List String → Type 0
OneOf s [] = ⊥
OneOf s (t ∷ ts) = (s ≡ t) ⊎ OneOf s ts

pub member-OneOf : (s : String) (ts : List String) → member s ts ≡ true → OneOf s ts
member-OneOf s [] h = ground arith
member-OneOf s (t ∷ ts) h = elim (Bool-cases (t == s)) [
  | inl same ↦ inl (sym ((eq_iff t s).0 same))
  | inr other ↦ inr (member-OneOf s ts (ground (arith, h, other)))
]
