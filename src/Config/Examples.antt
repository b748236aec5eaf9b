-- ===== src/Config/Examples.antt =====
-- A configuration for production, and the theorems at concrete inputs.
use sssonector.Prelude.{
  Float64, Option, String, [], false, if◌then◌else◌, leb, lookup, ltb, none, pos, refl, some,
  string_eq, true, ℕ, ℤ, ◌&&◌, ◌/◌, ◌==◌, ◌∷◌, ◌≡◌,
}
use sssonector.Config.{
  AppConfig, Config, ConfigMetadata, GoText, MigrationRecord, migration_path, ◌then◌,
}
use sssonector.Config.Versions.{
  ends_well, has_completed, has_completed_after_failed, has_duplicate, is_chronological,
  is_valid_migration_path, starts_well, validate_migration, validate_migration_history,
  validate_migration_sequence, validate_parts, validate_records, validate_semantic_version,
  validate_version, validate_version_compatibility, validate_version_two_migration,
}
use sssonector.Config.Validator.{
  validate, validate_all, validate_certificate_files, validate_ciphers, validate_dns,
  validate_environment_config, validate_file, validate_logging, validate_metrics, validate_mode,
  validate_monitor, validate_network, validate_security, validate_security_config,
  validate_throttle, validate_throttle_config, validate_tunnel,
}
use sssonector.Config.History.{Upgrades, validate_migration-Upgrades}
use sssonector.Config.Accepted.{IsAccepted, validate-IsAccepted}

abbrev whole : Float64
whole = record { Float = ℕ; of_nat = λ n. n; div = λ a b. a / b; lt = ltb; le = leb }

abbrev digit : String → Option ℤ
digit s = if s == "2" then some (pos 2) else if s == "0" then some (pos 0) else none

abbrev toy : GoText
toy = record {
  contains = λ s t. false;
  has_prefix = λ s t. false;
  has_suffix = λ s t. (s == "server.crt") && (t == ".crt");
  to_lower = λ s. s;
  split = λ s t. if s == "2.0.0" then "2" ∷ "0" ∷ "0" ∷ [] else s ∷ [];
  atoi = digit;
  is_ip = λ s. s == "10.0.0.1";
}

abbrev record_of : String → String → ℕ → MigrationRecord
record_of from to time = record {
  from_version = from;
  to_version = to;
  timestamp = time;
  status = "completed";
}

abbrev production : ConfigMetadata
production = record {
  environment = "production";
  schema_version = "2.0.0";
  migration_history = record_of "1.0.0" "1.1.0" 5 ∷ record_of "1.1.0" "2.0.0" 9 ∷ [];
}

abbrev server : Config
server = record {
  mode = "server";
  log_level = "info";
  auth = record {
    cert_file = "server.crt";
    key_file = "";
    ca_file = "";
    cert_rotation = record { enabled = false; interval = pos 0 };
  };
  network = record { interface = "tun0"; mtu = pos 1500; address = "10.0.0.1"; dns_servers = [] };
  tunnel = record { port = pos 8443; protocol = "tcp" };
  tls = record { min_version = "1.3"; max_version = "1.3"; ciphers = [] };
  monitor = record { enabled = false; monitor_type = "snmp"; interval = pos 0 };
  metrics = record { enabled = false; address = ""; interval = pos 0; buffer_size = pos 0 };
}

abbrev app : AppConfig whole
app = record {
  config = some server;
  metadata = production;
  throttle = record { enabled = true; rate = 10240; burst = pos 20480 };
}

server_accepted : validate whole toy (some app) ≡ none
unfolding validate validate_all validate_version validate_semantic_version validate_parts lookup
    validate_version_compatibility validate_migration_history validate_migration validate_records
    is_valid_migration_path is_chronological ends_well starts_well validate_version_two_migration
    validate_migration_sequence has_duplicate has_completed has_completed_after_failed
    validate_security_config validate_ciphers validate_certificate_files validate_file
    validate_throttle_config validate_environment_config validate_mode validate_logging
    validate_network validate_dns validate_tunnel validate_security validate_monitor
    validate_metrics validate_throttle
server_accepted = refl

fresh_install_refused :
    validate_migration server
      (record production { migration_history = record_of "0.0.0" "2.0.0" 5 ∷ [] })
    ≡ some migration_path
unfolding validate_migration validate_records is_valid_migration_path lookup
fresh_install_refused = refl

validate-IsAccepted_example :
    (a : AppConfig whole) × (c : Config) × (some app ≡ some a)
    × (a.config ≡ some c)
    × IsAccepted c a.metadata
validate-IsAccepted_example = validate-IsAccepted whole toy (some app) server_accepted

validate_migration-Upgrades_example : Upgrades "2.0.0" production.migration_history
unfolding validate_migration validate_records is_valid_migration_path lookup is_chronological
    ends_well starts_well validate_version_two_migration validate_migration_sequence has_duplicate
    has_completed has_completed_after_failed
validate_migration-Upgrades_example = validate_migration-Upgrades server production refl
