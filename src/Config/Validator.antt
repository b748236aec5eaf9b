-- ===== src/Config/Validator.antt =====
-- validator.go: the checks of the parts, and Validate, which makes them in order. The tests that
-- read a time in seconds compare it in nanoseconds.
use sssonector.Prelude.{
  Bool, Float64, List, Option, String, [], if◌then◌else◌, lt_string, ltb_ℤ, negsuc, none, not, pos,
  some, string_eq, ℤ, ◌&&◌, ◌==◌, ◌||◌, ◌∷◌,
}
use sssonector.Config.{
  AppConfig, Check, Config, ConfigMetadata, GoText, MetricsConfig, MonitorConfig, NetworkConfig,
  ThrottleConfig, TlsConfigOptions, TunnelConfig, certificate_files, environment_config, logging,
  member, metrics, mode_name, monitor, network, nil_config, refuse, security, security_config,
  throttle, throttle_config, tunnel, ◌then◌,
}
use sssonector.Config.Versions.{
  is_production, validate_migration, validate_migration_history, validate_version,
}

abbrev pub valid_ciphers : List String
valid_ciphers =
    "TLS_ECDHE_RSA_WITH_AES_128_GCM_SHA256" ∷ "TLS_ECDHE_RSA_WITH_AES_256_GCM_SHA384"
    ∷ "TLS_ECDHE_ECDSA_WITH_AES_128_GCM_SHA256" ∷ "TLS_ECDHE_ECDSA_WITH_AES_256_GCM_SHA384" ∷ []

unfoldable pub validate_ciphers : List String → Check
validate_ciphers [] = none
validate_ciphers (cipher ∷ rest) =
    refuse (not (member cipher valid_ciphers)) security_config then validate_ciphers rest

abbrev pub climbs : GoText → String → Bool
climbs go path = not (path == "") && go.contains path ".."

unfoldable pub validate_security_config : GoText → Config → Check
validate_security_config go c =
    refuse (climbs go c.auth.cert_file) security_config
    then refuse (climbs go c.auth.key_file) security_config
    then refuse (climbs go c.auth.ca_file) security_config
    then refuse
        (c.auth.cert_rotation.enabled && ltb_ℤ c.auth.cert_rotation.interval (pos 3600000000000))
        security_config
    then refuse (lt_string c.tls.max_version c.tls.min_version) security_config
    then validate_ciphers c.tls.ciphers

-- The three tests of a path: `extension` is the one that its kind of file has besides ".pem".
unfoldable pub validate_file : GoText → String → String → Check
validate_file go extension path =
    if path == ""
    then none
    else (refuse (go.has_prefix path "..") certificate_files
        then refuse (go.contains path "//") certificate_files
        then refuse (not (go.has_suffix path extension) && not (go.has_suffix path ".pem"))
            certificate_files)

unfoldable pub validate_certificate_files : GoText → Config → Check
validate_certificate_files go c =
    validate_file go ".crt" c.auth.cert_file
    then validate_file go ".key" c.auth.key_file
    then validate_file go ".crt" c.auth.ca_file

abbrev pub positive : ℤ → Bool
positive n = ltb_ℤ (pos 0) n

-- float64 of an int that is not negative.
abbrev pub float_of : (F : Float64) → ℤ → F.Float
float_of F (pos n) = F.of_nat n
float_of F (negsuc n) = F.of_nat 0

unfoldable pub validate_throttle_config : (F : Float64) → ThrottleConfig F → Check
validate_throttle_config F t =
    if not t.enabled
    then none
    else (refuse
          (F.lt (F.of_nat 0) t.rate
            && positive t.burst
            && F.lt (F.of_nat 10) (F.div (float_of F t.burst) t.rate))
          throttle_config
        then refuse (F.lt t.rate (F.of_nat 1024)) throttle_config
        then refuse (F.lt (F.of_nat 1073741824) t.rate) throttle_config)

abbrev pub valid_environments : List String
valid_environments = "development" ∷ "staging" ∷ "production" ∷ "test" ∷ []

unfoldable pub validate_environment_config : Config → ConfigMetadata → Check
validate_environment_config c m =
    refuse (not (member m.environment valid_environments)) environment_config
    then refuse (is_production m && not (c.tls.min_version == "1.3")) environment_config
    then refuse (is_production m && (c.tls.min_version == "") && (c.tls.max_version == ""))
        environment_config

unfoldable pub validate_mode : String → Check
validate_mode mode = refuse (not (member mode ("server" ∷ "client" ∷ []))) mode_name

abbrev pub valid_levels : List String
valid_levels = "debug" ∷ "info" ∷ "warn" ∷ "error" ∷ "fatal" ∷ []

unfoldable pub validate_logging : GoText → String → Check
validate_logging go level =
    refuse (level == "") logging then refuse (not (member (go.to_lower level) valid_levels)) logging

unfoldable pub validate_dns : GoText → List String → Check
validate_dns go [] = none
validate_dns go (dns ∷ rest) = refuse (not (go.is_ip dns)) network then validate_dns go rest

unfoldable pub validate_network : GoText → NetworkConfig → Check
validate_network go n =
    refuse (n.interface == "") network
    then refuse (ltb_ℤ n.mtu (pos 576) || ltb_ℤ (pos 65535) n.mtu) network
    then refuse (not (n.address == "") && not (go.is_ip n.address)) network
    then validate_dns go n.dns_servers

unfoldable pub validate_tunnel : GoText → TunnelConfig → Check
validate_tunnel go t =
    refuse (ltb_ℤ t.port (pos 1) || ltb_ℤ (pos 65535) t.port) tunnel
    then refuse (not (member (go.to_lower t.protocol) ("tcp" ∷ "udp" ∷ "quic" ∷ []))) tunnel

abbrev pub valid_versions : List String
valid_versions = "1.2" ∷ "1.3" ∷ []

unfoldable pub validate_security : TlsConfigOptions → Check
validate_security tls =
    refuse (tls.min_version == "") security
    then refuse (tls.max_version == "") security
    then refuse (not (member tls.min_version valid_versions)) security
    then refuse (not (member tls.max_version valid_versions)) security

unfoldable pub validate_monitor : GoText → MonitorConfig → Check
validate_monitor go m =
    if not m.enabled
    then none
    else (refuse (m.monitor_type == "") monitor
        then refuse (not (member (go.to_lower m.monitor_type) ("prometheus" ∷ "snmp" ∷ []))) monitor
        then refuse (ltb_ℤ m.interval (pos 1000000000)) monitor)

unfoldable pub validate_metrics : MetricsConfig → Check
validate_metrics m =
    if not m.enabled
    then none
    else (refuse (m.address == "") metrics
        then refuse (ltb_ℤ m.interval (pos 1000000000)) metrics
        then refuse (ltb_ℤ m.buffer_size (pos 1)) metrics)

unfoldable pub validate_throttle : (F : Float64) → ThrottleConfig F → Check
validate_throttle F t =
    if not t.enabled
    then none
    else (refuse (F.le t.rate (F.of_nat 0)) throttle then refuse (not (positive t.burst)) throttle)

-- Validate once the pointers are not nil.
unfoldable pub validate_all :
    (F : Float64) → GoText → Config → ConfigMetadata → ThrottleConfig F → Check
validate_all F go c m t =
    validate_version go c m
    then validate_migration_history m.migration_history
    then validate_migration c m
    then validate_security_config go c
    then validate_certificate_files go c
    then validate_throttle_config F t
    then validate_environment_config c m
    then validate_mode c.mode
    then validate_logging go c.log_level
    then validate_network go c.network
    then validate_tunnel go c.tunnel
    then validate_security c.tls
    then validate_monitor go c.monitor
    then validate_metrics c.metrics
    then validate_throttle F t

unfoldable pub validate : (F : Float64) → GoText → Option (AppConfig F) → Check
validate F go none = some nil_config
validate F go (some app) = elim app.config [
  | none ↦ some nil_config
  | some c ↦ validate_all F go c app.metadata app.throttle
]
