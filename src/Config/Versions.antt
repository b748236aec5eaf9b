-- ===== src/Config/Versions.antt =====
-- validator.go: schema versions and the history of migrations.
use sssonector.Prelude.{
  Bool, List, Option, String, [], concat, eqb, false, if◌then◌else◌, leb, length, lookup, lt_string,
  ltb, ltb_ℤ, none, not, pos, some, string_eq, true, ℕ, ◌&&◌, ◌+◌, ◌==◌, ◌||◌, ◌∷◌,
}
use sssonector.Config.{
  Check, Config, ConfigMetadata, GoText, MigrationRecord, member, migration_history, migration_path,
  refuse, version, ◌then◌,
}

-- A value of the map of supported versions, without `deprecated`, which is false in all of them.
pub record VersionInfo : Type 0 where
  pub major : ℕ
  pub minor : ℕ
  pub patch : ℕ
  pub breaking_changes : Bool

abbrev pub supported_versions : List (String × VersionInfo)
supported_versions =
    ("1.0.0", record { major = 1; minor = 0; patch = 0; breaking_changes = false })
    ∷ ("1.1.0", record { major = 1; minor = 1; patch = 0; breaking_changes = false })
    ∷ ("2.0.0", record { major = 2; minor = 0; patch = 0; breaking_changes = true })
    ∷ []

-- The loop over the parts; `i` is the position.
unfoldable pub validate_parts : GoText → ℕ → List String → Check
validate_parts go i [] = none
validate_parts go i (part ∷ parts) =
    let rest = validate_parts go (i + 1) parts in
    elim (go.atoi part) [
      | none ↦ some version
      | some num ↦
          refuse (ltb_ℤ num (pos 0)) version
          then refuse (eqb i 0 && ltb_ℤ (pos 99) num) version
          then rest
    ]

unfoldable pub validate_semantic_version : GoText → String → Check
validate_semantic_version go v =
    let parts = go.split v "." in
    refuse (not (eqb (length parts) 3)) version then validate_parts go 0 parts

abbrev pub is_production : ConfigMetadata → Bool
is_production m = m.environment == "production"

unfoldable pub validate_version_compatibility : Config → ConfigMetadata → VersionInfo → Check
validate_version_compatibility c m info =
    refuse (leb 2 info.major && (c.tls.min_version == "")) version
    then refuse
        (leb 2 info.major
          && info.breaking_changes
          && is_production m
          && lt_string c.tls.min_version "1.2")
        version
    then refuse
        (leb 1 info.major
          && leb 1 info.minor
          && c.metrics.enabled
          && (c.monitor.monitor_type == ""))
        version
    then refuse (eqb info.major 1 && eqb info.minor 0 && eqb info.patch 0 && (m.environment == ""))
        version

unfoldable pub validate_version : GoText → Config → ConfigMetadata → Check
validate_version go c m =
    refuse (m.schema_version == "") version
    then validate_semantic_version go m.schema_version
    then elim (lookup m.schema_version supported_versions) [
      | none ↦ some version
      | some info ↦ validate_version_compatibility c m info
    ]

abbrev pub valid_statuses : List String
valid_statuses = "completed" ∷ "failed" ∷ "pending" ∷ "rolledback" ∷ []

unfoldable pub validate_migration_history : List MigrationRecord → Check
validate_migration_history [] = none
validate_migration_history (r ∷ rest) =
    refuse (r.from_version == "") migration_history
    then refuse (r.to_version == "") migration_history
    then refuse (r.status == "") migration_history
    then refuse (not (member r.status valid_statuses)) migration_history
    then refuse (eqb r.timestamp 0) migration_history
    then validate_migration_history rest

-- The map from a version to those that it may migrate to.
abbrev pub valid_migrations : List (String × List String)
valid_migrations = ("1.0.0", "1.1.0" ∷ "2.0.0" ∷ []) ∷ ("1.1.0", "2.0.0" ∷ []) ∷ ("2.0.0", []) ∷ []

unfoldable pub is_valid_migration_path : String → String → Bool
is_valid_migration_path from to = elim (lookup from valid_migrations) [
  | none ↦ false
  | some targets ↦ member to targets
]

unfoldable pub validate_version_two_migration : Config → ConfigMetadata → Check
validate_version_two_migration c m =
    refuse (c.tls.min_version == "") migration_path
    then refuse (is_production m && lt_string c.tls.min_version "1.2") migration_path

-- What the body of the loop asks of the record before, if there is one.
unfoldable pub starts_well : Option MigrationRecord → MigrationRecord → Bool
starts_well none r = (r.from_version == "0.0.0") || (r.from_version == "1.0.0")
starts_well (some before) r = r.from_version == before.to_version

unfoldable pub is_chronological : Option MigrationRecord → MigrationRecord → Bool
is_chronological none r = true
is_chronological (some before) r = not (ltb r.timestamp before.timestamp)

unfoldable pub ends_well : String → MigrationRecord → List MigrationRecord → Bool
ends_well schema r [] = r.to_version == schema
ends_well schema r (next ∷ rest) = true

-- The loop over the records, with the one before.
unfoldable pub validate_records :
    Config → ConfigMetadata → Option MigrationRecord → List MigrationRecord → Check
validate_records c m before [] = none
validate_records c m before (r ∷ rest) =
    refuse (not (is_valid_migration_path r.from_version r.to_version)) migration_path
    then refuse (not (is_chronological before r)) migration_path
    then refuse (not (ends_well m.schema_version r rest)) migration_path
    then refuse (not (starts_well before r)) migration_path
    then (if r.to_version == "2.0.0" then validate_version_two_migration c m else none)
    then validate_records c m (some r) rest

abbrev pub path_of : MigrationRecord → String
path_of r = concat (concat r.from_version "->") r.to_version

-- `seen` is the map of the paths that the loop has been through.
unfoldable pub has_duplicate : List String → List MigrationRecord → Bool
has_duplicate seen [] = false
has_duplicate seen (r ∷ rest) = member (path_of r) seen || has_duplicate (path_of r ∷ seen) rest

unfoldable pub has_completed : List MigrationRecord → Bool
has_completed [] = false
has_completed (r ∷ rest) = (r.status == "completed") || has_completed rest

-- A failed migration with a completed one after it.
unfoldable pub has_completed_after_failed : List MigrationRecord → Bool
has_completed_after_failed [] = false
has_completed_after_failed (r ∷ rest) =
    ((r.status == "failed") && has_completed rest) || has_completed_after_failed rest

unfoldable pub validate_migration_sequence : List MigrationRecord → Check
validate_migration_sequence history =
    refuse (has_duplicate [] history) migration_path
    then refuse (has_completed_after_failed history) migration_path

-- With no history both of the source's checks pass, as they do where it returns at once.
unfoldable pub validate_migration : Config → ConfigMetadata → Check
validate_migration c m =
    validate_records c m none m.migration_history
    then validate_migration_sequence m.migration_history
