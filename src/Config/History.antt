-- ===== src/Config/History.antt =====
-- Which histories of migrations are accepted.
use sssonector.Prelude.{
  List, Option, String, [], arith, eq_iff, false, inl, inr, lookup, none, refl, some, string_eq,
  sym, true, ◌==◌, ◌∙◌, ◌∷◌, ◌≡◌, ◌≢◌, ◌⊎◌,
}
use sssonector.Config.{Config, ConfigMetadata, MigrationRecord, then-none}
use sssonector.Config.Versions.{
  ends_well, is_valid_migration_path, starts_well, validate_migration, validate_migration_sequence,
  validate_records,
}

-- The record goes from the one version to the other.
abbrev pub Goes : MigrationRecord → String → String → Type 0
Goes r from to = (r.from_version ≡ from) × (r.to_version ≡ to)

path_cases :
    (r : MigrationRecord)
    → is_valid_migration_path r.from_version r.to_version ≡ true
    → Goes r "1.0.0" "1.1.0" ⊎ Goes r "1.0.0" "2.0.0" ⊎ Goes r "1.1.0" "2.0.0"
unfolding is_valid_migration_path lookup
path_cases r h = grind (
  arith,
  eq_iff "1.0.0" r.from_version,
  eq_iff "1.1.0" r.from_version,
  eq_iff "2.0.0" r.from_version,
  eq_iff "1.1.0" r.to_version,
  eq_iff "2.0.0" r.to_version,
  h,
)

record_good :
    (c : Config) (m : ConfigMetadata) (before : Option MigrationRecord) (r : MigrationRecord)
    (rest : List MigrationRecord)
    → validate_records c m before (r ∷ rest) ≡ none
    → (is_valid_migration_path r.from_version r.to_version ≡ true)
      × (ends_well m.schema_version r rest ≡ true)
      × (starts_well before r ≡ true)
      × (validate_records c m (some r) rest ≡ none)
unfolding validate_records
record_good c m before r rest h = ground (arith, h)

-- The histories that can be accepted, with the schema version that each ends in.
pub data Upgrades (v : String) : List MigrationRecord → Type 0 where
  fresh : Upgrades v []
  direct : (r : MigrationRecord) → Goes r "1.0.0" v → Upgrades v (r ∷ [])
  stepwise :
      (r s : MigrationRecord)
      → Goes r "1.0.0" "1.1.0"
      → Goes s "1.1.0" v
      → v ≡ "2.0.0"
      → Upgrades v (r ∷ s ∷ [])

not_both : (s a b : String) → (a == b) ≡ false → s ≡ a → s ≢ b
not_both s a b differ p q = absurd (ground (arith, differ, (eq_iff a b).1 (sym p ∙ q)))

ends_nowhere :
    (c : Config) (m : ConfigMetadata) (before : MigrationRecord) (rest : List MigrationRecord)
    → before.to_version ≡ "2.0.0"
    → validate_records c m (some before) rest ≡ none
    → rest ≡ []
unfolding starts_well
ends_nowhere c m before [] e h = refl
ends_nowhere c m before (r ∷ rest) e h =
    let (path, ends, starts, more) = record_good c m (some before) r rest h in
    let from : r.from_version ≡ "2.0.0" = (eq_iff r.from_version before.to_version).0 starts ∙ e in
    elim (path_cases r path) [
      | inl g ↦ absurd (not_both r.from_version "1.0.0" "2.0.0" refl g.0 from)
      | inr (inl g) ↦ absurd (not_both r.from_version "1.0.0" "2.0.0" refl g.0 from)
      | inr (inr g) ↦ absurd (not_both r.from_version "1.1.0" "2.0.0" refl g.0 from)
    ]

second_record :
    (c : Config) (m : ConfigMetadata) (r s : MigrationRecord) (rest : List MigrationRecord)
    → Goes r "1.0.0" "1.1.0"
    → validate_records c m (some r) (s ∷ rest) ≡ none
    → Goes s "1.1.0" "2.0.0" × (rest ≡ [])
unfolding starts_well
second_record c m r s rest g h =
    let (path, ends, starts, more) = record_good c m (some r) s rest h in
    let from : s.from_version ≡ "1.1.0" = (eq_iff s.from_version r.to_version).0 starts ∙ g.1 in
    elim (path_cases s path) [
      | inl g' ↦ absurd (not_both s.from_version "1.0.0" "1.1.0" refl g'.0 from)
      | inr (inl g') ↦ absurd (not_both s.from_version "1.0.0" "1.1.0" refl g'.0 from)
      | inr (inr g') ↦ (g', ends_nowhere c m s rest g'.1 more)
    ]

not_early : (s a : String) → s ≡ "1.1.0" → ("1.1.0" == a) ≡ false → (s == a) ≡ false
not_early s a p differ = rw p differ

first_starts :
    (c : Config) (m : ConfigMetadata) (r : MigrationRecord) (rest : List MigrationRecord)
    → validate_records c m none (r ∷ rest) ≡ none
    → Goes r "1.0.0" "1.1.0" ⊎ Goes r "1.0.0" "2.0.0"
unfolding starts_well
first_starts c m r rest h =
    let (path, ends, starts, more) = record_good c m none r rest h in
    elim (path_cases r path) [
      | inl g ↦ inl g
      | inr (inl g) ↦ inr g
      | inr (inr g) ↦ absurd (
          ground (
            arith,
            starts,
            not_early r.from_version "0.0.0" g.0 refl,
            not_early r.from_version "1.0.0" g.0 refl,
          ))
    ]

cons_not_nil : (r : MigrationRecord) (rest : List MigrationRecord) → (r ∷ rest) ≢ []
cons_not_nil r rest e = absurd (ground (arith, e))

pub records-Upgrades :
    (c : Config) (m : ConfigMetadata) (h : List MigrationRecord)
    → validate_records c m none h ≡ none
    → Upgrades m.schema_version h
unfolding ends_well
records-Upgrades c m [] h = fresh
records-Upgrades c m (r ∷ []) h =
    let (path, ends, starts, more) = record_good c m none r [] h in
    let final : r.to_version ≡ m.schema_version = (eq_iff r.to_version m.schema_version).0 ends in
    elim (first_starts c m r [] h) [ inl g ↦ direct r (g.0, final) | inr g ↦ direct r (g.0, final) ]
records-Upgrades c m (r ∷ s ∷ rest) h =
    let (path, ends, starts, more) = record_good c m none r (s ∷ rest) h in
    elim (first_starts c m r (s ∷ rest) h) [
      | inl g ↦
          let (g', e) = second_record c m r s rest g more in
          let (path', ends', starts', more') = record_good c m (some r) s rest more in
          let last : ends_well m.schema_version s [] ≡ true = rw e at ends' in
          let final : s.to_version ≡ m.schema_version =
            (eq_iff s.to_version m.schema_version).0 last in
          rw e (stepwise r s g (g'.0, final) (sym final ∙ g'.1))
      | inr g ↦ absurd (cons_not_nil s rest (ends_nowhere c m r (s ∷ rest) g.1 more))
    ]

-- A history of migrations that validateMigration accepts is empty, or one record from 1.0.0 to the
-- schema's version, or two records that go from 1.0.0 over 1.1.0 to it, where it is 2.0.0.
pub validate_migration-Upgrades :
    (c : Config) (m : ConfigMetadata)
    → validate_migration c m ≡ none
    → Upgrades m.schema_version m.migration_history
unfolding validate_migration
validate_migration-Upgrades c m h =
    records-Upgrades c m m.migration_history
      (then-none (validate_records c m none m.migration_history)
        (validate_migration_sequence m.migration_history) h).0
