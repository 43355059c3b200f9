-- ===== src/Upgrade/Migrations.antt =====
-- internal/upgrade/migration_v0_to_v1.go and NewDefaultUpgrader of upgrader.go: the three migrations. What they call in
-- other packages, the configuration, the identities, the store and the clean-up of an older
-- installation, is a record of operations.
pub mod Laws
pub mod Steady
use awiki_cli.Base.{
  ℕ, zero, suc, Bool, true, false, not, ◌||◌, ◌&&◌, [], ◌++◌, List, Option, none, some, ltb, ◌==◌,
  if◌then◌else◌, Result, ok, err,
}
use awiki_cli.Text.{Text, text}
use awiki_cli.Upgrade.Machine.{
  Meta, Detection, Machine, Workspace, Op, Error, migration_failed, load_meta, ◌>>=◌, ◌>>◌, pure,
  raise, lift, modify,
}
use awiki_cli.Upgrade.Detect.{latest_schema, exists_in}
use awiki_cli.Upgrade.Backup.{has_option}
use awiki_cli.Upgrade.Plan.{Migration, Upgrader}

-- The calls of the migrations: the three ways to write the configuration, the import of identities, with
-- their number, and of a database, the schema of the store, the replacement of the DIDs of imported and
-- of all identities, and the clean-up, which return warnings; the schema versions of the configuration
-- and the database, the health of the database, and the number of identities.
pub record Services : Type 0 where
  pub ensure_config_schema_version : Op (Unit {0})
  pub move_legacy_config : Op (Unit {0})
  pub import_legacy_settings : Op (Unit {0})
  pub import_identities : Op ℕ
  pub import_database : Op (Unit {0})
  pub ensure_store_schema : Op (Unit {0})
  pub replace_imported : Op (List Text)
  pub clean_up : Op (List Text)
  pub replace_existing : Op (List Text)
  pub config : Workspace → Option (Result Text ℕ)
  pub database : Workspace → Option (Result Text ℕ)
  pub is_healthy : Workspace → Bool
  pub count_identities : Op ℕ

-- appconfig.ConfigSchemaVersion
abbrev pub config_schema_version : ℕ
config_schema_version = 1

-- store.SchemaVersion
abbrev pub store_schema_version : ℕ
store_schema_version = 12

abbrev pub reaches : ℕ → Option Meta → Bool
reaches n none = false
reaches n (some x) = not (ltb x.workspace_schema_version n)

-- IsDone of the migration to a version.
unfoldable pub is_done_at : ℕ → Op Bool
is_done_at n = do meta ← load_meta; pure (reaches n meta)

abbrev pub warn : List Text → Op (Unit {0})
warn ws = modify (λ m. record m { warnings = m.warnings ++ ws })

abbrev pub guarded : Bool → Op (Unit {0}) → Op (Unit {0})
guarded true o = o
guarded false o = pure tt

-- fileExists of the database.
abbrev pub has_database : Op Bool
has_database m = (ok (has_option m.disk.workspace.database_file), m)

abbrev pub current_detection : Op Detection
current_detection m = (ok m.detection, m)

abbrev pub write_config_for : Services → Detection → Op (Unit {0})
write_config_for s d =
    if d.config_exists
    then s.ensure_config_schema_version
    else if d.legacy_config_exists
    then s.move_legacy_config
    else guarded (not d.has_workspace && d.legacy_settings_exists) s.import_legacy_settings

unfoldable pub write_config : Services → Op (Unit {0})
write_config s = current_detection >>= write_config_for s

abbrev pub import_both : Bool → Services → Op ℕ
import_both true s = do n ← s.import_identities; s.import_database; pure n
import_both false s = pure 0

unfoldable pub import_legacy : Services → Op ℕ
import_legacy s = current_detection >>= λ d. import_both (not d.has_workspace && d.has_legacy) s

unfoldable pub bootstrap : Services → Op (Unit {0})
bootstrap s = do
  write_config s
  imported ← import_legacy s
  found ← has_database
  guarded found s.ensure_store_schema
  guarded (not (imported == 0)) (s.replace_imported >>= warn)

-- A file that is there has the version.
abbrev pub has_version : ℕ → Option (Result Text ℕ) → Bool
has_version v none = true
has_version v (some (ok w)) = w == v
has_version v (some (err e)) = false

-- The configuration and the database that are there have their versions, and the database is sound.
unfoldable pub is_bootstrapped : Services → Workspace → Bool
is_bootstrapped s w =
    has_version config_schema_version (s.config w)
    && (has_version store_schema_version (s.database w)
        && (not (exists_in (s.database w)) || s.is_healthy w))

abbrev pub require : Bool → Op (Unit {0})
require true = pure tt
require false = raise (migration_failed (text "validation"))

-- Where identities were to be imported, there is one.
unfoldable pub require_identities : Services → Op (Unit {0})
require_identities s = do
  d ← current_detection
  guarded (not d.has_workspace && d.legacy_identity_exists)
      (s.count_identities >>= λ n. require (not (n == 0)))

unfoldable pub validate_bootstrap : Services → Op (Unit {0})
validate_bootstrap s = do
  (λ m. require (is_bootstrapped s m.disk.workspace) m)
  require_identities s

unfoldable pub migration_0_to_1 : Services → Migration
migration_0_to_1 s = record {
  from = 0;
  to = 1;
  name = text "workspace_0_to_1_bootstrap_local_state_upgrade";
  is_done = is_done_at 1;
  apply = bootstrap s;
  validate = validate_bootstrap s;
}

unfoldable pub migration_1_to_2 : Services → Migration
migration_1_to_2 s = record {
  from = 1;
  to = 2;
  name = text "workspace_1_to_2_remove_legacy_skill_and_listener";
  is_done = is_done_at 2;
  apply = s.clean_up >>= warn;
  validate = pure tt;
}

unfoldable pub migration_2_to_3 : Services → Migration
migration_2_to_3 s = record {
  from = 2;
  to = 3;
  name = text "workspace_2_to_3_replace_existing_k1_handle_dids";
  is_done = is_done_at 3;
  apply = s.replace_existing >>= warn;
  validate = pure tt;
}

abbrev pub registered : Services → ℕ → Option Migration
registered s zero = some (migration_0_to_1 s)
registered s (suc zero) = some (migration_1_to_2 s)
registered s (suc (suc zero)) = some (migration_2_to_3 s)
registered s _ = none

unfoldable pub new_default_upgrader : Services → Upgrader
new_default_upgrader s = record { latest_version = latest_schema; migrations = registered s }
