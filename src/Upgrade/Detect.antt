-- ===== src/Upgrade/Detect.antt =====
-- internal/upgrade/detect.go: Detect and Inspect, and the records of types.go that they fill.
use awiki_cli.Base.{ℕ, Bool, true, false, not, ◌&&◌, ◌||◌, [], Option, none, some, Result, ok, err}
use awiki_cli.Text.{Text, text}
pub use awiki_cli.Upgrade.Machine.{Detection}
use awiki_cli.Upgrade.Machine.{Meta, Journal, Workspace, Op, ◌>>=◌, pure, load_meta, load_journal}

-- What the scans of the workspace find. A config file, an identity index and a database are absent,
-- or present with a schema version or the text of an error; a legacy scan fails or tells whether
-- there is something, and may tell nothing.
pub record Probe : Type 0 where
  pub config : Option (Result Text ℕ)
  pub legacy_config : Bool
  pub identity_index : Option (Result Text ℕ)
  pub database : Option (Result Text ℕ)
  pub legacy_identity : Result Text (Option Bool)
  pub legacy_database : Result Text (Option Bool)
  pub legacy_settings : Bool

-- LatestWorkspaceSchemaVersion
abbrev pub latest_schema : ℕ
latest_schema = 3

abbrev pub exists_in : Option (Result Text ℕ) → Bool
exists_in none = false
exists_in (some r) = true

abbrev pub version_in : Option (Result Text ℕ) → ℕ
version_in (some (ok v)) = v
version_in (some (err e)) = 0
version_in none = 0

abbrev pub error_in : Option (Result Text ℕ) → Text
error_in (some (err e)) = e
error_in (some (ok v)) = []
error_in none = []

abbrev pub found_in : Result Text (Option Bool) → Bool
found_in (ok (some b)) = b
found_in (ok none) = false
found_in (err e) = false

abbrev pub scan_error : Result Text (Option Bool) → Text
scan_error (ok b) = []
scan_error (err e) = e

-- The files of the present layout, and those of the one before.
abbrev pub has_workspace_files : Probe → Bool
has_workspace_files p =
    exists_in p.config || p.legacy_config || exists_in p.identity_index || exists_in p.database

abbrev pub has_legacy_files : Probe → Bool
has_legacy_files p = found_in p.legacy_identity || found_in p.legacy_database || p.legacy_settings

abbrev pub is_none : Option Meta → Bool
is_none none = true
is_none (some x) = false

abbrev pub is_empty_probe : Probe → Option Meta → Bool
is_empty_probe p meta = is_none meta && not (has_workspace_files p) && not (has_legacy_files p)

-- The `switch` at the end: the version and where it comes from.
abbrev pub detected_version : Bool → Option Meta → ℕ × Text
detected_version empty (some x) = (x.workspace_schema_version, text "meta")
detected_version true none = (latest_schema, text "default_empty")
detected_version false none = (0, text "legacy_detector")

-- No configuration is resolved when there is no probe.
unfoldable pub detect : Option Probe → Option Meta → Detection
detect none meta = record {
  current_version = latest_schema;
  latest_version = latest_schema;
  current_version_source = text "default_empty";
  empty = true;
  has_workspace = false;
  has_legacy = false;
  config_exists = false;
  legacy_config_exists = false;
  config_schema_version = 0;
  config_error = [];
  identity_index_exists = false;
  identity_index_schema_version = 0;
  identity_index_error = [];
  database_exists = false;
  database_schema_version = 0;
  database_error = [];
  legacy_identity_exists = false;
  legacy_identity_error = [];
  legacy_database_exists = false;
  legacy_database_error = [];
  legacy_settings_exists = false;
}
detect (some p) meta = record {
  current_version = (detected_version (is_empty_probe p meta) meta).0;
  latest_version = latest_schema;
  current_version_source = (detected_version (is_empty_probe p meta) meta).1;
  empty = is_empty_probe p meta;
  has_workspace = has_workspace_files p;
  has_legacy = has_legacy_files p;
  config_exists = exists_in p.config;
  legacy_config_exists = p.legacy_config;
  config_schema_version = version_in p.config;
  config_error = error_in p.config;
  identity_index_exists = exists_in p.identity_index;
  identity_index_schema_version = version_in p.identity_index;
  identity_index_error = error_in p.identity_index;
  database_exists = exists_in p.database;
  database_schema_version = version_in p.database;
  database_error = error_in p.database;
  legacy_identity_exists = found_in p.legacy_identity;
  legacy_identity_error = scan_error p.legacy_identity;
  legacy_database_exists = found_in p.legacy_database;
  legacy_database_error = scan_error p.legacy_database;
  legacy_settings_exists = p.legacy_settings;
}

pub record Inspection : Type 0 where
  pub meta : Option Meta
  pub journal : Option Journal
  pub detection : Detection

-- The workspace as it stands, given the scans.
abbrev pub probe_now : (Workspace → Option Probe) → Op (Option Probe)
probe_now scan m = pure (scan m.disk.workspace) m

unfoldable pub inspect : (Workspace → Option Probe) → Op Inspection
inspect scan = do
  meta ← load_meta
  journal ← load_journal
  probe ← probe_now scan
  pure (record { meta = meta; journal = journal; detection = detect probe meta })
