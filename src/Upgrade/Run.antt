-- ===== src/Upgrade/Run.antt =====
-- internal/upgrade/upgrader.go: UpgradeIfNeeded. The work of other processes between the first
-- inspection and the lock is an argument, `meanwhile`.
pub mod Interface
pub mod Safety
pub mod Stays
pub mod Look
pub mod Calm
pub mod Progress
pub mod Whole
use awiki_cli.Base.{
  ℕ, ◌+◌, Bool, true, false, not, ◌&&◌, ◌||◌, List, [], ◌∷◌, Option, none, some, ltb, ◌==◌,
  if◌then◌else◌, Result, ok, err,
}
use awiki_cli.Text.{Text, text, is_empty}
use awiki_cli.Upgrade.Machine.{
  Meta, Journal, Phase, checking, applying, validating, Workspace, Machine, Op, Error, too_new,
  ◌>>=◌, ◌>>◌, pure, raise, lift, modify, now, save_meta, load_journal, save_journal, clear_journal,
}
use awiki_cli.Upgrade.Detect.{Probe, Detection, Inspection, inspect}
use awiki_cli.Upgrade.Plan.{Migration, Upgrader, plan}
use awiki_cli.Upgrade.Lock.{Host, acquire_file_lock, release_os_lock}
use awiki_cli.Upgrade.Backup.{Names, create_backup}

-- What a run depends on besides the disk.
pub record Env : Type 0 where
  pub upgrader : Upgrader
  pub scan : Workspace → Option Probe
  pub host : Host
  pub names : Names
  pub app_version : Text
  pub meanwhile : Machine → Machine

-- uc.Inspection, of which the migrations read the detection, and uc.CurrentMeta
abbrev pub note : Inspection → Op (Unit {0})
note i = modify (λ m. record m { current_meta = i.meta; detection = i.detection })

abbrev pub is_settled : Env → Inspection → Bool
is_settled env i = i.detection.empty || i.detection.current_version == env.upgrader.latest_version

abbrev pub clear_if : Option Journal → Op (Unit {0})
clear_if none = pure tt
clear_if (some j) = clear_journal

-- The backup directory of the journal, if it names one.
abbrev pub journal_backup : Option Journal → Text
journal_backup none = []
journal_backup (some j) = j.backup_dir

unfoldable pub choose_backup : Names → Option Journal → Op Text
choose_backup n journal =
    if is_empty (journal_backup journal)
    then (do t ← now; create_backup n (n.stamp t))
    else pure (journal_backup journal)

-- The identifier of an interrupted upgrade is kept.
abbrev pub upgrade_id_or : Text → Option Journal → Text
upgrade_id_or fresh none = fresh
upgrade_id_or fresh (some j) = if is_empty j.upgrade_id then fresh else j.upgrade_id

abbrev pub new_journal : Env → Text → Text → Migration → ℕ → Journal
new_journal env id dir mg time = record {
  upgrade_id = id;
  from_version = mg.from;
  to_version = mg.to;
  current_step = mg.name;
  phase = checking;
  backup_dir = dir;
  started_at = env.names.rfc3339 time;
  app_version = env.app_version;
}

abbrev pub new_meta : Env → Text → Text → Migration → ℕ → List Text → Meta
new_meta env id dir mg time warnings = record {
  workspace_schema_version = mg.to;
  app_version = env.app_version;
  updated_at = env.names.rfc3339 time;
  last_upgrade_id = id;
  last_backup_dir = dir;
  warnings = warnings;
}

unfoldable pub apply_unless : Bool → Journal → Migration → Op (Unit {0})
apply_unless true j mg = pure tt
apply_unless false j mg = do save_journal (record j { phase = applying }); mg.apply

abbrev pub current_warnings : Op (List Text)
current_warnings m = (ok m.warnings, m)

-- The end of a round: the new version is written down.
unfoldable pub record_version : Env → Text → Text → Migration → Op (Unit {0})
record_version env id dir mg = do
  finished ← now
  warnings ← current_warnings
  save_meta (new_meta env id dir mg finished warnings)
  modify (λ m. record m { current_meta = some (new_meta env id dir mg finished warnings) })

-- One round of the loop over the plan.
unfoldable pub migrate_one : Env → Text → Text → Migration → Op (Unit {0})
migrate_one env id dir mg = do
  started ← now
  let j = new_journal env id dir mg started
  save_journal j
  done ← mg.is_done
  apply_unless done j mg
  save_journal (record j { phase = validating })
  mg.validate
  record_version env id dir mg

unfoldable pub migrate_all : Env → Text → Text → List Migration → Op (Unit {0})
migrate_all env id dir [] = pure tt
migrate_all env id dir (mg ∷ rest) = do migrate_one env id dir mg; migrate_all env id dir rest

-- The plan is run and the journal cleared; an empty plan only clears the journal.
unfoldable pub run_plan : Env → Text → Option Journal → List Migration → Op (Unit {0})
run_plan env dir journal [] = clear_journal
run_plan env dir journal (mg ∷ rest) = do
  t ← now
  migrate_all env (upgrade_id_or (env.names.stamp t) journal) dir (mg ∷ rest)
  clear_journal

unfoldable pub migrate : Env → ℕ → Op (Unit {0})
migrate env current = do
  journal ← load_journal
  dir ← choose_backup env.names journal
  modify (λ m. record m { backup_dir = dir })
  steps ← lift (plan env.upgrader current env.upgrader.latest_version)
  run_plan env dir journal steps

-- Under the lock the workspace is inspected again.
unfoldable pub locked_upgrade : Env → Op (Unit {0})
locked_upgrade env = do
  i ← inspect env.scan
  note i
  if is_settled env i then clear_if i.journal else migrate env i.detection.current_version

-- `defer unlock()`
abbrev pub releasing : {A : Type 0} → Result Error A × Machine → Result Error A × Machine
releasing (r, m) = (r, release_os_lock m)

unfoldable pub upgrade_from : Env → Inspection → Op (Unit {0})
upgrade_from env i =
    if ltb env.upgrader.latest_version i.detection.current_version
    then raise (too_new i.detection.current_version)
    else if is_settled env i
    then clear_if i.journal
    else do
      modify env.meanwhile
      acquire_file_lock env.host env.app_version
      λ m. releasing (locked_upgrade env m)

unfoldable pub upgrade_if_needed : Env → Op (Unit {0})
upgrade_if_needed env = do i ← inspect env.scan; note i; upgrade_from env i
