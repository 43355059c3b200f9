-- ===== src/Upgrade/Tests.antt =====
-- Runs of the workspace upgrade on concrete disks, with services that write two files.
use awiki_cli.Base.{
  ℕ, ◌≤◌, ◌≡◌, refl, ◌⊎◌, ◌↔◌, Bool, true, false, List, [], ◌∷◌, arith, Option, none, some, ok, err,
  Result, ◌==◌, if◌then◌else◌,
}
use awiki_cli.Base.Int.{ℤ, pos, negsuc}
use awiki_cli.Text.{Text, text}
use awiki_cli.Upgrade.Machine.{
  absent, stored, LockMetadata, Disk, Fault, fine, lost, late, Machine, locked, pure, write, Op,
}
use awiki_cli.Upgrade.Machine.Rules.{Ensures, success, IsCalm, write-Ensures}
use awiki_cli.Upgrade.Plan.{Upgrader, plan}
use awiki_cli.Upgrade.Plan.Chain.{IsChain, plan-ok_iff}
use awiki_cli.Upgrade.Detect.{detect}
use awiki_cli.Upgrade.Migrations.{
  Services, migration_0_to_1, migration_1_to_2, new_default_upgrader,
}
use awiki_cli.Upgrade.Migrations.Laws.{
  IsReady, IsHarmless, IsQuiet, IsSparing, new_default_upgrader-HasLaws,
}
use awiki_cli.Upgrade.Migrations.Steady.{IsConfigured}
use awiki_cli.Upgrade.Lock.{Host, blocks, new_lock_metadata, acquire_file_lock}
use awiki_cli.Upgrade.Lock.Laws.{acquire-free, acquire-holding}
use awiki_cli.Upgrade.Run.{Env, migrate_one, upgrade_if_needed}
use awiki_cli.Upgrade.Run.Interface.{SameRecords, HasLaws, At, Between}
use awiki_cli.Upgrade.Run.Safety.{migrate_one-At}
use awiki_cli.Upgrade.Run.Whole.{IsFinished, upgrade_if_needed-Goes}

-- A file that begins with its version.
abbrev version_of : Option Text → Option (Result Text ℕ)
version_of none = none
version_of (some []) = some (ok 0)
version_of (some (v ∷ rest)) = some (ok v)

-- Every configuration that is there is read in the present version.
abbrev present : Option Text → Option (Result Text ℕ)
present none = none
present (some x) = some (ok 1)

abbrev with_config : Disk → Disk
with_config d = record d { workspace = record d.workspace { config_file = some (1 ∷ []) } }

abbrev with_database : Disk → Disk
with_database d = record d { workspace = record d.workspace { database_file = some (12 ∷ []) } }

-- The configuration and the database are written with their versions; nothing else is to do.
abbrev services : Services
services = record {
  ensure_config_schema_version = write with_config;
  move_legacy_config = write with_config;
  import_legacy_settings = write with_config;
  import_identities = pure 0;
  import_database = pure tt;
  ensure_store_schema = write with_database;
  replace_imported = pure [];
  clean_up = pure (text "listener" ∷ []);
  replace_existing = pure [];
  config = λ w. present w.config_file;
  database = λ w. version_of w.database_file;
  is_healthy = λ _. true;
  count_identities = pure 1;
}

same_records : (d : Disk) → SameRecords d d
same_records d = record { same_meta = refl; same_journal = refl; same_backups = refl }

pure-IsSparing : {A : Type 0} (a : A) → IsSparing services (pure a)
pure-IsSparing a m = success (record { same = same_records m.disk; still = λ e. e })

services-IsHarmless : IsHarmless services
services-IsHarmless = record {
  ensure_config_quiet = writing;
  move_config_quiet = writing;
  import_settings_quiet = writing;
  import_identities_quiet = λ m. success (same_records m.disk);
  import_database_quiet = λ m. success (same_records m.disk);
  ensure_store_schema_quiet = λ m.
      write-Ensures {good = λ k. SameRecords m.disk k.disk} with_database m (λ _. filled m.disk)
        (λ _. filled m.disk) (λ _. same_records m.disk);
  replace_imported_quiet = λ m. success (same_records m.disk);
  clean_up_sparing = pure-IsSparing (text "listener" ∷ []);
  replace_existing_sparing = pure-IsSparing [];
  count_identities_sparing = pure-IsSparing 1;
}
  where
    changed : (d : Disk) → SameRecords d (with_config d)
    changed d = record { same_meta = refl; same_journal = refl; same_backups = refl }

    writing : IsQuiet (write with_config)
    writing m =
        write-Ensures {good = λ k. SameRecords m.disk k.disk} with_config m (λ _. changed m.disk)
          (λ _. changed m.disk) (λ _. same_records m.disk)

    filled : (d : Disk) → SameRecords d (with_database d)
    filled d = record { same_meta = refl; same_journal = refl; same_backups = refl }

abbrev Configures : Op (Unit {0}) → Type 0
Configures o =
    (k : Machine) → IsCalm k → Ensures (λ _ x. IsConfigured services x × IsCalm x) (λ _. ⊥) (o k)

abbrev upgrader : Upgrader
upgrader = new_default_upgrader services

upgrader-HasLaws : HasLaws (IsReady services) upgrader
upgrader-HasLaws = new_default_upgrader-HasLaws services services-IsHarmless

abbrev is_seven : ℤ → Bool
is_seven (pos n) = n == 7
is_seven (negsuc n) = false

abbrev host : Host
host = record {
  process_alive = is_seven;
  parse_compact = λ s. none;
  parse_rfc3339 = λ s. some 100;
  format = λ t. t ∷ [];
  pid = pos 8;
  hostname = text "h";
  executable = text "awiki-cli";
}

abbrev env : Env
env = record {
  upgrader = upgrader;
  scan = λ ws. some (record {
    config = some (ok 1);
    legacy_config = false;
    identity_index = none;
    database = none;
    legacy_identity = ok none;
    legacy_database = ok none;
    legacy_settings = false;
  });
  host = host;
  names = record {
    stamp = λ t. t ∷ [];
    rfc3339 = λ t. t ∷ [];
    backup_path = λ id. id;
    vacuum = λ file. file;
  };
  app_version = text "1.0.0";
  meanwhile = λ m. m;
}

abbrev files : Disk
files = record {
  workspace = record {
    config_file = some (text "c");
    legacy_config_file = none;
    identity_dir = none;
    database_file = some (11 ∷ []);
    legacy = [];
  };
  meta = absent;
  journal = absent;
  lock_file = absent;
  backups = [];
}

abbrev machine : List Fault → Bool → Machine
machine faults elsewhere = record {
  disk = files;
  ticks = 1000;
  faults = faults;
  held_elsewhere = elsewhere;
  holding = false;
  current_meta = none;
  detection = detect none none;
  backup_dir = [];
  warnings = [];
}

zero-At : At (IsReady services) 0 files
zero-At = record { meta_version = refl; journal_usable = tt; ready = tt }

peers-Between :
    (v : ℕ) (m : Machine)
    → v ≤ 3
    → At (IsReady services) v m.disk
    → Between (IsReady services) v 3 m.disk
peers-Between v m l a = record { version = v; above = omega arith; below = l; at = a }

upgrade_if_needed-Goes_example :
    Ensures
      (λ _ k. IsFinished (IsReady services) env 0 k.disk)
      (λ k. Between (IsReady services) 0 3 k.disk)
      (upgrade_if_needed env (machine (fine ∷ fine ∷ late ∷ []) false))
unfolding new_default_upgrader
upgrade_if_needed-Goes_example =
    upgrade_if_needed-Goes (IsReady services) env upgrader-HasLaws peers-Between 0
      (machine (fine ∷ fine ∷ late ∷ []) false) (omega arith) zero-At

migrate_one-At_example :
    Ensures
      (λ _ k. At (IsReady services) 1 k.disk)
      (λ k. At (IsReady services) 0 k.disk ⊎ At (IsReady services) 1 k.disk)
      (migrate_one env
        (text "id")
        (text "dir")
        (migration_0_to_1 services)
        (machine (fine ∷ lost ∷ []) false))
unfolding new_default_upgrader migration_0_to_1
migrate_one-At_example =
    migrate_one-At (IsReady services) env (text "id") (text "dir") (migration_0_to_1 services)
      (upgrader-HasLaws.lawful 0 (migration_0_to_1 services) refl)
      (machine (fine ∷ lost ∷ []) false) zero-At

plan-ok_iff_example :
    (plan upgrader 0 2 ≡ ok (migration_0_to_1 services ∷ migration_1_to_2 services ∷ []))
    ↔ ((0 ≤ 2) × IsChain upgrader 0 2 (migration_0_to_1 services ∷ migration_1_to_2 services ∷ []))
plan-ok_iff_example =
    plan-ok_iff upgrader 0 2 (migration_0_to_1 services ∷ migration_1_to_2 services ∷ [])

abbrev old_lock : LockMetadata
old_lock = record {
  lock_scheme = [];
  pid = pos 7;
  app_version = text "0.1.0";
  started_at = text "then";
  hostname = text "h";
  executable = text "awiki-cli";
}

abbrev old_locked : Machine
old_locked = record (machine [] false) { disk = record files { lock_file = stored old_lock } }

acquire-free_example : acquire_file_lock host (text "1.0.0") old_locked ≡ (
    if blocks host 1000 (stored old_lock)
    then (
      err locked,
      record old_locked { disk = record files { lock_file = stored old_lock }; holding = false },
    )
    else (
      ok tt,
      record old_locked {
        disk = record files { lock_file = stored (new_lock_metadata host (text "1.0.0") 1000) };
        holding = true;
      },
    ))
acquire-free_example = acquire-free host (text "1.0.0") old_locked refl refl

acquire-holding_example :
    Ensures
      (λ _ k.
        (k.holding ≡ true)
        × (k.disk.lock_file ≡ stored (new_lock_metadata host (text "1.0.0") 1000)))
      (λ k. k.holding ≡ false)
      (acquire_file_lock host (text "1.0.0") (machine (fine ∷ lost ∷ []) false))
acquire-holding_example =
    acquire-holding host (text "1.0.0") (machine (fine ∷ lost ∷ []) false) refl
