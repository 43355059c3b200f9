-- ===== src/Upgrade/Backup/Laws.antt =====
-- What a new backup holds.
use awiki_cli.Base.{◌≡◌, Bool, false, Option, none, some}
use awiki_cli.Text.{Text}
use awiki_cli.Upgrade.Machine.{absent, Backup, Disk, Machine}
use awiki_cli.Upgrade.Backup.{
  empty_backup, find_backup, copy_option, copy_file, copy_config, copy_legacy_config,
  copy_identities, copy_database, remove_database, vacuumed, copy_meta, copy_journal,
}

abbrev or_empty : Option Backup → Backup
or_empty none = empty_backup
or_empty (some b) = b

-- The backup directory holds `b`, and the rest of what is copied is as at the start.
record Holds (dir : Text) (start : Disk) (b : Backup) (d : Disk) : Type 0 where
  same_workspace : d.workspace ≡ start.workspace
  same_meta : d.meta ≡ start.meta
  same_journal : d.journal ≡ start.journal
  found : find_backup dir d.backups ≡ some b

module _ (dir : Text) (start : Disk) (f : Disk → Backup → Backup) (exists : Disk → Bool)
    (b : Backup) where
  -- A copy reads only the files that are copied, and one that is not made would change nothing.
  record IsCopy : Type 0 where
    reads :
        (d : Disk)
        → d.workspace ≡ start.workspace
        → d.meta ≡ start.meta
        → d.journal ≡ start.journal
        → f d b ≡ f start b
    skips : (d : Disk) → exists d ≡ false → f d b ≡ b

-- The backup of a disk in a new directory: the content of each file that is there, and of the database
-- what VACUUM INTO makes of it.
abbrev pub snapshot : (Text → Text) → Disk → Backup
snapshot vacuum d = record {
  config_bak = copy_option d.workspace.config_file none;
  legacy_config_bak = copy_option d.workspace.legacy_config_file none;
  identities = copy_option d.workspace.identity_dir none;
  database_bak = copy_option (vacuumed vacuum d.workspace.database_file) none;
  meta_bak = copy_file d.meta absent;
  journal_bak = copy_file d.journal absent;
}

-- What the copies make of a new directory, in their order.
abbrev copied_by : (Text → Text) → Disk → Backup
copied_by vacuum d = copy_journal d (
    copy_meta d (
      copy_database vacuum d (
        remove_database d (copy_identities d (copy_legacy_config d (copy_config d empty_backup))))))

module _ (vacuum : Text → Text) (dir : Text) (start : Disk) where
  -- The backup, and the files of the workspace and the records of the upgrader as they were.
  abbrev pub IsSaved : Disk → Type 0
  IsSaved d =
      (find_backup dir d.backups ≡ some (snapshot vacuum start))
      × (d.workspace ≡ start.workspace)
      × (d.meta ≡ start.meta)
      × (d.journal ≡ start.journal)
