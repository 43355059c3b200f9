-- ===== src/Upgrade/Backup.antt =====
-- internal/upgrade/backup.go: CreateBackup copies the files that exist into a directory of its own.
pub mod Laws
use awiki_cli.Base.{ℕ, Bool, true, false, ok, List, [], ◌∷◌, Option, none, some, if◌then◌else◌}
use awiki_cli.Text.{Text, same, is_blank}
use awiki_cli.Upgrade.Machine.{
  File, absent, unusable, stored, Backup, Disk, Machine, Op, ◌>>=◌, ◌>>◌, pure, now, write,
}

abbrev pub empty_backup : Backup
empty_backup = record {
  config_bak = none;
  legacy_config_bak = none;
  identities = none;
  database_bak = none;
  meta_bak = absent;
  journal_bak = absent;
}

unfoldable pub find_backup : Text → List (Text × Backup) → Option Backup
find_backup dir [] = none
find_backup dir ((d, b) ∷ rest) = if same d dir then some b else find_backup dir rest

-- A change inside one backup directory, which is made if it is not there.
unfoldable pub in_backup : Text → (Backup → Backup) → List (Text × Backup) → List (Text × Backup)
in_backup dir f [] = (dir, f empty_backup) ∷ []
in_backup dir f ((d, b) ∷ rest) =
    if same d dir then (d, f b) ∷ rest else (d, b) ∷ in_backup dir f rest

-- A file that is there is copied; for one that is not, the directory keeps what it has.
abbrev pub copy_option : Option Text → Option Text → Option Text
copy_option none old = old
copy_option (some x) old = some x

abbrev pub copy_file : {A : Type 0} → File A → File A → File A
copy_file absent old = old
copy_file unusable old = unusable
copy_file (stored x) old = stored x

abbrev pub has_option : Option Text → Bool
has_option none = false
has_option (some x) = true

abbrev pub has_file : {A : Type 0} → File A → Bool
has_file absent = false
has_file unusable = true
has_file (stored x) = true

-- One copy of the sequence, made if the file exists.
unfoldable pub copying : Text → (Disk → Bool) → (Disk → Backup → Backup) → Op (Unit {0})
copying dir exists f m =
    if exists m.disk
    then write (λ d. record d { backups = in_backup dir (f d) d.backups }) m
    else (ok tt, m)

abbrev pub copy_config : Disk → Backup → Backup
copy_config d b = record b { config_bak = copy_option d.workspace.config_file b.config_bak }

abbrev pub copy_legacy_config : Disk → Backup → Backup
copy_legacy_config d b = record b {
  legacy_config_bak = copy_option d.workspace.legacy_config_file b.legacy_config_bak;
}

abbrev pub copy_identities : Disk → Backup → Backup
copy_identities d b = record b { identities = copy_option d.workspace.identity_dir b.identities }

abbrev pub dropped : Option Text → Option Text → Option Text
dropped none old = old
dropped (some x) old = none

-- An earlier backup of the database is removed.
abbrev pub remove_database : Disk → Backup → Backup
remove_database d b = record b { database_bak = dropped d.workspace.database_file b.database_bak }

abbrev pub vacuumed : (Text → Text) → Option Text → Option Text
vacuumed vacuum none = none
vacuumed vacuum (some x) = some (vacuum x)

-- VACUUM INTO writes a database of the same content; `vacuum` gives its file.
abbrev pub copy_database : (Text → Text) → Disk → Backup → Backup
copy_database vacuum d b = record b {
  database_bak = copy_option (vacuumed vacuum d.workspace.database_file) b.database_bak;
}

abbrev pub copy_meta : Disk → Backup → Backup
copy_meta d b = record b { meta_bak = copy_file d.meta b.meta_bak }

abbrev pub copy_journal : Disk → Backup → Backup
copy_journal d b = record b { journal_bak = copy_file d.journal b.journal_bak }

unfoldable pub make_backup_dir : Text → Op (Unit {0})
make_backup_dir dir = write (λ d. record d { backups = in_backup dir (λ b. b) d.backups })

-- The time stamps, the path of a backup directory below the backup root, and the file that VACUUM INTO
-- writes of a database file.
pub record Names : Type 0 where
  pub stamp : ℕ → Text
  pub rfc3339 : ℕ → Text
  pub backup_path : Text → Text
  pub vacuum : Text → Text

-- A blank identifier is replaced by the time.
unfoldable pub backup_id_or_now : Names → Text → Op Text
backup_id_or_now n id = if is_blank id then (do t ← now; pure (n.stamp t)) else pure id

-- The copies, and the sync of the directory, which changes nothing that a reader sees.
unfoldable pub copy_all : (Text → Text) → Text → Op (Unit {0})
copy_all vacuum dir = do
  make_backup_dir dir
  copying dir (λ d. has_option d.workspace.config_file) copy_config
  copying dir (λ d. has_option d.workspace.legacy_config_file) copy_legacy_config
  copying dir (λ d. has_option d.workspace.identity_dir) copy_identities
  copying dir (λ d. has_option d.workspace.database_file) remove_database
  copying dir (λ d. has_option d.workspace.database_file) (copy_database vacuum)
  copying dir (λ d. has_file d.meta) copy_meta
  copying dir (λ d. has_file d.journal) copy_journal
  write (λ d. d)

unfoldable pub create_backup : Names → Text → Op Text
create_backup n id = do
  id' ← backup_id_or_now n id
  copy_all n.vacuum (n.backup_path id')
  pure (n.backup_path id')
