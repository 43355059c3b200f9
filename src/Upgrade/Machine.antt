-- ===== src/Upgrade/Machine.antt =====
-- internal/upgrade/{types,journal,meta}.go: what lies on disk, and operations on it that may fail.
-- A read sees a file or that it is unusable; a write may fail before or after it took effect, as
-- the schedule of faults says. An interrupted process is one whose next operation fails.
pub mod Rules
use awiki_cli.Base.{
  ℕ, ◌+◌, Bool, true, false, List, [], ◌∷◌, Option, none, some, Result, ok, err, if◌then◌else◌,
}
use awiki_cli.Base.Int.{ℤ}
use awiki_cli.Text.{Text, text, same}

pub record Meta : Type 0 where
  pub workspace_schema_version : ℕ
  pub app_version : Text
  pub updated_at : Text
  pub last_upgrade_id : Text
  pub last_backup_dir : Text
  pub warnings : List Text

pub data Phase : Type 0 where
  checking applying validating : Phase

pub record Journal : Type 0 where
  pub upgrade_id : Text
  pub from_version : ℕ
  pub to_version : ℕ
  pub current_step : Text
  pub phase : Phase
  pub backup_dir : Text
  pub started_at : Text
  pub app_version : Text

-- A JSON file: not there, not readable or not parsable, or with a value.
pub data File (A : Type 0) : Type 0 where
  absent : File A
  unusable : File A
  stored : A → File A

pub record LockMetadata : Type 0 where
  pub lock_scheme : Text
  pub pid : ℤ
  pub app_version : Text
  pub started_at : Text
  pub hostname : Text
  pub executable : Text

-- The files that hold the user's data; a directory is one content.
pub record Workspace : Type 0 where
  pub config_file : Option Text
  pub legacy_config_file : Option Text
  pub identity_dir : Option Text
  pub database_file : Option Text
  pub legacy : Text

pub record Backup : Type 0 where
  pub config_bak : Option Text
  pub legacy_config_bak : Option Text
  pub identities : Option Text
  pub database_bak : Option Text
  pub meta_bak : File Meta
  pub journal_bak : File Journal

pub record Disk : Type 0 where
  pub workspace : Workspace
  pub meta : File Meta
  pub journal : File Journal
  pub lock_file : File LockMetadata
  pub backups : List (Text × Backup)

pub data Fault : Type 0 where
  fine lost late : Fault

pub record Detection : Type 0 where
  pub current_version : ℕ
  pub latest_version : ℕ
  pub current_version_source : Text
  pub empty : Bool
  pub has_workspace : Bool
  pub has_legacy : Bool
  pub config_exists : Bool
  pub legacy_config_exists : Bool
  pub config_schema_version : ℕ
  pub config_error : Text
  pub identity_index_exists : Bool
  pub identity_index_schema_version : ℕ
  pub identity_index_error : Text
  pub database_exists : Bool
  pub database_schema_version : ℕ
  pub database_error : Text
  pub legacy_identity_exists : Bool
  pub legacy_identity_error : Text
  pub legacy_database_exists : Bool
  pub legacy_database_error : Text
  pub legacy_settings_exists : Bool

-- The disk, the clock, the faults to come, whether another process holds the OS lock, whether this
-- one does, and the fields of `Context` that a run sets.
pub record Machine : Type 0 where
  pub disk : Disk
  pub ticks : ℕ
  pub faults : List Fault
  pub held_elsewhere : Bool
  pub holding : Bool
  pub current_meta : Option Meta
  pub detection : Detection
  pub backup_dir : Text
  pub warnings : List Text

pub data Error : Type 0 where
  io_failed : Error
  bad_meta : Error
  bad_journal : Error
  too_new : ℕ → Error
  locked : Error
  missing_migration : ℕ → Error
  bad_target : ℕ → Error
  migration_failed : Text → Error

abbrev pub Op : Type 0 → Type 0
Op A = Machine → Result Error A × Machine

-- The continuation of a bind, on the outcome of its first part.
abbrev pub after : {A B : Type 0} → (A → Op B) → Result Error A × Machine → Result Error B × Machine
after f (ok a, m) = f a m
after f (err e, m) = (err e, m)

infixl 5 ◌>>=◌ ◌>>◌
unfoldable pub ◌>>=◌ : {A B : Type 0} → Op A → (A → Op B) → Op B
◌>>=◌ o f m = after f (o m)

abbrev pub ◌>>◌ : {B : Type 0} → Op (Unit {0}) → Op B → Op B
o >> p = o >>= λ _. p

abbrev pub pure : {A : Type 0} → A → Op A
pure a m = (ok a, m)

abbrev pub raise : {A : Type 0} → Error → Op A
raise e m = (err e, m)

abbrev pub lift : {A : Type 0} → Result Error A → Op A
lift r m = (r, m)

-- A change of the process's own memory.
abbrev pub modify : (Machine → Machine) → Op (Unit {0})
modify f m = (ok tt, f m)

-- A write, under the next fault.
unfoldable pub write_under : List Fault → (Disk → Disk) → Op (Unit {0})
write_under [] f m = (ok tt, record m { disk = f m.disk })
write_under (fine ∷ fs) f m = (ok tt, record m { disk = f m.disk; faults = fs })
write_under (lost ∷ fs) f m = (err io_failed, record m { faults = fs })
write_under (late ∷ fs) f m = (err io_failed, record m { disk = f m.disk; faults = fs })

unfoldable pub write : (Disk → Disk) → Op (Unit {0})
unfolding write_under
write f m = write_under m.faults f m

-- A call that changes nothing on the disk and may fail.
unfoldable pub attempt : Op (Unit {0})
unfolding write
attempt = write (λ d. d)

-- nowUTC()
abbrev pub now : Op ℕ
now m = (ok m.ticks, record m { ticks = m.ticks + 1 })

abbrev pub read_meta : File Meta → Result Error (Option Meta)
read_meta absent = ok none
read_meta unusable = err bad_meta
read_meta (stored x) = ok (some x)

unfoldable pub load_meta : Op (Option Meta)
load_meta m = (read_meta m.disk.meta, m)

unfoldable pub save_meta : Meta → Op (Unit {0})
save_meta x = write (λ d. record d { meta = stored x })

abbrev pub read_journal : File Journal → Result Error (Option Journal)
read_journal absent = ok none
read_journal unusable = err bad_journal
read_journal (stored x) = ok (some x)

unfoldable pub load_journal : Op (Option Journal)
load_journal m = (read_journal m.disk.journal, m)

unfoldable pub save_journal : Journal → Op (Unit {0})
save_journal x = write (λ d. record d { journal = stored x })

unfoldable pub clear_journal : Op (Unit {0})
clear_journal = write (λ d. record d { journal = absent })
