-- ===== src/Upgrade/Run/Stays.antt =====
-- The operations of a run that leave the version where it is: backups, the lock and the journal.
use awiki_cli.Base.{ℕ, Bool, true, false, List, Option, Result, inl, inr, Bool-cases}
use awiki_cli.Text.{Text, is_blank, is_empty}
use awiki_cli.Upgrade.Machine.{
  Journal, File, absent, Workspace, Backup, LockMetadata, Disk, Machine, Error, write, attempt,
  clear_journal,
}
use awiki_cli.Upgrade.Machine.Rules.{Ensures, success, failure, Ensures-bind, write-Ensures}
use awiki_cli.Upgrade.Backup.{
  Names, copying, make_backup_dir, backup_id_or_now, copy_all, create_backup,
}
use awiki_cli.Upgrade.Lock.{
  Host, open_lock_file, acquire_os_lock, claim_lock_file, claim_read, take, write_lock_metadata,
  blocks, acquire_file_lock, or_release, release_os_lock,
}
use awiki_cli.Upgrade.Run.{choose_backup, journal_backup}
use awiki_cli.Upgrade.Run.Interface.{At}

module _ (Ready : ℕ → Workspace → Type 0) (v : ℕ) where
  -- The same version after an operation, whether it succeeds or not.
  abbrev pub Stays : {A : Type 0} → Result Error A × Machine → Type 0
  Stays = Ensures (λ _ k. At Ready v k.disk) (λ k. At Ready v k.disk)

  write-Stays :
      (f : Disk → Disk)
      → ((d : Disk) → At Ready v d → At Ready v (f d))
      → (m : Machine) → At Ready v m.disk
      → Stays (write f m)
  write-Stays f keeps m a = write-Ensures f m (λ _. keeps m.disk a) (λ _. keeps m.disk a) (λ _. a)

  backups-At :
      (d : Disk) (bs : List (Text × Backup)) → At Ready v d → At Ready v (record d { backups = bs })
  backups-At d bs a = record {
    meta_version = a.meta_version;
    journal_usable = a.journal_usable;
    ready = a.ready;
  }

  lock-At :
      (d : Disk) (x : File LockMetadata) → At Ready v d → At Ready v (record d { lock_file = x })
  lock-At d x a = record {
    meta_version = a.meta_version;
    journal_usable = a.journal_usable;
    ready = a.ready;
  }

  copying-Stays :
      (dir : Text) (exists : Disk → Bool) (f : Disk → Backup → Backup) (m : Machine)
      → At Ready v m.disk
      → Stays (copying dir exists f m)
  unfolding copying
  copying-Stays dir exists f m a = elim (Bool-cases (exists m.disk)) [
    | inl e ↦ rw e (write-Stays _ (λ d. backups-At d _) m a)
    | inr e ↦ rw e (success a)
  ]

  make_backup_dir-Stays :
      (dir : Text) (m : Machine) → At Ready v m.disk → Stays (make_backup_dir dir m)
  unfolding make_backup_dir
  make_backup_dir-Stays dir = write-Stays _ λ d. backups-At d _

  copy_all-Stays :
      (vacuum : Text → Text) (dir : Text) (m : Machine)
      → At Ready v m.disk
      → Stays (copy_all vacuum dir m)
  unfolding copy_all
  copy_all-Stays vacuum dir m a = Ensures-bind _ _ _ (make_backup_dir-Stays dir m a) λ _ m1 a1.
      Ensures-bind _ _ _ (copying-Stays dir _ _ m1 a1) λ _ m2 a2.
        Ensures-bind _ _ _ (copying-Stays dir _ _ m2 a2) λ _ m3 a3.
          Ensures-bind _ _ _ (copying-Stays dir _ _ m3 a3) λ _ m4 a4.
            Ensures-bind _ _ _ (copying-Stays dir _ _ m4 a4) λ _ m5 a5.
              Ensures-bind _ _ _ (copying-Stays dir _ _ m5 a5) λ _ m6 a6.
                Ensures-bind _ _ _ (copying-Stays dir _ _ m6 a6) λ _ m7 a7.
                  Ensures-bind _ _ _ (copying-Stays dir _ _ m7 a7)
                    λ _ m8 a8. write-Stays _ (λ d b. b) m8 a8

  pub clear_journal-Stays : (m : Machine) → At Ready v m.disk → Stays (clear_journal m)
  unfolding clear_journal
  clear_journal-Stays =
      write-Stays (λ d. record d { journal = absent })
        λ d a. record { meta_version = a.meta_version; journal_usable = tt; ready = a.ready }

  backup_id_or_now-Stays :
      (n : Names) (id : Text) (m : Machine) → At Ready v m.disk → Stays (backup_id_or_now n id m)
  unfolding backup_id_or_now
  backup_id_or_now-Stays n id m a = elim (Bool-cases (is_blank id)) [
    | inl e ↦
        rw e (Ensures-bind {mid = λ _ k. At Ready v k.disk} _ _ _ (success a) λ t k b. success b)
    | inr e ↦ rw e (success a)
  ]

  create_backup-Stays :
      (n : Names) (id : Text) (m : Machine) → At Ready v m.disk → Stays (create_backup n id m)
  unfolding create_backup
  create_backup-Stays n id m a =
      Ensures-bind _ _ _ (backup_id_or_now-Stays n id m a)
        λ id' m1 a1. Ensures-bind _ _ _ (copy_all-Stays n.vacuum _ m1 a1) λ _ m2 a2. success a2

  pub choose_backup-Stays :
      (n : Names) (j : Option Journal) (m : Machine)
      → At Ready v m.disk
      → Stays (choose_backup n j m)
  unfolding choose_backup
  choose_backup-Stays n j m a = elim (Bool-cases (is_empty (journal_backup j))) [
    | inl e ↦ rw e (
        Ensures-bind {mid = λ _ k. At Ready v k.disk} _ _ _ (success a)
          λ t k b. create_backup-Stays n _ k b)
    | inr e ↦ rw e (success a)
  ]

  open_lock_file-Stays : (m : Machine) → At Ready v m.disk → Stays (open_lock_file m)
  unfolding open_lock_file
  open_lock_file-Stays = write-Stays _ λ d. lock-At d _

  attempt-Stays : (m : Machine) → At Ready v m.disk → Stays (attempt m)
  unfolding attempt
  attempt-Stays = write-Stays _ λ d a. a

  write_lock_metadata-Stays :
      (x : LockMetadata) (m : Machine) → At Ready v m.disk → Stays (write_lock_metadata x m)
  unfolding write_lock_metadata
  write_lock_metadata-Stays x m a =
      Ensures-bind _ _ _ (write-Stays _ (λ d. lock-At d _) m a)
        λ _ m1 a1. write-Stays _ (λ d. lock-At d _) m1 a1

  claim_read-Stays :
      (h : Host) (app : Text) (m : Machine) → At Ready v m.disk → Stays (claim_read h app m)
  unfolding claim_read
  claim_read-Stays h app m a = elim (Bool-cases (blocks h m.ticks m.disk.lock_file)) [
    | inl e ↦ rw e (failure a)
    | inr e ↦ rw e (write_lock_metadata-Stays _ m a)
  ]

  claim_lock_file-Stays :
      (h : Host) (app : Text) (m : Machine) → At Ready v m.disk → Stays (claim_lock_file h app m)
  unfolding claim_lock_file
  claim_lock_file-Stays h app m a =
      Ensures-bind _ _ _ (attempt-Stays m a) λ _ k b. claim_read-Stays h app k b

  take-Stays : (b : Bool) (m : Machine) → At Ready v m.disk → Stays (take b m)
  take-Stays true m a = failure a
  take-Stays false m a = Ensures-bind _ _ _ (attempt-Stays m a) λ _ k b. success b

  acquire_os_lock-Stays : (m : Machine) → At Ready v m.disk → Stays (acquire_os_lock m)
  unfolding acquire_os_lock
  acquire_os_lock-Stays m a = take-Stays m.held_elsewhere m a

  or_release-Stays : {A : Type 0} {r : Result Error A × Machine} → Stays r → Stays (or_release r)
  unfolding release_os_lock
  or_release-Stays (success a) = success a
  or_release-Stays (failure a) = failure a

  pub acquire_file_lock-Stays :
      (h : Host) (app : Text) (m : Machine) → At Ready v m.disk → Stays (acquire_file_lock h app m)
  unfolding acquire_file_lock
  acquire_file_lock-Stays h app m a = Ensures-bind _ _ _ (open_lock_file-Stays m a) λ _ m1 a1.
      Ensures-bind _ _ _ (acquire_os_lock-Stays m1 a1)
        λ _ m2 a2. or_release-Stays (claim_lock_file-Stays h app m2 a2)
