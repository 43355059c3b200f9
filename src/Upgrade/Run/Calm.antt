-- ===== src/Upgrade/Run/Calm.antt =====
-- Runs that no fault disturbs.
use awiki_cli.Base.{ℕ, ◌≡◌, true, false, arith, Option, inl, inr, Bool, Bool-cases}
use awiki_cli.Text.{Text, is_blank, is_empty}
use awiki_cli.Upgrade.Machine.{
  Journal, Workspace, Disk, Machine, save_journal, save_meta, clear_journal, Backup,
}
use awiki_cli.Upgrade.Machine.Rules.{
  Ensures, Ensures-both, Ensures-weaken, success, Ensures-bind, IsCalm, Succeeds, Ensures-Succeeds,
  write-Succeeds,
}
use awiki_cli.Upgrade.Plan.{Migration}
use awiki_cli.Upgrade.Backup.{
  Names, copying, make_backup_dir, backup_id_or_now, copy_all, create_backup,
}
use awiki_cli.Upgrade.Run.{
  Env, choose_backup, journal_backup, apply_unless, record_version, migrate_one,
}
use awiki_cli.Upgrade.Run.Interface.{At, IsLawful}
use awiki_cli.Upgrade.Run.Safety.{
  Advanced, save_journal-At, save_journal-Advanced, is_done-At, apply-At,
}

save_journal-Succeeds : (j : Journal) (m : Machine) → IsCalm m → Succeeds (save_journal j m)
unfolding save_journal
save_journal-Succeeds j m c = write-Succeeds _ m c

pub clear_journal-Succeeds : (m : Machine) → IsCalm m → Succeeds (clear_journal m)
unfolding clear_journal
clear_journal-Succeeds m c = write-Succeeds _ m c

copying-Succeeds :
    (dir : Text) (exists : Disk → Bool) (f : Disk → Backup → Backup) (m : Machine)
    → IsCalm m
    → Succeeds (copying dir exists f m)
unfolding copying
copying-Succeeds dir exists f m c = elim (Bool-cases (exists m.disk)) [
  | inl e ↦ rw e (write-Succeeds _ m c)
  | inr e ↦ rw e (success c)
]

copy_all-Succeeds :
    (vacuum : Text → Text) (dir : Text) (m : Machine) → IsCalm m → Succeeds (copy_all vacuum dir m)
unfolding copy_all make_backup_dir
copy_all-Succeeds vacuum dir m c = Ensures-bind _ _ _ (write-Succeeds _ m c) λ _ m1 c1.
    Ensures-bind _ _ _ (copying-Succeeds dir _ _ m1 c1) λ _ m2 c2.
      Ensures-bind _ _ _ (copying-Succeeds dir _ _ m2 c2) λ _ m3 c3.
        Ensures-bind _ _ _ (copying-Succeeds dir _ _ m3 c3) λ _ m4 c4.
          Ensures-bind _ _ _ (copying-Succeeds dir _ _ m4 c4) λ _ m5 c5.
            Ensures-bind _ _ _ (copying-Succeeds dir _ _ m5 c5) λ _ m6 c6.
              Ensures-bind _ _ _ (copying-Succeeds dir _ _ m6 c6) λ _ m7 c7.
                Ensures-bind _ _ _ (copying-Succeeds dir _ _ m7 c7)
                  λ _ m8 c8. write-Succeeds _ m8 c8

backup_id-Succeeds :
    (n : Names) (id : Text) (m : Machine) → IsCalm m → Succeeds (backup_id_or_now n id m)
unfolding backup_id_or_now
backup_id-Succeeds n id m c = elim (Bool-cases (is_blank id)) [
  | inl e ↦ rw e (Ensures-bind {mid = λ _ k. IsCalm k} _ _ _ (success c) λ _ _ d. success d)
  | inr e ↦ rw e (success c)
]

create_backup-Succeeds :
    (n : Names) (id : Text) (m : Machine) → IsCalm m → Succeeds (create_backup n id m)
unfolding create_backup
create_backup-Succeeds n id m c =
    Ensures-bind _ _ _ (backup_id-Succeeds n id m c)
      λ id' m1 c1. Ensures-bind _ _ _ (copy_all-Succeeds n.vacuum _ m1 c1) λ _ _ c2. success c2

pub choose_backup-Succeeds :
    (n : Names) (j : Option Journal) (m : Machine) → IsCalm m → Succeeds (choose_backup n j m)
unfolding choose_backup
choose_backup-Succeeds n j m c = elim (Bool-cases (is_empty (journal_backup j))) [
  | inl e ↦ rw e (
      Ensures-bind {mid = λ _ k. IsCalm k} _ _ _ (success c)
        λ t k d. create_backup-Succeeds n (n.stamp t) k d)
  | inr e ↦ rw e (success c)
]

module _ (Ready : ℕ → Workspace → Type 0) where
  -- A migration that is not done at its own version, and whose steps do not fail by themselves: Apply
  -- makes the workspace one that Validate accepts.
  pub record IsSteady (mg : Migration) : Type 0 where
    pub is_done_steady :
        (m : Machine)
        → IsCalm m
        → At Ready mg.from m.disk
        → Ensures (λ answer k. (answer ≡ false) × IsCalm k) (λ _. ⊥) (mg.is_done m)
    pub apply_steady :
        (m : Machine)
        → IsCalm m
        → At Ready mg.from m.disk
        → Ensures (λ _ k. Ready mg.to k.disk.workspace × IsCalm k) (λ _. ⊥) (mg.apply m)
    pub validate_steady :
        (m : Machine) → IsCalm m → Advanced Ready mg.from mg.to m.disk → Succeeds (mg.validate m)

  module _ (env : Env) (id dir : Text) (mg : Migration) (law : IsLawful Ready mg)
      (steady : IsSteady mg) where
    -- Apply has run, and the workspace is one that Validate accepts.
    applied-Succeeds :
        (answer : Bool) (j : Journal) (m : Machine)
        → answer ≡ false
        → IsCalm m
        → At Ready mg.from m.disk
        → Ensures
            (λ _ k. Advanced Ready mg.from mg.to k.disk × IsCalm k)
            (λ _. ⊥)
            (apply_unless answer j mg m)
    unfolding apply_unless
    applied-Succeeds true j m e c a = absurd (ground (arith, e))
    applied-Succeeds false j m e c a =
        Ensures-bind _ _ _
          (Ensures-Succeeds (save_journal-At Ready mg.from mg.to _ _ a)
            (save_journal-Succeeds _ m c))
          λ _ k (b, d).
            Ensures-weaken (λ _ x (p, (q, r)). (record { at = p; next = q }, r)) (λ _ h. h)
              (Ensures-both (apply-At Ready env id dir mg law k b) (steady.apply_steady k d b))

    record_version-Succeeds : (m : Machine) → IsCalm m → Succeeds (record_version env id dir mg m)
    unfolding record_version save_meta
    record_version-Succeeds m c = Ensures-bind {mid = λ _ k. IsCalm k} _ _ _ (success c) λ _ m1 c1.
        Ensures-bind {mid = λ _ k. IsCalm k} _ _ _ (success c1)
          λ _ m2 c2. Ensures-bind _ _ _ (write-Succeeds _ m2 c2) λ _ m3 c3. success c3

    pub migrate_one-Succeeds :
        (m : Machine) → IsCalm m → At Ready mg.from m.disk → Succeeds (migrate_one env id dir mg m)
    unfolding migrate_one
    migrate_one-Succeeds m c a =
        Ensures-bind {mid = λ _ k. At Ready mg.from k.disk × IsCalm k} _ _ _ (success (a, c))
          λ started m0 (a0, c0).
            Ensures-bind _ _ _
              (Ensures-Succeeds (save_journal-At Ready mg.from mg.to _ _ a0)
                (save_journal-Succeeds _ m0 c0))
              λ _ m1 (a1, c1).
                Ensures-bind _ _ _
                  (Ensures-both (is_done-At Ready env id dir mg law m1 a1)
                    (steady.is_done_steady m1 c1 a1))
                  λ answer m2 (a2, (e2, c2)).
                    Ensures-bind _ _ _ (applied-Succeeds answer _ m2 e2 c2 a2) λ _ m3 (a3, c3).
                      Ensures-bind _ _ _
                        (Ensures-Succeeds (save_journal-Advanced Ready mg.from mg.to _ _ a3)
                          (save_journal-Succeeds _ m3 c3))
                        λ _ m4 (a4, c4).
                          Ensures-bind _ _ _ (steady.validate_steady m4 c4 a4)
                            λ _ m5 c5. record_version-Succeeds m5 c5
