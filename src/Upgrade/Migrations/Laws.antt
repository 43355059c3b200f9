-- ===== src/Upgrade/Migrations/Laws.antt =====
-- internal/upgrade/migration_v0_to_v1.go: the laws of Run/Interface for the three migrations, where
-- the calls in other packages leave its files alone.
use awiki_cli.Base.{
  ℕ, zero, suc, ◌≡◌, refl, sym, ◌∙◌, Bool, true, false, not, ◌&&◌, ◌==◌, List, some, Bool-cases,
  inl, inr, some_injective,
}
use awiki_cli.Text.{Text}
use awiki_cli.Upgrade.Machine.{Workspace, Disk, Machine, Op, load_meta, ◌>>=◌, pure}
use awiki_cli.Upgrade.Machine.Rules.{Ensures, success, failure, Ensures-bind, Ensures-weaken}
use awiki_cli.Upgrade.Plan.{Migration}
use awiki_cli.Upgrade.Run.Look.{read_meta-Ensures}
use awiki_cli.Upgrade.Run.Interface.{SameRecords, Kept, Raised, At, IsLawful, HasLaws}
use awiki_cli.Upgrade.Migrations.{
  Services, write_config, import_both, import_legacy, require_identities, is_done_at, warn, guarded,
  bootstrap, is_bootstrapped, require, validate_bootstrap, migration_0_to_1, migration_1_to_2,
  migration_2_to_3, registered, new_default_upgrader,
}

-- Ready for the first migration is any workspace; for the others, one that the first one accepts.
abbrev pub IsReady : Services → ℕ → Workspace → Type 0
IsReady s zero w = Unit
IsReady s (suc n) w = is_bootstrapped s w ≡ true

-- An operation leaves the upgrader's files alone, whether it succeeds or fails.
abbrev pub IsQuiet : {A : Type 0} → Op A → Type 0
IsQuiet o =
    (m : Machine)
    → Ensures (λ _ k. SameRecords m.disk k.disk) (λ k. SameRecords m.disk k.disk) (o m)

-- And a workspace that the first migration accepts stays one.
pub record Spared (s : Services) (d e : Disk) : Type 0 where
  pub same : SameRecords d e
  pub still : is_bootstrapped s d.workspace ≡ true → is_bootstrapped s e.workspace ≡ true

abbrev pub IsSparing : {A : Type 0} → Services → Op A → Type 0
IsSparing s o =
    (m : Machine) → Ensures (λ _ k. Spared s m.disk k.disk) (λ k. Spared s m.disk k.disk) (o m)

-- What the migrations rely on in the calls.
pub record IsHarmless (s : Services) : Type 0 where
  pub ensure_config_quiet : IsQuiet s.ensure_config_schema_version
  pub move_config_quiet : IsQuiet s.move_legacy_config
  pub import_settings_quiet : IsQuiet s.import_legacy_settings
  pub import_identities_quiet : IsQuiet s.import_identities
  pub import_database_quiet : IsQuiet s.import_database
  pub ensure_store_schema_quiet : IsQuiet s.ensure_store_schema
  pub replace_imported_quiet : IsQuiet s.replace_imported
  pub clean_up_sparing : IsSparing s s.clean_up
  pub replace_existing_sparing : IsSparing s s.replace_existing
  pub count_identities_sparing : IsSparing s s.count_identities

pub same_refl : (d : Disk) → SameRecords d d
same_refl d = record { same_meta = refl; same_journal = refl; same_backups = refl }

same_trans : {c d e : Disk} → SameRecords c d → SameRecords d e → SameRecords c e
same_trans a b = record {
  same_meta = b.same_meta ∙ a.same_meta;
  same_journal = b.same_journal ∙ a.same_journal;
  same_backups = b.same_backups ∙ a.same_backups;
}

IsQuiet-pure : {A : Type 0} (a : A) → IsQuiet (pure a)
IsQuiet-pure a m = success (same_refl m.disk)

IsQuiet-bind :
    {A B : Type 0} (o : Op A) (f : A → Op B)
    → IsQuiet o
    → ((a : A) → IsQuiet (f a))
    → IsQuiet (o >>= f)
IsQuiet-bind o f p q m =
    Ensures-bind {mid = λ _ k. SameRecords m.disk k.disk} o f m (p m)
      λ a k r. Ensures-weaken (λ _ x h. same_trans r h) (λ x h. same_trans r h) (q a k)

IsQuiet-guarded : (b : Bool) (o : Op (Unit {0})) → IsQuiet o → IsQuiet (guarded b o)
IsQuiet-guarded true o p = p
IsQuiet-guarded false o p = IsQuiet-pure tt

IsQuiet-warn : (ws : List Text) → IsQuiet (warn ws)
IsQuiet-warn ws m = success (same_refl m.disk)

module _ (s : Services) (law : IsHarmless s) where
  write_config-IsQuiet : IsQuiet (write_config s)
  unfolding write_config
  write_config-IsQuiet =
      IsQuiet-bind _ _ (λ m. success (same_refl m.disk))
        λ d. elim (Bool-cases d.config_exists) [
          | inl e ↦ rw e law.ensure_config_quiet
          | inr e ↦ elim (Bool-cases d.legacy_config_exists) [
            | inl f ↦ rw (e, f) law.move_config_quiet
            | inr f ↦
                rw (e, f)
                  (IsQuiet-guarded (not d.has_workspace && d.legacy_settings_exists) _
                    law.import_settings_quiet)
          ]
        ]

  import_both-IsQuiet : (b : Bool) → IsQuiet (import_both b s)
  import_both-IsQuiet true =
      IsQuiet-bind _ _ law.import_identities_quiet
        λ n. IsQuiet-bind _ _ law.import_database_quiet λ _. IsQuiet-pure n
  import_both-IsQuiet false = IsQuiet-pure 0

  import_legacy-IsQuiet : IsQuiet (import_legacy s)
  unfolding import_legacy
  import_legacy-IsQuiet =
      IsQuiet-bind _ _ (λ m. success (same_refl m.disk)) λ d. import_both-IsQuiet _

  bootstrap-IsQuiet : IsQuiet (bootstrap s)
  unfolding bootstrap
  bootstrap-IsQuiet = IsQuiet-bind _ _ write_config-IsQuiet λ _.
      IsQuiet-bind _ _ import_legacy-IsQuiet λ imported.
        IsQuiet-bind _ _ (λ m. success (same_refl m.disk))
          λ found. IsQuiet-bind _ _ (IsQuiet-guarded found _ law.ensure_store_schema_quiet) λ _.
            IsQuiet-guarded (not (imported == 0)) _
              (IsQuiet-bind _ _ law.replace_imported_quiet IsQuiet-warn)

  pub IsSparing-warn : (o : Op (List Text)) → IsSparing s o → IsSparing s (o >>= warn)
  IsSparing-warn o p m =
      Ensures-bind {mid = λ _ k. Spared s m.disk k.disk} o warn m (p m) λ ws k r. success r

  Kept-Spared :
      (n : ℕ) {d e : Disk} → IsReady s n d.workspace → Spared s d e → Kept (IsReady s) n d e
  Kept-Spared zero a k = record { records = k.same; still = tt }
  Kept-Spared (suc n) a k = record { records = k.same; still = k.still a }

  Kept-refl : (n : ℕ) (d : Disk) → IsReady s n d.workspace → Kept (IsReady s) n d d
  Kept-refl n d a = record { records = same_refl d; still = a }

  is_done_at-Kept :
      (n v : ℕ) (m : Machine)
      → At (IsReady s) v m.disk
      → Ensures
          (λ _ k. Kept (IsReady s) v m.disk k.disk)
          (λ k. Kept (IsReady s) v m.disk k.disk)
          (is_done_at n m)
  unfolding is_done_at load_meta
  is_done_at-Kept n v m a =
      Ensures-bind _ _ _
        (read_meta-Ensures (λ k. Kept (IsReady s) v m.disk k.disk) m m.disk.meta v a.meta_version)
        λ _ k (e, f). success (rw e (Kept-refl v m.disk a.ready))

  -- What Apply does in the second and third migration.
  sparing-Kept :
      (n : ℕ) (o : Op (List Text))
      → IsSparing s o
      → (m : Machine) → IsReady s n m.disk.workspace
      → Ensures
          (λ _ k. Kept (IsReady s) n m.disk k.disk)
          (λ k. Kept (IsReady s) n m.disk k.disk)
          ((o >>= warn) m)
  sparing-Kept n o p m a =
      Ensures-weaken (λ _ k r. Kept-Spared n a r) (λ k r. Kept-Spared n a r) (IsSparing-warn o p m)

  Raised-Spared :
      {d e : Disk}
      → is_bootstrapped s d.workspace ≡ true
      → Spared s d e
      → Raised (IsReady s) 0 1 d e
  Raised-Spared b k = record { records = k.same; still = tt; next = k.still b }

  Raised-refl :
      (n : ℕ) (d : Disk)
      → is_bootstrapped s d.workspace ≡ true
      → Raised (IsReady s) (suc n) (suc (suc n)) d d
  Raised-refl n d b = record { records = same_refl d; still = b; next = b }

  require-Raised :
      (b : Bool) (d : Disk) (k : Machine)
      → is_bootstrapped s d.workspace ≡ true
      → Spared s d k.disk
      → Ensures
          (λ _ x. Raised (IsReady s) 0 1 d x.disk)
          (λ x. Kept (IsReady s) 0 d x.disk)
          (require b k)
  require-Raised true d k b r = success (Raised-Spared b r)
  require-Raised false d k b r = failure (record { records = r.same; still = tt })

  counted-Raised :
      (b : Bool) (k : Machine)
      → is_bootstrapped s k.disk.workspace ≡ true
      → Ensures
          (λ _ x. Raised (IsReady s) 0 1 k.disk x.disk)
          (λ x. Kept (IsReady s) 0 k.disk x.disk)
          (guarded b (s.count_identities >>= λ n. require (not (n == 0))) k)
  counted-Raised true k e =
      Ensures-bind {mid = λ _ x. Spared s k.disk x.disk} _ _ _
        (Ensures-weaken (λ _ _ r. r) (λ _ r. record { records = r.same; still = tt })
          (law.count_identities_sparing k))
        λ n x r. require-Raised (not (n == 0)) k.disk x e r
  counted-Raised false k e =
      success (Raised-Spared e (record { same = same_refl k.disk; still = λ h. h }))

  identities-Raised :
      (k : Machine)
      → is_bootstrapped s k.disk.workspace ≡ true
      → Ensures
          (λ _ x. Raised (IsReady s) 0 1 k.disk x.disk)
          (λ x. Kept (IsReady s) 0 k.disk x.disk)
          (require_identities s k)
  unfolding require_identities
  identities-Raised k e =
      Ensures-bind {mid = λ _ x. x ≡ k} _ _ _ (success refl)
        λ d x q. rw q (counted-Raised (not d.has_workspace && d.legacy_identity_exists) k e)

  validate_bootstrap-Raised :
      (m : Machine)
      → Ensures
          (λ _ k. Raised (IsReady s) 0 1 m.disk k.disk)
          (λ k. Kept (IsReady s) 0 m.disk k.disk)
          (validate_bootstrap s m)
  unfolding validate_bootstrap
  validate_bootstrap-Raised m = elim (Bool-cases (is_bootstrapped s m.disk.workspace)) [
    | inr e ↦
        Ensures-bind {mid = λ _ _. ⊥} _ _ _ (rw e (failure (Kept-refl 0 m.disk tt)))
          λ _ _ h. absurd h
    | inl e ↦
        Ensures-bind {mid = λ _ k. k ≡ m} _ _ _ (rw e (success refl))
          λ _ k q. rw q (identities-Raised m e)
  ]

  migration_0_to_1-IsLawful : IsLawful (IsReady s) (migration_0_to_1 s)
  unfolding migration_0_to_1
  migration_0_to_1-IsLawful = record {
    to_next = refl;
    is_done_law = is_done_at-Kept 1 0;
    apply_law = λ m a.
        Ensures-weaken (λ _ k r. record { records = r; still = tt })
          (λ k r. record { records = r; still = tt }) (bootstrap-IsQuiet m);
    validate_law = λ m a. validate_bootstrap-Raised m;
  }

  migration_1_to_2-IsLawful : IsLawful (IsReady s) (migration_1_to_2 s)
  unfolding migration_1_to_2
  migration_1_to_2-IsLawful = record {
    to_next = refl;
    is_done_law = is_done_at-Kept 2 1;
    apply_law = λ m a. sparing-Kept 1 s.clean_up law.clean_up_sparing m a.ready;
    validate_law = λ m a. success (Raised-refl 0 m.disk a.ready);
  }

  migration_2_to_3-IsLawful : IsLawful (IsReady s) (migration_2_to_3 s)
  unfolding migration_2_to_3
  migration_2_to_3-IsLawful = record {
    to_next = refl;
    is_done_law = is_done_at-Kept 3 2;
    apply_law = λ m a. sparing-Kept 2 s.replace_existing law.replace_existing_sparing m a.ready;
    validate_law = λ m a. success (Raised-refl 1 m.disk a.ready);
  }

  pub registered_cases :
      (P : ℕ → Migration → Type 0)
      → P 0 (migration_0_to_1 s)
      → P 1 (migration_1_to_2 s)
      → P 2 (migration_2_to_3 s)
      → (k : ℕ) (mg : Migration) → registered s k ≡ some mg
      → P k mg
  registered_cases P a b c zero mg e = rw (sym (some_injective e)) a
  registered_cases P a b c (suc zero) mg e = rw (sym (some_injective e)) b
  registered_cases P a b c (suc (suc zero)) mg e = rw (sym (some_injective e)) c
  registered_cases P a b c (suc (suc (suc k))) mg e = cc

  -- The three migrations of the program are keyed by their version and satisfy the laws on which the
  -- upgrader relies, where what they call leaves the upgrader's files alone, and the clean-up, the
  -- replacement of DIDs and the look at the identities spare a configuration and a database that are in order.
  pub new_default_upgrader-HasLaws : HasLaws (IsReady s) (new_default_upgrader s)
  unfolding new_default_upgrader migration_0_to_1 migration_1_to_2 migration_2_to_3
  new_default_upgrader-HasLaws = record {
    keyed = registered_cases (λ k mg. mg.from ≡ k) refl refl refl;
    lawful =
        registered_cases (λ _ mg. IsLawful (IsReady s) mg) migration_0_to_1-IsLawful
          migration_1_to_2-IsLawful migration_2_to_3-IsLawful;
  }
