-- ===== src/Upgrade/Migrations/Steady.antt =====
-- internal/upgrade/migration_v0_to_v1.go: the laws of Run/Calm for the three migrations, where the calls
-- in other packages do not fail by themselves.
use awiki_cli.Base.{
  ℕ, zero, suc, ◌+◌, ◌≤◌, ◌≡◌, refl, Bool, true, false, not, ◌==◌, List, none, some, arith,
}
use awiki_cli.Text.{Text}
use awiki_cli.Upgrade.Machine.{
  Workspace, Machine, Op, load_meta, ◌>>=◌, File, Meta, absent, unusable, stored,
}
use awiki_cli.Upgrade.Machine.Rules.{
  Ensures, success, Ensures-bind, Ensures-weaken, Ensures-both, IsCalm, Succeeds,
}
use awiki_cli.Upgrade.Backup.{has_option}
use awiki_cli.Upgrade.Detect.{latest_schema}
use awiki_cli.Upgrade.Plan.{Migration}
use awiki_cli.Upgrade.Plan.Chain.{Covers}
use awiki_cli.Upgrade.Run.Look.{read_meta-Ensures, meta_of}
use awiki_cli.Upgrade.Run.Interface.{IsAtVersion, At}
use awiki_cli.Upgrade.Run.Calm.{IsSteady}
use awiki_cli.Upgrade.Migrations.{
  Services, write_config, import_legacy, require_identities, config_schema_version, has_version,
  is_done_at, reaches, warn, guarded, bootstrap, is_bootstrapped, validate_bootstrap,
  migration_0_to_1, migration_1_to_2, migration_2_to_3, registered, new_default_upgrader,
}
use awiki_cli.Upgrade.Migrations.Laws.{
  IsReady, IsHarmless, IsSparing, IsSparing-warn, registered_cases,
}

abbrev pub IsConfigured : Services → Machine → Type 0
IsConfigured s m = has_version config_schema_version (s.config m.disk.workspace) ≡ true

abbrev pub IsBootstrapped : Services → Machine → Type 0
IsBootstrapped s m = is_bootstrapped s m.disk.workspace ≡ true

-- Without a fault the operation succeeds, and leads from the one condition to the other.
abbrev pub Leads : {A : Type 0} → (Machine → Type 0) → (Machine → Type 0) → Op A → Type 0
Leads p q o = (m : Machine) → IsCalm m → p m → Ensures (λ _ k. q k × IsCalm k) (λ _. ⊥) (o m)

-- What the calls do where no fault is to come, and the detection is that of the workspace at hand. A
-- workspace for which no configuration is to be written is in order as it is.
pub record IsCapable (s : Services) : Type 0 where
  pub write_config_leads : Leads (λ _. Unit) (IsConfigured s) (write_config s)
  pub import_legacy_leads : Leads (IsConfigured s) (IsConfigured s) (import_legacy s)
  pub ensure_store_schema_leads : Leads (IsConfigured s) (IsBootstrapped s) s.ensure_store_schema
  pub no_database : (w : Workspace) → has_option w.database_file ≡ false → s.database w ≡ none
  pub replace_imported_leads : Leads (IsBootstrapped s) (IsBootstrapped s) s.replace_imported
  pub clean_up_leads : Leads (λ _. Unit) (λ _. Unit) s.clean_up
  pub replace_existing_leads : Leads (λ _. Unit) (λ _. Unit) s.replace_existing
  pub require_identities_leads : Leads (IsBootstrapped s) (λ _. Unit) (require_identities s)

not_reached :
    (n v : ℕ) (f : File Meta) → v + 1 ≤ n → IsAtVersion f v → reaches n (meta_of f) ≡ false
not_reached n v absent l a = refl
not_reached n v unusable l a = elim a [ ]
not_reached n v (stored x) l a = ground (arith, a)

module _ (s : Services) (law : IsHarmless s) (able : IsCapable s) where
  -- No migration is done at the version that it starts from.
  is_done_at-false :
      (n v : ℕ)
      → v + 1 ≤ n
      → (m : Machine) → IsCalm m
      → At (IsReady s) v m.disk
      → Ensures (λ answer k. (answer ≡ false) × IsCalm k) (λ _. ⊥) (is_done_at n m)
  unfolding is_done_at load_meta
  is_done_at-false n v l m c a =
      Ensures-bind _ _ _ (read_meta-Ensures (λ _. ⊥) m m.disk.meta v a.meta_version)
        λ o k (e, f). success (rw f (not_reached n v m.disk.meta l a.meta_version), rw e c)

  IsBootstrapped-without :
      (k : Machine)
      → IsConfigured s k
      → has_option k.disk.workspace.database_file ≡ false
      → IsBootstrapped s k
  unfolding is_bootstrapped
  IsBootstrapped-without k c e = rw (able.no_database k.disk.workspace e, c) refl

  schema-Leads :
      (found : Bool) (k : Machine)
      → IsCalm k
      → IsConfigured s k
      → has_option k.disk.workspace.database_file ≡ found
      → Ensures
          (λ _ x. IsBootstrapped s x × IsCalm x)
          (λ _. ⊥)
          (guarded found s.ensure_store_schema k)
  schema-Leads true k c a e = able.ensure_store_schema_leads k c a
  schema-Leads false k c a e = success (IsBootstrapped-without k a e, c)

  replaced-Leads :
      (b : Bool)
      → Leads (IsBootstrapped s) (IsBootstrapped s) (guarded b (s.replace_imported >>= warn))
  replaced-Leads true k c a =
      Ensures-bind _ _ _ (able.replace_imported_leads k c a) λ _ x r. success r
  replaced-Leads false k c a = success (a, c)

  bootstrap-Leads : Leads (λ _. Unit) (IsBootstrapped s) (bootstrap s)
  unfolding bootstrap
  bootstrap-Leads m c t = Ensures-bind _ _ _ (able.write_config_leads m c tt) λ _ m1 (a1, c1).
      Ensures-bind _ _ _ (able.import_legacy_leads m1 c1 a1) λ imported m2 (a2, c2).
        Ensures-bind
          {mid = λ found k.
            (has_option k.disk.workspace.database_file ≡ found) × (IsConfigured s k × IsCalm k)}
          _ _ _ (success (refl, (a2, c2)))
          λ found m3 (e, (a3, c3)).
            Ensures-bind _ _ _ (schema-Leads found m3 c3 a3 e)
              λ _ m4 (a4, c4). replaced-Leads (not (imported == 0)) m4 c4 a4

  validate_bootstrap-Succeeds :
      (m : Machine) → IsCalm m → IsBootstrapped s m → Succeeds (validate_bootstrap s m)
  unfolding validate_bootstrap
  validate_bootstrap-Succeeds m c b =
      Ensures-bind {mid = λ _ k. k ≡ m} _ _ _ (rw b (success refl)) λ _ k q.
        rw q (Ensures-weaken (λ _ x (u, d). d) (λ _ h. h) (able.require_identities_leads m c b))

  sparing-Leads :
      (o : Op (List Text))
      → IsSparing s o
      → Leads (λ _. Unit) (λ _. Unit) o
      → Leads (IsBootstrapped s) (IsBootstrapped s) (o >>= warn)
  sparing-Leads o p q m c b =
      Ensures-weaken (λ _ k (r, (u, d)). (r.still b, d)) (λ _ h. h)
        (Ensures-both {h = λ _ k. Unit × IsCalm k} (IsSparing-warn s law o p m)
          (Ensures-bind {mid = λ _ k. Unit × IsCalm k} _ _ _ (q m c tt) λ _ k r. success r))

  -- The three migrations are not done at their own version, and do not fail by themselves, where what
  -- they call does neither.
  pub registered-IsSteady :
      (k : ℕ) (mg : Migration) → registered s k ≡ some mg → IsSteady (IsReady s) mg
  unfolding migration_0_to_1 migration_1_to_2 migration_2_to_3
  registered-IsSteady =
      registered_cases s law (λ _ mg. IsSteady (IsReady s) mg)
        (record {
          is_done_steady = is_done_at-false 1 0 (omega arith);
          apply_steady = λ m c a. bootstrap-Leads m c tt;
          validate_steady = λ m c a. validate_bootstrap-Succeeds m c a.next;
        })
        (record {
          is_done_steady = is_done_at-false 2 1 (omega arith);
          apply_steady = λ m c a.
              sparing-Leads s.clean_up law.clean_up_sparing able.clean_up_leads m c a.ready;
          validate_steady = λ m c a. success c;
        })
        (record {
          is_done_steady = is_done_at-false 3 2 (omega arith);
          apply_steady = λ m c a.
              sparing-Leads s.replace_existing law.replace_existing_sparing
                able.replace_existing_leads m c a.ready;
          validate_steady = λ m c a. success c;
        })

pub new_default_upgrader-Covers : (s : Services) → Covers (new_default_upgrader s) 0 latest_schema
unfolding new_default_upgrader migration_0_to_1 migration_1_to_2 migration_2_to_3
new_default_upgrader-Covers s zero lo hi = (migration_0_to_1 s, refl, refl)
new_default_upgrader-Covers s (suc zero) lo hi = (migration_1_to_2 s, refl, refl)
new_default_upgrader-Covers s (suc (suc zero)) lo hi = (migration_2_to_3 s, refl, refl)
new_default_upgrader-Covers s (suc (suc (suc k))) lo hi = absurd (omega (arith, hi))
