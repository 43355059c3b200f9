-- ===== src/Upgrade/Run/Whole.antt =====
-- The whole of UpgradeIfNeeded, under any faults and beside other processes.
use awiki_cli.Base.{
  ℕ, ◌≤◌, ◌≡◌, refl, true, false, List, [], ◌∷◌, Option, none, some, ok, err, arith, ap, ◌∙◌,
  if◌then◌else◌, sym, Result, inl, inr, Bool-cases, ltb,
}
use native.Mathlib.Nat.{le_trans}
use awiki_cli.Text.{Text}
use awiki_cli.Upgrade.Machine.{
  Journal, absent, Workspace, Disk, Machine, Error, load_journal, clear_journal, ◌>>=◌, lift,
}
use awiki_cli.Upgrade.Machine.Rules.{
  Ensures, success, failure, Ensures-bind, Ensures-weaken, write-Ensures,
}
use awiki_cli.Upgrade.Detect.{Detection, Inspection, detect}
use awiki_cli.Upgrade.Plan.{Migration, plan}
use awiki_cli.Upgrade.Plan.Chain.{IsChain, IsChain-le, length-IsChain, plan-ok_iff}
use awiki_cli.Upgrade.Lock.{acquire_file_lock, release_os_lock}
use awiki_cli.Upgrade.Run.{
  Env, is_settled, clear_if, run_plan, migrate, locked_upgrade, releasing, upgrade_from,
  upgrade_if_needed,
}
use awiki_cli.Upgrade.Run.Interface.{At, HasLaws, Between}
use awiki_cli.Upgrade.Run.Stays.{
  Stays, choose_backup-Stays, clear_journal-Stays, acquire_file_lock-Stays,
}
use awiki_cli.Upgrade.Run.Safety.{migrate_all-At}
use awiki_cli.Upgrade.Run.Look.{
  meta_of, IsEmptyDisk, detect-version, read_journal-Ensures, inspect-Ensures, detected_on,
}

module _ (Ready : ℕ → Workspace → Type 0) (env : Env) where
  -- The latest version, or no workspace to upgrade.
  pub data IsFinished (v : ℕ) (d : Disk) : Type 0 where
    upgraded : At Ready env.upgrader.latest_version d → IsFinished v d
    nothing : (w : ℕ) → v ≤ w → IsEmptyDisk env d → At Ready w d → IsFinished v d

  module _ (laws : HasLaws Ready env.upgrader) where
    -- A run from a version ends as finished, or fails at a version that is not older.
    abbrev pub Goes : ℕ → Result Error (Unit {0}) × Machine → Type 0
    Goes v =
        Ensures (λ _ k. IsFinished v k.disk)
          (λ k. Between Ready v env.upgrader.latest_version k.disk)

    here-Between :
        {v : ℕ}
        → v ≤ env.upgrader.latest_version
        → (m : Machine) → At Ready v m.disk
        → Between Ready v env.upgrader.latest_version m.disk
    here-Between {v} l m a = record { version = v; above = omega arith; below = l; at = a }

    cleared :
        {v : ℕ}
        → v ≤ env.upgrader.latest_version
        → (m : Machine) → At Ready env.upgrader.latest_version m.disk
        → Goes v (clear_journal m)
    cleared l m a =
        Ensures-weaken (λ _ k b. upgraded b)
          (λ k b. record {
            version = env.upgrader.latest_version;
            above = l;
            below = omega arith;
            at = b;
          })
          (clear_journal-Stays Ready env.upgrader.latest_version m a)

    run_plan-Goes :
        {v : ℕ} (dir : Text) (j : Option Journal) (ms : List Migration)
        → IsChain env.upgrader v env.upgrader.latest_version ms
        → (m : Machine) → At Ready v m.disk
        → Goes v (run_plan env dir j ms m)
    unfolding run_plan
    run_plan-Goes {v} dir j [] c m a =
        let e : v ≡ env.upgrader.latest_version = omega (arith, length-IsChain c) in
        cleared (omega arith) m (rw e at a)
    run_plan-Goes {v} dir j (mg ∷ rest) c m a =
        Ensures-bind {mid = λ _ k. At Ready v k.disk} _ _ _ (success a) λ t m1 a1.
          Ensures-bind _ _ _ (migrate_all-At Ready env laws _ dir c m1 a1)
            λ _ m2 a2. cleared (IsChain-le c) m2 a2

    lift-Ensures :
        {A : Type 0} (r : Result Error A) (m : Machine)
        → Ensures (λ a k. (r ≡ ok a) × (k ≡ m)) (λ k. k ≡ m) (lift r m)
    lift-Ensures (ok a) m = success (refl, refl)
    lift-Ensures (err e) m = failure refl

    planned :
        (v : ℕ) (j : Option Journal) (dir : Text) (m : Machine)
        → v ≤ env.upgrader.latest_version
        → At Ready v m.disk
        → Goes v ((lift (plan env.upgrader v env.upgrader.latest_version) >>= run_plan env dir j) m)
    planned v j dir m l a =
        Ensures-bind _ _ _
          (Ensures-weaken (λ _ _ h. h) (λ k e. here-Between l k (rw e a))
            (lift-Ensures (plan env.upgrader v env.upgrader.latest_version) m))
          λ ms k (p, e).
            run_plan-Goes dir j ms
              ((plan-ok_iff env.upgrader v env.upgrader.latest_version ms).0 p).1 k (rw e a)

    migrate-Goes :
        (v : ℕ) (m : Machine)
        → v ≤ env.upgrader.latest_version
        → At Ready v m.disk
        → Goes v (migrate env v m)
    unfolding migrate load_journal
    migrate-Goes v m l a =
        Ensures-bind _ _ _ (read_journal-Ensures _ m m.disk.journal a.journal_usable) λ j m1 e.
          Ensures-bind _ _ _
            (Ensures-weaken (λ _ _ b. b) (here-Between l)
              (choose_backup-Stays Ready v env.names j m1 (rw e a)))
            λ dir m2 a2.
              Ensures-bind {mid = λ _ k. At Ready v k.disk} _ _ _ (success a2)
                λ _ m3 a3. planned v j dir m3 l a3

    pub version_of :
        (v : ℕ) (i : Inspection) (m : Machine)
        → i.detection ≡ detect (env.scan m.disk.workspace) (meta_of m.disk.meta)
        → At Ready v m.disk
        → i.detection.empty ≡ false
        → i.detection.current_version ≡ v
    version_of v i m d a n =
        elim (detect-version (env.scan m.disk.workspace) m.disk.meta v a.meta_version) [
          | inl e ↦ cc
          | inr e ↦ cc
        ]

    clear_if-nothing :
        {v : ℕ} (j : Option Journal) (m : Machine)
        → v ≤ env.upgrader.latest_version
        → At Ready v m.disk
        → IsEmptyDisk env m.disk
        → Goes v (clear_if j m)
    unfolding clear_journal
    clear_if-nothing {v} none m l a h = success (nothing v (omega arith) h a)
    clear_if-nothing {v} (some j) m l a h =
        let b : At Ready v (record m.disk { journal = absent }) = record {
          meta_version = a.meta_version;
          journal_usable = tt;
          ready = a.ready;
        } in
        write-Ensures {good = λ k. IsFinished v k.disk} (λ d. record d { journal = absent }) m
          (λ _. nothing v (omega arith) h b)
          (λ _. record { version = v; above = omega arith; below = l; at = b })
          (λ _. here-Between l m a)

    clear_if-Stays :
        (v : ℕ) (j : Option Journal) (m : Machine)
        → At Ready v m.disk
        → Stays Ready v (clear_if j m)
    clear_if-Stays v none m a = success a
    clear_if-Stays v (some j) m a = clear_journal-Stays Ready v m a

    latest_cleared :
        (v : ℕ) (i : Inspection) (m : Machine)
        → i.detection.current_version ≡ v
        → i.detection.current_version ≡ env.upgrader.latest_version
        → v ≤ env.upgrader.latest_version
        → At Ready v m.disk
        → Goes v (clear_if i.journal m)
    latest_cleared v i m e f l a =
        let g : v ≡ env.upgrader.latest_version = omega arith in
        Ensures-weaken (λ _ k b. upgraded (rw g at b)) (here-Between l)
          (clear_if-Stays v i.journal m a)

    settled-Goes :
        (v : ℕ) (i : Inspection) (m : Machine)
        → i.detection ≡ detect (env.scan m.disk.workspace) (meta_of m.disk.meta)
        → is_settled env i ≡ true
        → v ≤ env.upgrader.latest_version
        → At Ready v m.disk
        → Goes v (clear_if i.journal m)
    settled-Goes v i m d s l a = elim (Bool-cases i.detection.empty) [
      | inl e ↦ clear_if-nothing i.journal m l a (ap (λ (x : Detection). x.empty) (sym d) ∙ e)
      | inr e ↦ latest_cleared v i m (version_of v i m d a e) (ground arith) l a
    ]

    branch-Goes :
        (v : ℕ) (i : Inspection) (m : Machine)
        → i.detection ≡ detect (env.scan m.disk.workspace) (meta_of m.disk.meta)
        → v ≤ env.upgrader.latest_version
        → At Ready v m.disk
        → Goes v (
            (if is_settled env i
                then clear_if i.journal
                else migrate env i.detection.current_version)
              m)
    branch-Goes v i m d l a = elim (Bool-cases (is_settled env i)) [
      | inl e ↦ rw e (settled-Goes v i m d e l a)
      | inr e ↦ rw (e, version_of v i m d a (ground arith)) (migrate-Goes v m l a)
    ]

    locked_upgrade-Goes :
        (v : ℕ) (m : Machine)
        → v ≤ env.upgrader.latest_version
        → At Ready v m.disk
        → Goes v (locked_upgrade env m)
    unfolding locked_upgrade
    locked_upgrade-Goes v m l a = Ensures-bind _ _ _ (inspect-Ensures Ready env _ v m a) λ i m1 r.
        Ensures-bind {mid = λ _ k. k.disk ≡ m.disk} _ _ _
          (success (ap (λ (k : Machine). k.disk) r.unchanged))
          λ _ m2 e. branch-Goes v i m2 (detected_on Ready env m2.disk r e) l (rw e a)

    Goes-lower : {v w : ℕ} {r : Result Error (Unit {0}) × Machine} → v ≤ w → Goes w r → Goes v r
    Goes-lower {v} {w} l g =
        Ensures-weaken (λ _ k b. finished k b)
          (λ k b. record {
            version = b.version;
            above = le_trans l b.above;
            below = b.below;
            at = b.at;
          })
          g
      where
        finished : (k : Machine) → IsFinished w k.disk → IsFinished v k.disk
        finished k (upgraded a) = upgraded a
        finished k (nothing x h e a) = nothing x (le_trans l h) e a

    releasing-Goes :
        {v : ℕ} {r : Result Error (Unit {0}) × Machine} → Goes v r → Goes v (releasing r)
    unfolding release_os_lock
    releasing-Goes (success a) = success a
    releasing-Goes (failure a) = failure a

    -- Other processes may move the workspace on to a later version.
    module _
        (peers : (v : ℕ) (m : Machine)
          → v ≤ env.upgrader.latest_version
          → At Ready v m.disk
          → Between Ready v env.upgrader.latest_version (env.meanwhile m).disk) where
      behind_peers :
          (v : ℕ) (m : Machine)
          → v ≤ env.upgrader.latest_version
          → At Ready v m.disk
          → Goes v (
              (acquire_file_lock env.host env.app_version >>= λ _ k.
              releasing (locked_upgrade env k))
                m)
      behind_peers v m l a =
          Ensures-bind _ _ _
            (Ensures-weaken (λ _ _ b. b) (here-Between l)
              (acquire_file_lock-Stays Ready v env.host env.app_version m a))
            λ _ k b. releasing-Goes (locked_upgrade-Goes v k l b)

      upgrade_from-Goes :
          (v : ℕ) (i : Inspection) (m : Machine)
          → i.detection ≡ detect (env.scan m.disk.workspace) (meta_of m.disk.meta)
          → v ≤ env.upgrader.latest_version
          → At Ready v m.disk
          → Goes v (upgrade_from env i m)
      unfolding upgrade_from
      upgrade_from-Goes v i m d l a =
          elim (Bool-cases (ltb env.upgrader.latest_version i.detection.current_version)) [
            | inl e ↦ rw e (failure (here-Between l m a))
            | inr e ↦ rw e (elim (Bool-cases (is_settled env i)) [
              | inl f ↦ rw f (settled-Goes v i m d f l a)
              | inr f ↦
                  let b = peers v m l a in
                  rw f (
                    Ensures-bind {mid = λ _ k. At Ready b.version k.disk} _ _ _ (success b.at)
                      λ _ k c. Goes-lower b.above (behind_peers b.version k b.below c))
            ])
          ]

      -- Where the registered migrations are lawful and other processes only move the workspace on to
      -- supported versions, UpgradeIfNeeded, started at a supported version, succeeds only at the
      -- latest version or where there is no workspace. Under any faults, wherever it fails or is cut
      -- off, the version in the metadata lies between the one it started from and the latest, the
      -- journal can be read, and the workspace is ready for the migration of that version.
      pub upgrade_if_needed-Goes :
          (v : ℕ) (m : Machine)
          → v ≤ env.upgrader.latest_version
          → At Ready v m.disk
          → Goes v (upgrade_if_needed env m)
      unfolding upgrade_if_needed
      upgrade_if_needed-Goes v m l a =
          Ensures-bind _ _ _ (inspect-Ensures Ready env _ v m a) λ i m1 r.
            Ensures-bind {mid = λ _ k. k.disk ≡ m.disk} _ _ _
              (success (ap (λ (k : Machine). k.disk) r.unchanged))
              λ _ m2 e. upgrade_from-Goes v i m2 (detected_on Ready env m2.disk r e) l (rw e a)
