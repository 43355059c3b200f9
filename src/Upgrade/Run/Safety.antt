-- ===== src/Upgrade/Run/Safety.antt =====
-- Wherever a run fails, the workspace stays one that the next run can start from.
use awiki_cli.Base.{ℕ, ◌+◌, ◌≤◌, ◌≡◌, refl, Bool, true, false, List, arith, ◌⊎◌, inl, inr}
use awiki_cli.Text.{Text}
use awiki_cli.Upgrade.Machine.{
  Meta, Journal, Workspace, Disk, Machine, stored, save_journal, save_meta,
}
use awiki_cli.Upgrade.Machine.Rules.{Ensures, success, Ensures-bind, Ensures-weaken, write-Ensures}
use awiki_cli.Upgrade.Plan.{Migration}
use awiki_cli.Upgrade.Plan.Chain.{IsChain, IsChain-le, done, step}
use awiki_cli.Upgrade.Run.{Env, record_version, migrate_one, migrate_all, apply_unless}
use awiki_cli.Upgrade.Run.Interface.{At, Kept, Raised, IsLawful, HasLaws, Between}

module _ (Ready : ℕ → Workspace → Type 0) where
  -- At a version, and ready for the migration of another one too.
  pub record Advanced (v w : ℕ) (d : Disk) : Type 0 where
    pub at : At Ready v d
    pub next : Ready w d.workspace

  At-Kept : {v : ℕ} {d e : Disk} → At Ready v d → Kept Ready v d e → At Ready v e
  At-Kept a k = record {
    meta_version = rw k.records.same_meta a.meta_version;
    journal_usable = rw k.records.same_journal a.journal_usable;
    ready = k.still;
  }

  At-Raised : {v w : ℕ} {d e : Disk} → At Ready v d → Raised Ready v w d e → Advanced v w e
  At-Raised a k = record {
    at = At-Kept a (record { records = k.records; still = k.still });
    next = k.next;
  }

  module _ (v w : ℕ) where
    -- After a failure: the version before the migration, or the one behind it.
    abbrev pub Either : Machine → Type 0
    Either m = At Ready v m.disk ⊎ At Ready w m.disk

    pub save_journal-At :
        (j : Journal) (m : Machine)
        → At Ready v m.disk
        → Ensures (λ _ m'. At Ready v m'.disk) Either (save_journal j m)
    unfolding save_journal
    save_journal-At j m a =
        let b : At Ready v (record m.disk { journal = stored j }) = record {
          meta_version = a.meta_version;
          journal_usable = tt;
          ready = a.ready;
        } in
        write-Ensures (λ d. record d { journal = stored j }) m (λ _. b) (λ _. inl b) (λ _. inl a)

    pub save_journal-Advanced :
        (j : Journal) (m : Machine)
        → Advanced v w m.disk
        → Ensures (λ _ m'. Advanced v w m'.disk) Either (save_journal j m)
    unfolding save_journal
    save_journal-Advanced j m a =
        let b : At Ready v (record m.disk { journal = stored j }) = record {
          meta_version = a.at.meta_version;
          journal_usable = tt;
          ready = a.at.ready;
        } in
        write-Ensures (λ d. record d { journal = stored j }) m
          (λ _. record { at = b; next = a.next }) (λ _. inl b) (λ _. inl a.at)

    save_meta-At :
        (x : Meta) (m : Machine)
        → x.workspace_schema_version ≡ w
        → Advanced v w m.disk
        → Ensures (λ _ m'. At Ready w m'.disk) Either (save_meta x m)
    unfolding save_meta
    save_meta-At x m e a =
        let b : At Ready w (record m.disk { meta = stored x }) = record {
          meta_version = e;
          journal_usable = a.at.journal_usable;
          ready = a.next;
        } in
        write-Ensures (λ d. record d { meta = stored x }) m (λ _. b) (λ _. inr b) (λ _. inl a.at)

  module _ (env : Env) (id dir : Text) (mg : Migration) (law : IsLawful Ready mg) where
    pub apply-At :
        (m : Machine)
        → At Ready mg.from m.disk
        → Ensures (λ _ k. At Ready mg.from k.disk) (Either mg.from mg.to) (mg.apply m)
    apply-At m a =
        Ensures-weaken (λ _ k r. At-Kept a r) (λ k r. inl (At-Kept a r)) (law.apply_law m a)

    pub validate-Advanced :
        (m : Machine)
        → At Ready mg.from m.disk
        → Ensures (λ _ k. Advanced mg.from mg.to k.disk) (Either mg.from mg.to) (mg.validate m)
    validate-Advanced m a =
        Ensures-weaken (λ _ k r. At-Raised a r) (λ k r. inl (At-Kept a r)) (law.validate_law m a)

    pub is_done-At :
        (m : Machine)
        → At Ready mg.from m.disk
        → Ensures (λ _ k. At Ready mg.from k.disk) (Either mg.from mg.to) (mg.is_done m)
    is_done-At m a =
        Ensures-weaken (λ _ k r. At-Kept a r) (λ k r. inl (At-Kept a r)) (law.is_done_law m a)

    pub apply_unless-At :
        (answer : Bool) (j : Journal) (m : Machine)
        → At Ready mg.from m.disk
        → Ensures
            (λ _ k. At Ready mg.from k.disk)
            (Either mg.from mg.to)
            (apply_unless answer j mg m)
    unfolding apply_unless
    apply_unless-At true j m c = success c
    apply_unless-At false j m c =
        Ensures-bind _ _ _ (save_journal-At mg.from mg.to _ _ c) λ _ k a. apply-At k a

    pub record_version-At :
        (m : Machine)
        → Advanced mg.from mg.to m.disk
        → Ensures
            (λ _ k. At Ready mg.to k.disk)
            (Either mg.from mg.to)
            (record_version env id dir mg m)
    unfolding record_version
    record_version-At m a =
        Ensures-bind {mid = λ _ k. Advanced mg.from mg.to k.disk} _ _ _ (success a) λ _ m1 a1.
          Ensures-bind {mid = λ _ k. Advanced mg.from mg.to k.disk} _ _ _ (success a1) λ _ m2 a2.
            Ensures-bind _ _ _ (save_meta-At mg.from mg.to _ m2 refl a2) λ _ m3 a3. success a3

    -- A round for a lawful migration, started at its version, ends at the next version; under any
    -- faults a round that fails leaves the workspace at one of the two versions, with a readable
    -- journal and ready for the migration of that version.
    pub migrate_one-At :
        (m : Machine)
        → At Ready mg.from m.disk
        → Ensures
            (λ _ k. At Ready mg.to k.disk)
            (Either mg.from mg.to)
            (migrate_one env id dir mg m)
    unfolding migrate_one
    migrate_one-At m a =
        Ensures-bind {mid = λ _ k. At Ready mg.from k.disk} _ _ _ (success a) λ started m0 a0.
          Ensures-bind _ _ _ (save_journal-At mg.from mg.to _ _ a0) λ _ m1 a1.
            Ensures-bind _ _ _ (is_done-At m1 a1) λ answer m2 a2.
              Ensures-bind _ _ _ (apply_unless-At answer _ m2 a2) λ _ m3 a3.
                Ensures-bind _ _ _ (save_journal-At mg.from mg.to _ _ a3) λ _ m4 a4.
                  Ensures-bind _ _ _ (validate-Advanced m4 a4) λ _ m5 a5. record_version-At m5 a5

  module _ (env : Env) (laws : HasLaws Ready env.upgrader) where
    Between-Either :
        {v w : ℕ} (mg : Migration)
        → mg.from ≡ v
        → mg.to ≡ v + 1
        → v + 1 ≤ w
        → (m : Machine) → Either mg.from mg.to m
        → Between Ready v w m.disk
    Between-Either mg f t l m (inl a) = record {
      version = mg.from;
      above = omega arith;
      below = omega arith;
      at = a;
    }
    Between-Either mg f t l m (inr a) = record {
      version = mg.to;
      above = omega arith;
      below = omega arith;
      at = a;
    }

    Between-lower :
        {v w : ℕ} (m : Machine) → Between Ready (v + 1) w m.disk → Between Ready v w m.disk
    Between-lower m b = record {
      version = b.version;
      above = omega arith;
      below = b.below;
      at = b.at;
    }

    -- A run over a chain of migrations ends at its last version, or fails at one of those on the way.
    pub migrate_all-At :
        {v w : ℕ} {ms : List Migration} (id dir : Text)
        → IsChain env.upgrader v w ms
        → (m : Machine) → At Ready v m.disk
        → Ensures
            (λ _ k. At Ready w k.disk)
            (λ k. Between Ready v w k.disk)
            (migrate_all env id dir ms m)
    unfolding migrate_all
    migrate_all-At id dir done m a = success a
    migrate_all-At id dir (step {v} {w} {mg} {rest} found to_next c) m a =
        let from_v = laws.keyed v mg found in
        let start : At Ready mg.from m.disk = rw from_v a in
        Ensures-bind _ _ _
          (Ensures-weaken (λ _ k b. b) (Between-Either mg from_v to_next (IsChain-le c))
            (migrate_one-At env id dir mg (laws.lawful v mg found) m start))
          λ _ k b.
            Ensures-weaken (λ _ _ r. r) Between-lower (migrate_all-At id dir c k (rw (← to_next) b))
