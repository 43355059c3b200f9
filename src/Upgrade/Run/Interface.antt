-- ===== src/Upgrade/Run/Interface.antt =====
-- What the upgrader relies on in its migrations and in other processes, as laws over a predicate
-- that says for which migration a workspace is ready. Migrations/Laws has the predicate and the laws for
-- the migrations of the program.
use awiki_cli.Base.{ℕ, ◌+◌, ◌≤◌, ◌≡◌, some}
use awiki_cli.Upgrade.Machine.{
  Meta, Journal, File, absent, unusable, stored, Workspace, Disk, Machine,
}
use awiki_cli.Upgrade.Machine.Rules.{Ensures}
use awiki_cli.Upgrade.Plan.{Migration, Upgrader}

-- The schema version that the metadata file gives; a workspace without one is at version 0.
abbrev pub IsAtVersion : File Meta → ℕ → Type 0
IsAtVersion absent v = v ≡ 0
IsAtVersion unusable v = ⊥
IsAtVersion (stored x) v = x.workspace_schema_version ≡ v

abbrev pub IsUsable : File Journal → Type 0
IsUsable absent = Unit
IsUsable unusable = ⊥
IsUsable (stored x) = Unit

-- A migration leaves the upgrader's own files alone.
pub record SameRecords (d e : Disk) : Type 0 where
  pub same_meta : e.meta ≡ d.meta
  pub same_journal : e.journal ≡ d.journal
  pub same_backups : e.backups ≡ d.backups

module _ (Ready : ℕ → Workspace → Type 0) where
  -- The metadata gives the version, the journal can be read, and the workspace is ready for the
  -- migration of that version.
  pub record At (v : ℕ) (d : Disk) : Type 0 where
    pub meta_version : IsAtVersion d.meta v
    pub journal_usable : IsUsable d.journal
    pub ready : Ready v d.workspace

  pub record Kept (v : ℕ) (d e : Disk) : Type 0 where
    pub records : SameRecords d e
    pub still : Ready v e.workspace

  pub record Raised (v w : ℕ) (d e : Disk) : Type 0 where
    pub records : SameRecords d e
    pub still : Ready v e.workspace
    pub next : Ready w e.workspace

  -- IsDone and Apply leave a workspace from which the migration may be started again, whether they
  -- succeed or fail; what Validate accepts is ready for the next migration.
  pub record IsLawful (mg : Migration) : Type 0 where
    pub to_next : mg.to ≡ mg.from + 1
    pub is_done_law :
        (m : Machine)
        → At mg.from m.disk
        → Ensures
            (λ _ m'. Kept mg.from m.disk m'.disk)
            (λ m'. Kept mg.from m.disk m'.disk)
            (mg.is_done m)
    pub apply_law :
        (m : Machine)
        → At mg.from m.disk
        → Ensures
            (λ _ m'. Kept mg.from m.disk m'.disk)
            (λ m'. Kept mg.from m.disk m'.disk)
            (mg.apply m)
    pub validate_law :
        (m : Machine)
        → At mg.from m.disk
        → Ensures
            (λ _ m'. Raised mg.from mg.to m.disk m'.disk)
            (λ m'. Kept mg.from m.disk m'.disk)
            (mg.validate m)

  -- The map of migrations is keyed by their `From`.
  pub record HasLaws (u : Upgrader) : Type 0 where
    pub keyed : (k : ℕ) (mg : Migration) → u.migrations k ≡ some mg → mg.from ≡ k
    pub lawful : (k : ℕ) (mg : Migration) → u.migrations k ≡ some mg → IsLawful mg

  -- A version between the two.
  pub record Between (v w : ℕ) (d : Disk) : Type 0 where
    pub version : ℕ
    pub above : v ≤ version
    pub below : version ≤ w
    pub at : At version d
