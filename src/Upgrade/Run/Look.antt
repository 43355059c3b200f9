-- ===== src/Upgrade/Run/Look.antt =====
-- What the inspection of a workspace tells of its disk.
use awiki_cli.Base.{ℕ, ◌≡◌, refl, true, Option, none, some, ap, ◌∙◌, sym, ◌⊎◌, inl, inr, Bool-cases}
use mathlib.Core.Path.{ap₂}
use awiki_cli.Upgrade.Machine.{
  Meta, Journal, File, absent, unusable, stored, Workspace, Disk, Machine, read_meta, read_journal,
  load_meta, load_journal,
}
use awiki_cli.Upgrade.Machine.Rules.{Ensures, success, Ensures-bind}
use awiki_cli.Upgrade.Detect.{is_empty_probe, Probe, Inspection, detect, inspect}
use awiki_cli.Upgrade.Run.{Env}
use awiki_cli.Upgrade.Run.Interface.{IsAtVersion, IsUsable, At}

-- The metadata as `LoadMeta` gives it.
abbrev pub meta_of : File Meta → Option Meta
meta_of absent = none
meta_of unusable = none
meta_of (stored x) = some x

-- Nothing of a workspace is found on the disk.
abbrev pub IsEmptyDisk : Env → Disk → Type 0
IsEmptyDisk env d = (detect (env.scan d.workspace) (meta_of d.meta)).empty ≡ true

-- Where the metadata gives a version, the detected version is that one, unless there is no
-- workspace.
pub detect-version :
    (p : Option Probe) (f : File Meta) (v : ℕ)
    → IsAtVersion f v
    → ((detect p (meta_of f)).empty ≡ true) ⊎ ((detect p (meta_of f)).current_version ≡ v)
unfolding detect
detect-version none f v h = inl refl
detect-version (some p) (stored x) v h = inr h
detect-version (some p) unusable v h = elim h [ ]
detect-version (some p) absent v h = elim (Bool-cases (is_empty_probe p none)) [
  | inl e ↦ inl e
  | inr e ↦ inr (rw e (sym h))
]

module _ (bad : Machine → Type 0) (m : Machine) where
  pub read_meta-Ensures :
      (f : File Meta) (v : ℕ)
      → IsAtVersion f v
      → Ensures (λ o k. (k ≡ m) × (o ≡ meta_of f)) bad (read_meta f, m)
  read_meta-Ensures absent v h = success (refl, refl)
  read_meta-Ensures (stored x) v h = success (refl, refl)
  read_meta-Ensures unusable v h = elim h [ ]

  pub read_journal-Ensures :
      (f : File Journal) → IsUsable f → Ensures (λ o k. k ≡ m) bad (read_journal f, m)
  read_journal-Ensures absent h = success refl
  read_journal-Ensures (stored x) h = success refl
  read_journal-Ensures unusable h = elim h [ ]

module _ (Ready : ℕ → Workspace → Type 0) (env : Env) where
  -- The result of an inspection: nothing has changed, and the detection is that of the disk.
  pub record Inspected (m : Machine) (i : Inspection) (k : Machine) : Type 0 where
    pub unchanged : k ≡ m
    pub detected : i.detection ≡ detect (env.scan m.disk.workspace) (meta_of m.disk.meta)

  pub inspect-Ensures :
      (bad : Machine → Type 0) (v : ℕ) (m : Machine)
      → At Ready v m.disk
      → Ensures (λ i k. Inspected m i k) bad (inspect env.scan m)
  unfolding inspect load_meta load_journal
  inspect-Ensures bad v m a =
      Ensures-bind _ _ _ (read_meta-Ensures bad m m.disk.meta v a.meta_version) λ o k (e, s).
        Ensures-bind {mid = λ _ k'. k' ≡ m} _ _ _
          (rw e (read_journal-Ensures bad m m.disk.journal a.journal_usable))
          λ j k' e'.
            Ensures-bind {mid = λ p k''. (k'' ≡ m) × (p ≡ env.scan m.disk.workspace)} _ _ _
              (success (e', ap (λ x. env.scan x.disk.workspace) e'))
              λ p k'' (e'', q). success (record { unchanged = e''; detected = ap₂ detect q s })

  pub detected_on :
      {m k : Machine} {i : Inspection} (d : Disk)
      → Inspected m i k
      → d ≡ m.disk
      → i.detection ≡ detect (env.scan d.workspace) (meta_of d.meta)
  detected_on d r e =
      r.detected ∙ ap (λ (x : Disk). detect (env.scan x.workspace) (meta_of x.meta)) (sym e)
