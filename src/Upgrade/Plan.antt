-- ===== src/Upgrade/Plan.antt =====
-- internal/upgrade/types.go: the Migration interface and Upgrader.Plan.
pub mod Chain
use awiki_cli.Base.{
  ℕ, zero, suc, ◌+◌, ◌-◌, Bool, not, List, [], ◌∷◌, Option, none, some, ltb, ◌==◌, if◌then◌else◌,
  Result, ok, err,
}
use awiki_cli.Text.{Text}
use awiki_cli.Upgrade.Machine.{Machine, Op, Error, too_new, missing_migration, bad_target}

pub record Migration : Type 0 where
  pub from : ℕ
  pub to : ℕ
  pub name : Text
  pub is_done : Op Bool
  pub apply : Op (Unit {0})
  pub validate : Op (Unit {0})

pub record Upgrader : Type 0 where
  pub latest_version : ℕ
  pub migrations : ℕ → Option Migration

abbrev pub prepend : Migration → Result Error (List Migration) → Result Error (List Migration)
prepend mg (ok plan) = ok (mg ∷ plan)
prepend mg (err e) = err e

-- One round of the loop of `Plan`: the migration of the version, checked.
unfoldable pub checked : Option Migration → ℕ → Result Error Migration
checked none version = err (missing_migration version)
checked (some mg) version = if not (mg.to == version + 1) then err (bad_target version) else ok mg

-- The loop, with the number of rounds that are left.
unfoldable pub plan_from : Upgrader → ℕ → ℕ → Result Error (List Migration)
unfolding checked
plan_from u version zero = ok []
plan_from u version (suc rounds) = elim (checked (u.migrations version) version) [
  | ok mg ↦ prepend mg (plan_from u (version + 1) rounds)
  | err e ↦ err e
]

unfoldable pub plan : Upgrader → ℕ → ℕ → Result Error (List Migration)
unfolding plan_from
plan u from to = if ltb to from then err (too_new from) else plan_from u from (to - from)
