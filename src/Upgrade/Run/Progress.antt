-- ===== src/Upgrade/Run/Progress.antt =====
-- A run of UpgradeIfNeeded that no fault disturbs reaches its end.
use awiki_cli.Base.{◌≡◌, false}
use awiki_cli.Text.{Text}
use awiki_cli.Upgrade.Machine.{Machine}
use awiki_cli.Upgrade.Machine.Rules.{IsCalm}
use awiki_cli.Upgrade.Lock.{Host, blocks}

-- The lock can be had at once.
pub record LockIsFree (h : Host) (m : Machine) : Type 0 where
  pub calm : IsCalm m
  pub not_held : m.held_elsewhere ≡ false
  pub not_blocked : blocks h m.ticks m.disk.lock_file ≡ false
