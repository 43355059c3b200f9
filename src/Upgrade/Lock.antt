-- ===== src/Upgrade/Lock.antt =====
-- internal/upgrade/lock.go: AcquireFileLock on top of the operating system's file lock. A lock file
-- of an older release, which used no such lock, counts while its process lives and it is young.
pub mod Laws
use awiki_cli.Base.{
  ℕ, zero, suc, ◌+◌, ◌-◌, ◌*◌, Bool, true, false, not, List, [], ◌∷◌, Option, none, some, ltb, leb,
  ◌==◌, if◌then◌else◌, Result, ok, err,
}
use awiki_cli.Base.Int.{ℤ, pos, negsuc}
use awiki_cli.Text.{Text, text, same, trim_space, is_empty}
use awiki_cli.Upgrade.Machine.{
  File, absent, unusable, stored, LockMetadata, Machine, Disk, Op, Error, locked, after, ◌>>=◌,
  ◌>>◌, pure, raise, modify, now, write, attempt,
}

-- What the process asks the operating system and the time package: whether a process lives, and
-- the seconds that a text stands for in one of the two layouts, tried in turn.
pub record Host : Type 0 where
  pub process_alive : ℤ → Bool
  pub parse_compact : Text → Option ℕ
  pub parse_rfc3339 : Text → Option ℕ
  pub format : ℕ → Text
  pub pid : ℤ
  pub hostname : Text
  pub executable : Text

abbrev pub os_file_lock_scheme : Text
os_file_lock_scheme = text "os_file_lock_v1"

-- 24 hours in seconds.
abbrev pub legacy_lock_max_age : ℕ
legacy_lock_max_age = 86400

abbrev pub first_of_layouts : Option ℕ → Option ℕ → Option ℕ
first_of_layouts (some t) other = some t
first_of_layouts none other = other

unfoldable pub parse_lock_started_at : Host → Text → Option ℕ
unfolding trim_space
parse_lock_started_at h value =
    let s = trim_space value in
    if is_empty s then none else first_of_layouts (h.parse_compact s) (h.parse_rfc3339 s)

-- A start in the future has a negative age, which is not above the limit.
unfoldable pub is_young : ℕ → Option ℕ → Bool
is_young time none = false
is_young time (some start) = not (ltb legacy_lock_max_age (time - start))

-- n <= 0
unfoldable pub is_unset : ℤ → Bool
is_unset (pos zero) = true
is_unset (pos (suc n)) = false
is_unset (negsuc n) = true

unfoldable pub is_active_legacy_lock : Host → ℕ → LockMetadata → Bool
is_active_legacy_lock h time x =
    if same x.lock_scheme os_file_lock_scheme
    then false
    else if is_unset x.pid
    then false
    else if not (h.process_alive x.pid)
    then false
    else is_young time (parse_lock_started_at h x.started_at)

-- `parsed && isActiveLegacyLock(*existing)`
abbrev pub blocks : Host → ℕ → File LockMetadata → Bool
blocks h time (stored x) = is_active_legacy_lock h time x
blocks h time _ = false

-- newLockMetadata
unfoldable pub new_lock_metadata : Host → Text → ℕ → LockMetadata
new_lock_metadata h app_version time = record {
  lock_scheme = os_file_lock_scheme;
  pid = h.pid;
  app_version = app_version;
  started_at = h.format time;
  hostname = h.hostname;
  executable = h.executable;
}

-- The file is created empty, which does not parse, if it is not there.
abbrev pub created : File LockMetadata → File LockMetadata
created absent = unusable
created unusable = unusable
created (stored x) = stored x

unfoldable pub open_lock_file : Op (Unit {0})
open_lock_file = write (λ d. record d { lock_file = created d.lock_file })

abbrev pub hold : Op (Unit {0})
hold = modify (λ m. record m { holding = true })

abbrev pub take : Bool → Op (Unit {0})
take true = raise locked
take false = attempt >> hold

-- The non-blocking call of the OS lock, which may also fail by itself.
unfoldable pub acquire_os_lock : Op (Unit {0})
acquire_os_lock m = take m.held_elsewhere m

unfoldable pub release_os_lock : Machine → Machine
release_os_lock m = record m { holding = false }

-- An error gives the OS lock back.
abbrev pub or_release : {A : Type 0} → Result Error A × Machine → Result Error A × Machine
or_release (ok a, m) = (ok a, m)
or_release (err e, m) = (err e, release_os_lock m)

-- writeLockMetadata: the file is cut to nothing, which does not parse, and then written.
unfoldable pub write_lock_metadata : LockMetadata → Op (Unit {0})
write_lock_metadata x = do
  write (λ d. record d { lock_file = unusable })
  write (λ d. record d { lock_file = stored x })

unfoldable pub claim_read : Host → Text → Op (Unit {0})
claim_read h app_version m =
    if blocks h m.ticks m.disk.lock_file
    then (err locked, m)
    else write_lock_metadata (new_lock_metadata h app_version m.ticks) m

-- The lock file is read, which may fail.
unfoldable pub claim_lock_file : Host → Text → Op (Unit {0})
claim_lock_file h app_version = do attempt; claim_read h app_version

unfoldable pub acquire_file_lock : Host → Text → Op (Unit {0})
acquire_file_lock h app_version = do
  open_lock_file
  acquire_os_lock
  λ m. or_release (claim_lock_file h app_version m)
