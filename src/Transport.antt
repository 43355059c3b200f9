-- ===== src/Transport.antt =====
-- internal/transportcfg/config.go: the timeouts of requests. A duration is a number of nanoseconds; an
-- instant is one since a fixed time. `env` is os.Getenv, `parse_duration` is time.ParseDuration.
pub mod Laws
mod Tests
use awiki_cli.Base.{
  ℕ, zero, suc, ◌+◌, ◌-◌, ◌*◌, ◌^◌, ◌%◌, ◌≡◌, Bool, true, false, not, ◌&&◌, List, [], ◌∷◌, Option,
  none, some, if◌then◌else◌, ltb, leb,
}
use awiki_cli.Base.Int.{ℤ, pos, negsuc}
use awiki_cli.Text.{Text, text, trim_space, is_empty}
use awiki_cli.Text.Number.{atoi}

pub data Profile : Type 0 where
  bridge_fast_path : Profile
  health_probe : Profile
  auth_refresh : Profile
  rpc_default : Profile
  rpc_read_heavy : Profile

abbrev pub millisecond : ℕ
millisecond = 1000000

abbrev pub second : ℕ
second = 1000000000

-- The value of an int64 of the bits.
abbrev pub to_int64 : ℕ → ℤ
to_int64 n = if ltb n (2 ^ 63) then pos n else negsuc (2 ^ 64 - 1 - n)

-- A number that is above zero.
abbrev pub positive : Option ℤ → Option ℕ
positive (some (pos (suc n))) = some (suc n)
positive _ = none

module _ (parse_duration : Text → Option ℤ) (env : Text → Text) where
  -- time.Duration(millis) * time.Millisecond wraps around.
  abbrev pub milliseconds : Option ℕ → ℕ → ℤ
  milliseconds none fallback = pos fallback
  milliseconds (some n) fallback = to_int64 (n * millisecond % 2 ^ 64)

  -- The duration that is parsed, or the number of milliseconds.
  abbrev pub duration_of : Option ℕ → Option ℕ → ℕ → ℤ
  duration_of (some d) millis fallback = pos d
  duration_of none millis fallback = milliseconds millis fallback

  unfoldable pub duration_from_env : Text → ℕ → ℤ
  duration_from_env key fallback =
      let raw = trim_space (env key) in
      if is_empty raw
      then pos fallback
      else duration_of (positive (parse_duration raw)) (positive (atoi raw)) fallback

  abbrev pub int_of : Option ℕ → ℕ → ℕ
  int_of none fallback = fallback
  int_of (some n) fallback = n

  unfoldable pub int_from_env : Text → ℕ → ℕ
  int_from_env key fallback =
      let raw = trim_space (env key) in
      if is_empty raw then fallback else int_of (positive (atoi raw)) fallback

  -- ProfileTimeouts of Resolve.
  unfoldable pub profile_timeout : Profile → ℤ
  profile_timeout bridge_fast_path =
      duration_from_env (text "AWIKI_CLI_TIMEOUT_PROFILE_BRIDGE_FAST_PATH") (1500 * millisecond)
  profile_timeout health_probe =
      duration_from_env (text "AWIKI_CLI_TIMEOUT_PROFILE_HEALTH_PROBE") (750 * millisecond)
  profile_timeout auth_refresh =
      duration_from_env (text "AWIKI_CLI_TIMEOUT_PROFILE_AUTH_REFRESH") (20 * second)
  profile_timeout rpc_default =
      duration_from_env (text "AWIKI_CLI_TIMEOUT_PROFILE_RPC_DEFAULT") (25 * second)
  profile_timeout rpc_read_heavy =
      duration_from_env (text "AWIKI_CLI_TIMEOUT_PROFILE_RPC_READ_HEAVY") (35 * second)

  abbrev pub at_first : ℤ → ℤ → ℤ
  at_first (pos (suc n)) otherwise = pos (suc n)
  at_first _ otherwise = otherwise

  unfoldable pub timeout_for_profile : Profile → ℤ
  timeout_for_profile profile = at_first (profile_timeout profile) (profile_timeout rpc_default)

  -- The deadline of the context that context.WithTimeout makes: none is later than its parent's.
  abbrev pub with_deadline : Option ℕ → ℕ → ℕ
  with_deadline none d = d
  with_deadline (some parent) d = if ltb parent d then parent else d

  -- time.Until(deadline) <= timeout
  abbrev pub is_near : Option ℕ → ℕ → ℕ → Bool
  is_near none now timeout = false
  is_near (some deadline) now timeout = leb deadline (now + timeout)

  abbrev pub deadline_after : Option ℕ → ℕ → ℤ → Option ℕ
  deadline_after parent now (pos (suc t)) =
      if is_near parent now (suc t) then parent else some (with_deadline parent (now + suc t))
  deadline_after parent now _ = parent

  -- The deadline of the context of WithProfileTimeout, from that of the one given; `now` is the time.
  unfoldable pub with_profile_timeout : Option ℕ → ℕ → Profile → Option ℕ
  with_profile_timeout parent now profile = deadline_after parent now (timeout_for_profile profile)
