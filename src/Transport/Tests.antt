-- ===== src/Transport/Tests.antt =====
-- Runs of internal/transportcfg/config.go with one text for all variables of the environment.
use awiki_cli.Base.{ℕ, ◌≡◌, refl, arith, Option, none, some, some_injective}
use awiki_cli.Base.Int.{ℤ}
use awiki_cli.Text.{Text, text, trim_space, trim_left, trim_right, is_space}
use awiki_cli.Text.Number.{value_from, value, decimal, signed, atoi}
use awiki_cli.Transport.{
  health_probe, rpc_default, duration_from_env, int_from_env, profile_timeout, timeout_for_profile,
  with_profile_timeout,
}
use awiki_cli.Transport.Laws.{
  NotLater, AreHeld, with_profile_timeout-some, with_profile_timeout-overflow,
}

-- No text is a duration with a unit.
abbrev no_durations : Text → Option ℤ
no_durations t = none

abbrev half_second : Text → Text
half_second key = text " 500 "

abbrev too_long : Text → Text
too_long key = text "9223372036855"

probe :
    with_profile_timeout no_durations half_second (some 900000000) 5 health_probe ≡ some 500000005
unfolding trim_space trim_left trim_right is_space value_from value decimal signed atoi
    duration_from_env profile_timeout timeout_for_profile with_profile_timeout
probe = refl

connections : int_from_env no_durations half_second (text "AWIKI_CLI_HTTP_MAX_IDLE_CONNS") 32 ≡ 500
unfolding trim_space trim_left trim_right is_space value_from value decimal signed atoi int_from_env
connections = refl

half_second-AreHeld : (key : Text) → AreHeld (trim_space (half_second key))
unfolding trim_space trim_left trim_right is_space value_from value decimal signed atoi
half_second-AreHeld key n e = omega (arith, some_injective e)

with_profile_timeout-some_example :
    (d : ℕ) × (with_profile_timeout no_durations half_second (some 900000000) 5 health_probe
      ≡ some d)
    × NotLater (some d) (some 900000000)
with_profile_timeout-some_example =
    with_profile_timeout-some no_durations half_second (some 900000000) 5 health_probe
      half_second-AreHeld

with_profile_timeout-overflow_example :
    with_profile_timeout no_durations too_long none 5 rpc_default ≡ none
unfolding trim_space trim_left trim_right is_space value_from value decimal signed atoi
with_profile_timeout-overflow_example =
    with_profile_timeout-overflow no_durations too_long none 5 9223372036855 refl refl refl
      (omega arith) (omega arith)
