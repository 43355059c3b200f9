-- ===== src/Transport/Laws.antt =====
-- internal/transportcfg/config.go: how far the deadlines are.
use awiki_cli.Base.{
  ℕ, zero, suc, ◌+◌, ◌-◌, ◌%◌, ◌*◌, ◌^◌, ◌≤◌, ◌<◌, ◌≡◌, refl, sym, ◌∙◌, ap, false, Option, none,
  some, ltb, leb, arith, Bool-cases, Option-cases, some_injective, inl, inr,
}
use awiki_cli.Base.Int.{ℤ, pos, negsuc}
use awiki_cli.Text.{Text, text, trim_space, is_empty}
use awiki_cli.Text.Number.{atoi}
use awiki_cli.Transport.{
  positive, to_int64, Profile, bridge_fast_path, health_probe, auth_refresh, rpc_default,
  rpc_read_heavy, profile_timeout, duration_from_env, timeout_for_profile, with_profile_timeout,
  deadline_after,
}

-- The deadline is not later than another one, no deadline being the latest.
abbrev pub NotLater : Option ℕ → Option ℕ → Type 0
NotLater d none = Unit
NotLater none (some e) = ⊥
NotLater (some d) (some e) = d ≤ e

small_milliseconds :
    (n : ℕ) → n ≤ 9223372036854 → to_int64 (n * 1000000 % 2 ^ 64) ≡ pos (n * 1000000)
small_milliseconds n h = ground arith

large_milliseconds :
    (n : ℕ)
    → 9223372036854 < n
    → n ≤ 18446744073709
    → to_int64 (n * 1000000 % 2 ^ 64) ≡ negsuc (2 ^ 64 - 1 - n * 1000000)
large_milliseconds n h k = ground arith

positive-suc : (o : Option ℤ) (n : ℕ) → positive o ≡ some n → (m : ℕ) × (n ≡ suc m)
positive-suc none n e = absurd (ground arith)
positive-suc (some (pos zero)) n e = absurd (ground arith)
positive-suc (some (pos (suc m))) n e = (m, sym (some_injective e))
positive-suc (some (negsuc m)) n e = absurd (ground arith)

-- Milliseconds that a duration can hold.
abbrev pub AreHeld : Text → Type 0
AreHeld raw = (n : ℕ) → positive (atoi raw) ≡ some n → n ≤ 9223372036854

module _ (parse_duration : Text → Option ℤ) (env : Text → Text) where
  deadline_after_bounds :
      (parent : Option ℕ) (now t : ℕ)
      → (d : ℕ) × (deadline_after parse_duration env parent now (pos (suc t)) ≡ some d)
        × NotLater (some d) parent
        × d ≤ now + suc t
  deadline_after_bounds none now t = (now + suc t, refl, tt, omega arith)
  deadline_after_bounds (some e) now t = elim (Bool-cases (leb e (now + suc t))) [
    | inl f ↦ (e, rw f refl, omega arith, ground arith)
    | inr f ↦ elim (Bool-cases (ltb e (now + suc t))) [
      | inl g ↦ (e, rw (f, g) refl, omega arith, ground arith)
      | inr g ↦ (now + suc t, rw (f, g) refl, ground arith, omega arith)
    ]
  ]

  -- Where the timeout of the profile is t > 0, a request has a deadline, at most t from now and no
  -- later than the one there was.
  pub with_profile_timeout-bounds :
      (parent : Option ℕ) (now t : ℕ) (profile : Profile)
      → timeout_for_profile parse_duration env profile ≡ pos (suc t)
      → (d : ℕ) × (with_profile_timeout parse_duration env parent now profile ≡ some d)
        × NotLater (some d) parent
        × d ≤ now + suc t
  unfolding with_profile_timeout
  with_profile_timeout-bounds parent now t profile e = rw e (deadline_after_bounds parent now t)

  milliseconds-positive :
      (n : ℕ)
      → n ≤ 9223372036854
      → (m : ℕ) × (n ≡ suc m)
      → (d : ℕ) × (to_int64 (n * 1000000 % 2 ^ 64) ≡ pos (suc d))
  milliseconds-positive n h (m, e) =
      (n * 1000000 - 1, small_milliseconds n h ∙ ap (λ (k : ℕ). pos k) (omega arith))

  -- A duration above zero comes of a fallback above zero, where a number of milliseconds is one that a
  -- duration can hold.
  pub duration_from_env-positive :
      (key : Text) (fallback : ℕ)
      → 0 < fallback
      → AreHeld (trim_space (env key))
      → (d : ℕ) × (duration_from_env parse_duration env key fallback ≡ pos (suc d))
  unfolding duration_from_env
  duration_from_env-positive key fallback p h =
      elim (Bool-cases (is_empty (trim_space (env key)))) [
        | inl e ↦ rw e (fallback - 1, ap (λ (k : ℕ). pos k) (omega arith))
        | inr e ↦ elim (Option-cases (positive (parse_duration (trim_space (env key))))) [
          | inr (d, f) ↦ let (m, g) = positive-suc _ d f in rw (e, f) (m, ap (λ (k : ℕ). pos k) g)
          | inl f ↦ elim (Option-cases (positive (atoi (trim_space (env key))))) [
            | inl g ↦ rw (e, f, g) (fallback - 1, ap (λ (k : ℕ). pos k) (omega arith))
            | inr (n, g) ↦ rw (e, f, g) (milliseconds-positive n (h n g) (positive-suc _ n g))
          ]
        ]
      ]

  profile_timeout-positive :
      (profile : Profile)
      → ((key : Text) → AreHeld (trim_space (env key)))
      → (t : ℕ) × (profile_timeout parse_duration env profile ≡ pos (suc t))
  unfolding profile_timeout
  profile_timeout-positive bridge_fast_path h = duration_from_env-positive _ _ (omega arith) (h _)
  profile_timeout-positive health_probe h = duration_from_env-positive _ _ (omega arith) (h _)
  profile_timeout-positive auth_refresh h = duration_from_env-positive _ _ (omega arith) (h _)
  profile_timeout-positive rpc_default h = duration_from_env-positive _ _ (omega arith) (h _)
  profile_timeout-positive rpc_read_heavy h = duration_from_env-positive _ _ (omega arith) (h _)

  timeout-positive :
      (profile : Profile)
      → ((key : Text) → AreHeld (trim_space (env key)))
      → (t : ℕ) × (timeout_for_profile parse_duration env profile ≡ pos (suc t))
  unfolding timeout_for_profile
  timeout-positive profile h = let (t, e) = profile_timeout-positive profile h in (t, rw e refl)

  -- Where the numbers of milliseconds of the environment are ones that a duration can hold, every
  -- request has a deadline, no later than the one there was.
  pub with_profile_timeout-some :
      (parent : Option ℕ) (now : ℕ) (profile : Profile)
      → ((key : Text) → AreHeld (trim_space (env key)))
      → (d : ℕ) × (with_profile_timeout parse_duration env parent now profile ≡ some d)
        × NotLater (some d) parent
  with_profile_timeout-some parent now profile h =
      let (t, e) = timeout-positive profile h in
      let (d, f, g, k) = with_profile_timeout-bounds parent now t profile e in (d, f, g)

  -- Where the variable of the default profile is no duration but a number of milliseconds above
  -- 9223372036854 and at most 18446744073709, the requests of the profile are given no deadline.
  pub with_profile_timeout-overflow :
      (parent : Option ℕ) (now n : ℕ)
      → let raw = trim_space (env (text "AWIKI_CLI_TIMEOUT_PROFILE_RPC_DEFAULT")) in
        is_empty raw ≡ false
        → positive (parse_duration raw) ≡ none
        → positive (atoi raw) ≡ some n
        → 9223372036854 < n
        → n ≤ 18446744073709
        → with_profile_timeout parse_duration env parent now rpc_default ≡ parent
  unfolding with_profile_timeout timeout_for_profile profile_timeout duration_from_env
  with_profile_timeout-overflow parent now n e f g h k = rw (e, f, g, large_milliseconds n h k) refl
