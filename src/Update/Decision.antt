-- ===== src/Update/Decision.antt =====
-- internal/update/update.go: Check, CheckFresh, check and the tests on the version and environment.
pub mod Laws
use awiki_cli.Base.{
  ℕ, Bool, true, false, not, ◌&&◌, ◌||◌, Option, none, some, [], ltb, if◌then◌else◌, Result, ok,
  err, Sign, is_less, is_greater,
}
use awiki_cli.Base.Int.{ℤ, pos, negsuc}
use awiki_cli.Text.{Text, text, same, trim_space, is_empty, has_prefix, contains, to_lower}
use awiki_cli.Text.Number.{atoi}
use awiki_cli.Update.Version.{compare_versions}
use awiki_cli.Update.Cache.{Metadata, Resolved, LoadError, CacheFile, World, load_metadata}

pub record Decision : Type 0 where
  pub current_version : Text
  pub latest_version : Text
  pub min_supported_version : Text
  pub metadata_source : Text
  pub strict_disabled : Bool
  pub dev_build : Bool
  pub has_newer_version : Bool
  pub blocked : Bool

-- The build's version and the environment variables AWIKI_CLI_DISABLE_STRICT_VERSION and
-- AWIKI_CLI_UPDATE_CACHE_TTL, empty when unset; `wide` is unicode.ToLower beyond ASCII.
pub record Process : Type 0 where
  pub version : Text
  pub disable_strict_version : Text
  pub cache_ttl : Text
  pub wide : ℕ → ℕ

unfoldable pub parse_bool : (ℕ → ℕ) → Text → Bool
unfolding same trim_space to_lower
parse_bool wide raw =
    let s = trim_space (to_lower wide raw) in
    same s (text "1") || same s (text "true") || same s (text "yes") || same s (text "on")

unfoldable pub is_dev_version : (ℕ → ℕ) → Text → Bool
unfolding same trim_space to_lower has_prefix contains
is_dev_version wide v =
    let s = trim_space (to_lower wide v) in
    is_empty s || same s (text "dev") || contains s (text "-dev") || has_prefix s (text "0.0.0-")

-- The version that `check` works with.
unfoldable pub current_version : Process → Text
unfolding trim_space
current_version p = let v = trim_space p.version in if is_empty v then text "dev" else v

abbrev pub configured_strict : Option Resolved → Bool
configured_strict none = false
configured_strict (some r) = r.update_disable_strict_version

-- The environment overrides the configuration.
unfoldable pub strict_is_disabled : Process → Option Resolved → Bool
unfolding parse_bool
strict_is_disabled p resolved =
    let raw = trim_space p.disable_strict_version in
    if is_empty raw then configured_strict resolved else parse_bool p.wide raw

abbrev pub default_ttl : ℕ
default_ttl = 43200

-- A positive number, or the value before.
abbrev pub positive_or : ℕ → ℤ → ℕ
positive_or before (pos n) = if ltb 0 n then n else before
positive_or before (negsuc n) = before

abbrev pub configured_ttl : Option Resolved → ℕ
configured_ttl none = default_ttl
configured_ttl (some r) = positive_or default_ttl r.update_metadata_cache_ttl_seconds

abbrev pub overridden_ttl : ℕ → Option ℤ → ℕ
overridden_ttl before none = before
overridden_ttl before (some n) = positive_or before n

unfoldable pub ttl_seconds : Process → Option Resolved → ℕ
unfolding atoi trim_space
ttl_seconds p resolved =
    let raw = trim_space p.cache_ttl in
    if is_empty raw
    then configured_ttl resolved
    else overridden_ttl (configured_ttl resolved) (atoi raw)

unfoldable pub initial_decision : Process → Option Resolved → Decision
initial_decision p resolved = record {
  current_version = current_version p;
  latest_version = [];
  min_supported_version = [];
  metadata_source = [];
  strict_disabled = strict_is_disabled p resolved;
  dev_build = is_dev_version p.wide (current_version p);
  has_newer_version = false;
  blocked = false;
}

-- `cmp, ok := compareVersions(a, b); ok && cmp > 0`
unfoldable pub is_newer : Text → Text → Bool
is_newer a b = elim (compare_versions a b) [ none ↦ false | some s ↦ is_greater s ]

-- `cmp, ok := compareVersions(a, b); ok && cmp < 0`
unfoldable pub is_below : Text → Text → Bool
is_below a b = elim (compare_versions a b) [ none ↦ false | some s ↦ is_less s ]

-- What the metadata adds to the decision.
unfoldable pub decide_with : Decision → Metadata → Decision
decide_with d meta =
    let seen = record d {
      latest_version = meta.latest_version;
      min_supported_version = meta.min_supported_version;
      metadata_source = meta.source;
      has_newer_version = is_newer meta.latest_version d.current_version;
    } in
    if d.dev_build then seen else record seen {
      blocked = not d.strict_disabled && is_below d.current_version meta.min_supported_version;
    }

unfoldable pub conclude :
    Decision → Result LoadError Metadata × CacheFile → Decision × Option LoadError × CacheFile
conclude d (ok meta, file) = (decide_with d meta, none, file)
conclude d (err e, file) = (d, some e, file)

-- `check`: the decision, the error and the cache file afterwards. The decision stays usable when
-- the metadata cannot be loaded.
unfoldable pub check :
    Process → World → Option Resolved → Bool → CacheFile → Decision × Option LoadError × CacheFile
unfolding conclude
check p w resolved prefer_fresh file =
    conclude (initial_decision p resolved)
      (load_metadata w resolved (ttl_seconds p resolved) prefer_fresh file)
