-- ===== src/Update/Tests.antt =====
-- Runs of the update check at concrete versions, caches and registries.
use awiki_cli.Base.{
  ℕ, ◌≡◌, refl, ◌↔◌, Bool, true, false, [], ◌∷◌, arith, Option, some, Result, ok, err, less, equal,
  flip, sign,
}
use mathlib.Core.Option
use awiki_cli.Base.Int.{pos}
use awiki_cli.Text.{
  Text, text, same, lex, trim_left, trim_right, trim_space, is_space, is_blank, has_prefix,
  contains, split, cut, to_lower, join,
}
use awiki_cli.Text.Number.{atoi, value, value_from}
use awiki_cli.Update.Version.{
  SemVersion, parse_part, drop_v, parse_core, parse_tagged, parse_sem_version,
  is_numeric_identifier, trim_zeros, compare_trimmed, compare_numeric_identifiers,
  compare_identifier, compare_identifiers, compare_prerelease, compare_tags, compare_parsed,
  compare_versions,
}
use awiki_cli.Update.Version.Numeric.{compare_numeric_identifiers_lem}
use awiki_cli.Update.Version.Order.{compare_versions-flip}
use awiki_cli.Update.Version.Total.{is_plain, compare_parsed-equal_iff, compare_parsed_trans}
use awiki_cli.Update.Cache.{
  Metadata, Resolved, FetchError, transport, LoadError, all_failed, Response, missing, holds,
  is_older, read_holding, read_cache, has_cache_path, World, write_cache, remembered, from_network,
  beyond_cache, load_metadata,
}
use awiki_cli.Update.Cache.Laws.{load-expired}
use awiki_cli.Update.Decision.{
  Process, parse_bool, is_dev_version, current_version, strict_is_disabled, ttl_seconds,
  initial_decision, is_newer, is_below, decide_with, conclude, check,
}
use awiki_cli.Update.Decision.Laws.{check-blocked_iff, IsBlockedBy, IsConsistent}

-- Everything that a run of the comparison goes through.
versions : Unit {0}
unfolding same lex trim_left trim_right trim_space is_space split cut join atoi value value_from
    parse_part drop_v parse_core parse_tagged parse_sem_version is_numeric_identifier trim_zeros
    compare_trimmed compare_numeric_identifiers compare_identifier compare_identifiers
    compare_prerelease compare_tags compare_parsed compare_versions is_plain
versions = tt

abbrev stable : Text
stable = text "v1.10.0"

abbrev beta : Text
beta = text "1.10.0-beta.11"

beta-stable : compare_versions beta stable ≡ some less
unfolding versions
beta-stable = refl

nine-ten : compare_versions (text "1.9") (text " 1.10 ") ≡ some less
unfolding versions
nine-ten = refl

compare_versions-flip_example :
    compare_versions stable beta ≡ Option.map flip (compare_versions beta stable)
compare_versions-flip_example = compare_versions-flip beta stable

compare_numeric_identifiers_lem_example :
    compare_numeric_identifiers (text "007") (text "11")
    ≡ sign (value (text "007")) (value (text "11"))
unfolding versions
compare_numeric_identifiers_lem_example =
    compare_numeric_identifiers_lem (text "007") (text "11") refl refl

abbrev version : ℕ → Text → SemVersion
version minor pre = record { major = 1; minor = minor; patch = 0; pre = pre }

compare_parsed-equal_iff_example :
    (compare_parsed (version 10 (text "rc.2")) (version 10 (text "rc.2")) ≡ equal)
    ↔ (version 10 (text "rc.2") ≡ version 10 (text "rc.2"))
unfolding versions
compare_parsed-equal_iff_example =
    compare_parsed-equal_iff (version 10 (text "rc.2")) (version 10 (text "rc.2")) refl refl

compare_parsed_trans_example : compare_parsed (version 10 (text "rc.2")) (version 10 []) ≡ less
unfolding versions
compare_parsed_trans_example =
    compare_parsed_trans (version 10 (text "rc.2")) (version 10 (text "rc.11")) (version 10 []) refl
      refl refl refl refl

abbrev meta_from : Text → Metadata
meta_from source = record {
  latest_version = text "1.10.0";
  min_supported_version = text "1.2.0";
  retrieved_at = some 1000;
  source = source;
}

abbrev configured : Option Resolved
configured = some (record {
  update_disable_strict_version = false;
  update_metadata_cache_ttl_seconds = pos 0;
  cache_dir = text "/tmp";
})

abbrev down : LoadError
down = all_failed ((text "https://registry", transport (text "timeout")) ∷ [])

abbrev world : ℕ → Bool → Result LoadError Metadata → World
world now cache_only network = record {
  now = now;
  cache_only = cache_only;
  network = network;
  after_write = holds;
}

-- Everything that a run of loadMetadata goes through.
caches : Unit {0}
unfolding trim_left trim_right trim_space is_space is_blank is_older read_holding read_cache
    has_cache_path write_cache remembered from_network beyond_cache load_metadata
caches = tt

load-expired_example :
    (load_metadata
      (world 2000000001001 false (err down))
      configured
      2
      false
      (holds (meta_from []))).0
    ≡ (load_metadata (world 2000000001001 false (err down)) configured 2 false missing).0
unfolding caches
load-expired_example =
    load-expired (world 2000000001001 false (err down)) configured 2 false (meta_from [])
      (record { positive = omega arith; at = 1000; retrieved = refl; older = refl })

-- The first registry is down, the second answers.
abbrev registries : Text → Result FetchError Response
registries url = elim (same url (text "a")) [
  | true ↦ err (transport (text "timeout"))
  | false ↦ ok (record { status = 200; body = some (text "1.2.3", text "1.0.0") })
]

abbrev process : Text → Process
process v = record { version = v; disable_strict_version = []; cache_ttl = []; wide = λ c. c }

-- Everything that a run of the check goes through.
checks : Unit {0}
unfolding versions caches to_lower has_prefix contains parse_bool is_dev_version current_version
    strict_is_disabled ttl_seconds initial_decision is_newer is_below decide_with conclude check
checks = tt

old-blocked :
    (check
      (process (text "1.1.9"))
      (world 5 false (ok (meta_from [])))
      configured
      false
      missing).0.blocked
    ≡ true
unfolding checks
old-blocked = refl

check-blocked_iff_example :
    ((check
        (process (text "1.1.9"))
        (world 5 false (ok (meta_from [])))
        configured
        false
        missing).0.blocked
      ≡ true)
    ↔ ((meta : Metadata) × ((load_metadata
            (world 5 false (ok (meta_from [])))
            configured
            (ttl_seconds (process (text "1.1.9")) configured)
            false
            missing).0
          ≡ ok meta)
        × IsBlockedBy (process (text "1.1.9")) configured meta)
check-blocked_iff_example =
    check-blocked_iff (process (text "1.1.9")) (world 5 false (ok (meta_from []))) configured false
      missing

consistent : IsConsistent (process (text "1.1.9")) (meta_from [])
unfolding checks
consistent = record {
  current = record { major = 1; minor = 1; patch = 9; pre = [] };
  latest = record { major = 1; minor = 10; patch = 0; pre = [] };
  floor = record { major = 1; minor = 2; patch = 0; pre = [] };
  current_parsed = refl;
  latest_parsed = refl;
  floor_parsed = refl;
  current_well = refl;
  latest_well = refl;
  floor_well = refl;
  floor-le-latest = λ e. ground arith;
}
