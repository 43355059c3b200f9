-- ===== src/Update/Decision/Laws.antt =====
-- When a binary is blocked, and what a failed load leaves.
use awiki_cli.Base.{
  ◌≡◌, refl, Bool, true, false, arith, Option, some, ◌↔◌, Result, ok, err, less, greater, ◌≢◌,
}
use awiki_cli.Text.{Text}
use awiki_cli.Update.Version.{SemVersion, parse_sem_version, compare_parsed, compare_versions}
use awiki_cli.Update.Version.Total.{IsWellFormed, compare_parsed_trans, compare_parsed-equal_iff}
use awiki_cli.Update.Version.Order.{compare_versions-flip}
use awiki_cli.Update.Cache.{Metadata, Resolved, LoadError, CacheFile, World, load_metadata}
use awiki_cli.Update.Decision.{
  Process, check, conclude, decide_with, initial_decision, is_newer, is_below, current_version,
  strict_is_disabled, is_dev_version, ttl_seconds,
}

is_below_iff : (a b : Text) → (is_below a b ≡ true) ↔ (compare_versions a b ≡ some less)
unfolding is_below
is_below_iff a b = ground arith

-- What metadata blocks a process.
pub record IsBlockedBy (p : Process) (resolved : Option Resolved) (meta : Metadata) : Type 0 where
  pub released : is_dev_version p.wide (current_version p) ≡ false
  pub strict : strict_is_disabled p resolved ≡ false
  pub below : compare_versions (current_version p) meta.min_supported_version ≡ some less

decide_with-blocked :
    (p : Process) (resolved : Option Resolved) (meta : Metadata)
    → ((decide_with (initial_decision p resolved) meta).blocked ≡ true)
      ↔ IsBlockedBy p resolved meta
unfolding initial_decision decide_with
decide_with-blocked p resolved meta =
    ground (arith, is_below_iff (current_version p) meta.min_supported_version)

conclude-blocked_iff :
    (p : Process) (resolved : Option Resolved) (r : Result LoadError Metadata × CacheFile)
    → ((conclude (initial_decision p resolved) r).0.blocked ≡ true)
      ↔ ((meta : Metadata) × (r.0 ≡ ok meta) × IsBlockedBy p resolved meta)
unfolding conclude
conclude-blocked_iff p resolved (ok meta, file) =
    let (to, from) = decide_with-blocked p resolved meta in
    (λ h. (meta, refl, to h), λ (m, e, b). from (let same_meta : meta ≡ m = cc in rw same_meta b))
conclude-blocked_iff p resolved (err e, file) =
    (λ h. unfold initial_decision in cc, λ (m, q, b). cc)

-- `check` blocks the binary exactly when metadata could be loaded, the build is no development build,
-- strict versions are not switched off, and the build's version is older than the smallest
-- supported one of that metadata.
pub check-blocked_iff :
    (p : Process) (w : World) (resolved : Option Resolved) (fresh : Bool) (file : CacheFile)
    → ((check p w resolved fresh file).0.blocked ≡ true) ↔ (
        (meta : Metadata) × ((load_metadata w resolved (ttl_seconds p resolved) fresh file).0
          ≡ ok meta)
        × IsBlockedBy p resolved meta)
unfolding check
check-blocked_iff p w resolved fresh file =
    conclude-blocked_iff p resolved (load_metadata w resolved (ttl_seconds p resolved) fresh file)

-- A failed load is reported, and its decision neither blocks nor announces a version.
pub check_failed :
    (p : Process) (w : World) (resolved : Option Resolved) (fresh : Bool) (file : CacheFile)
    (e : LoadError)
    → (load_metadata w resolved (ttl_seconds p resolved) fresh file).0 ≡ err e
    → ((check p w resolved fresh file).1 ≡ some e)
      × ((check p w resolved fresh file).0.blocked ≡ false)
      × ((check p w resolved fresh file).0.has_newer_version ≡ false)
unfolding check conclude initial_decision
check_failed p w resolved fresh file e h = ground arith

-- The versions of the metadata and of the build, parsed and well-formed, with a smallest supported
-- version that is not newer than the latest one.
pub record IsConsistent (p : Process) (meta : Metadata) : Type 0 where
  pub current : SemVersion
  pub latest : SemVersion
  pub floor : SemVersion
  pub current_parsed : parse_sem_version (current_version p) ≡ some current
  pub latest_parsed : parse_sem_version meta.latest_version ≡ some latest
  pub floor_parsed : parse_sem_version meta.min_supported_version ≡ some floor
  pub current_well : IsWellFormed current
  pub latest_well : IsWellFormed latest
  pub floor_well : IsWellFormed floor
  pub floor-le-latest : compare_parsed floor latest ≢ greater

compare_latest :
    {p : Process} {meta : Metadata} (c : IsConsistent p meta)
    → compare_parsed c.current c.floor ≡ less
    → compare_parsed c.current c.latest ≡ less
compare_latest c h = ground (
  arith,
  c.floor-le-latest,
  compare_parsed_trans c.current c.floor c.latest c.current_well c.floor_well c.latest_well,
  compare_parsed-equal_iff c.floor c.latest c.floor_well c.latest_well,
)

is_newer_lem : (a b : Text) → compare_versions b a ≡ some less → is_newer a b ≡ true
unfolding is_newer
is_newer_lem a b h = ground (arith, compare_versions-flip b a)

compare_parsed_of_below :
    {p : Process} {meta : Metadata} (c : IsConsistent p meta)
    → compare_versions (current_version p) meta.min_supported_version ≡ some less
    → compare_parsed c.current c.floor ≡ less
unfolding compare_versions
compare_parsed_of_below c h = ground (arith, c.current_parsed, c.floor_parsed)

newer_of_older :
    (p : Process) (resolved : Option Resolved) (meta : Metadata) (c : IsConsistent p meta)
    → compare_parsed c.current c.latest ≡ less
    → (decide_with (initial_decision p resolved) meta).has_newer_version ≡ true
unfolding decide_with initial_decision compare_versions
newer_of_older p resolved meta c h =
    ground (
      arith,
      c.current_parsed,
      c.latest_parsed,
      is_newer_lem meta.latest_version (current_version p),
    )

-- Metadata that blocks a binary also announces a newer version to it, if its smallest supported
-- version is not newer than its latest one and the versions are well-formed: there is a release
-- to update to.
pub blocked-has_newer :
    (p : Process) (resolved : Option Resolved) (meta : Metadata)
    → IsConsistent p meta
    → (decide_with (initial_decision p resolved) meta).blocked ≡ true
    → (decide_with (initial_decision p resolved) meta).has_newer_version ≡ true
blocked-has_newer p resolved meta c h =
    let b = (decide_with-blocked p resolved meta).0 h in
    let older = compare_parsed_of_below c b.below in
    newer_of_older p resolved meta c (compare_latest c older)
