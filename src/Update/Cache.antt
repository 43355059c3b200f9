-- ===== src/Update/Cache.antt =====
-- internal/update/update.go: the metadata, its cache file and the registries. A time is a number of
-- nanoseconds, and none is Go's zero time.
pub mod Laws
use Prim.Native.Nat.{min}
use awiki_cli.Base.{
  ℕ, ◌+◌, ◌-◌, ◌*◌, ◌%◌, Bool, true, false, not, List, [], ◌∷◌, ◌++◌, Option, none, some, ltb, leb,
  ◌==◌, if◌then◌else◌, Result, ok, err, ◌&&◌,
}
use awiki_cli.Base.Int.{ℤ, pos, negsuc}
use awiki_cli.Text.{Text, text, trim_space, is_blank, is_empty}
use awiki_cli.Text.Number.{max_int}

pub record Metadata : Type 0 where
  pub latest_version : Text
  pub min_supported_version : Text
  pub retrieved_at : Option ℕ
  pub source : Text

abbrev pub no_metadata : Metadata
no_metadata = record {
  latest_version = [];
  min_supported_version = [];
  retrieved_at = none;
  source = [];
}

-- The part of the resolved configuration that the package reads.
pub record Resolved : Type 0 where
  pub update_disable_strict_version : Bool
  pub update_metadata_cache_ttl_seconds : ℤ
  pub cache_dir : Text

-- Why one registry gave no metadata.
pub data FetchError : Type 0 where
  transport : Text → FetchError
  bad_status : ℕ → FetchError
  bad_body : FetchError
  no_version : FetchError

pub data LoadError : Type 0 where
  no_cached_metadata : LoadError
  no_registries : LoadError
  all_failed : List (Text × FetchError) → LoadError

-- What a registry answers; a body that does not decode is none, another has the two versions.
pub record Response : Type 0 where
  pub status : ℕ
  pub body : Option (Text × Text)

-- The body of a response with status 200.
unfoldable pub read_body : ℕ → Option (Text × Text) → Result FetchError Metadata
unfolding trim_space
read_body now none = err bad_body
read_body now (some (version, floor)) =
    let latest = trim_space version in
    if is_empty latest
    then err no_version
    else ok (record {
      latest_version = latest;
      min_supported_version = trim_space floor;
      retrieved_at = some now;
      source = text "network";
    })

-- `fetchFromRegistryURL` behind the client's call
unfoldable pub read_response : ℕ → Result FetchError Response → Result FetchError Metadata
unfolding read_body
read_response now (err e) = err e
read_response now (ok r) =
    if not (r.status == 200) then err (bad_status r.status) else read_body now r.body

-- The loop of `fetchFromRegistryURLs`; `get` is the HTTP client.
unfoldable pub fetch_from :
    (Text → Result FetchError Response)
    → ℕ
    → List (Text × FetchError)
    → List Text
    → Result LoadError Metadata
fetch_from get now errs [] = err (all_failed errs)
fetch_from get now errs (url ∷ urls) = elim (read_response now (get url)) [
  | ok meta ↦ ok meta
  | err e ↦ fetch_from get now (errs ++ ((url, e) ∷ [])) urls
]

unfoldable pub fetch_from_registry_urls :
    (Text → Result FetchError Response) → ℕ → List Text → Result LoadError Metadata
fetch_from_registry_urls get now [] = err no_registries
fetch_from_registry_urls get now (url ∷ urls) = fetch_from get now [] (url ∷ urls)

-- The cache file.
pub data CacheFile : Type 0 where
  missing : CacheFile
  unreadable : CacheFile
  malformed : CacheFile
  holds : Metadata → CacheFile

-- The three results of `readCache`.
pub record CacheRead : Type 0 where
  pub meta : Metadata
  pub fresh : Bool
  pub failed : Bool

-- `time.Duration(ttlSeconds) * time.Second`, which wraps at 64 bits.
abbrev pub ttl_duration : ℕ → ℤ
ttl_duration ttl =
    let bits = ttl * 1000000000 % 18446744073709551616 in
    if leb bits max_int then pos bits else negsuc (18446744073709551616 - bits - 1)

-- `time.Since(at) > d`; a difference of times stops at the largest duration.
unfoldable pub is_older : ℕ → ℕ → ℤ → Bool
is_older now at (pos d) = ltb d (min (now - at) max_int)
is_older now at (negsuc d) = leb (at - now) d

unfoldable pub read_holding : ℕ → ℕ → Option ℕ → Metadata → CacheRead
unfolding is_older
read_holding now ttl none meta = record { meta = meta; fresh = true; failed = false }
read_holding now ttl (some at) meta =
    if ttl == 0
    then record { meta = meta; fresh = true; failed = false }
    else if is_older now at (ttl_duration ttl)
    then record { meta = no_metadata; fresh = false; failed = false }
    else record { meta = meta; fresh = true; failed = false }

-- `ttl` is the effective lifetime in seconds, which its callers keep positive.
unfoldable pub read_cache : ℕ → ℕ → CacheFile → CacheRead
unfolding read_holding
read_cache now ttl missing = record { meta = no_metadata; fresh = false; failed = false }
read_cache now ttl unreadable = record { meta = no_metadata; fresh = false; failed = true }
read_cache now ttl malformed = record { meta = no_metadata; fresh = false; failed = true }
read_cache now ttl (holds meta) = read_holding now ttl meta.retrieved_at meta

-- `cachePath` gives no path without a configuration or a cache directory.
unfoldable pub has_cache_path : Option Resolved → Bool
unfolding is_blank
has_cache_path none = false
has_cache_path (some r) = not (is_blank r.cache_dir)

-- What the process reads from outside: the clock, AWIKI_CLI_UPDATE_CACHE_ONLY, the answer of the
-- registries, and what an attempt to write a file leaves on disk.
pub record World : Type 0 where
  pub now : ℕ
  pub cache_only : Bool
  pub network : Result LoadError Metadata
  pub after_write : Metadata → CacheFile

-- `writeCache` stamps the metadata with the time.
unfoldable pub write_cache : World → Metadata → CacheFile
write_cache w meta = w.after_write (record meta { retrieved_at = some w.now })

abbrev pub cached_as : Metadata → Text → Metadata
cached_as meta source = record meta { source = source }

-- What `loadMetadata` remembers of a cache read that it does not return.
unfoldable pub remembered : CacheRead → Metadata
remembered r =
    if r.failed then no_metadata else if r.fresh then cached_as r.meta (text "cache") else r.meta

-- The rest of `loadMetadata`, given what it remembers.
unfoldable pub from_network :
    World
    → Bool
    → CacheFile
    → Metadata
    → Result LoadError Metadata
    → Result LoadError Metadata × CacheFile
unfolding write_cache
from_network w cacheable file cached (ok meta) =
    (ok meta, if cacheable then write_cache w meta else file)
from_network w cacheable file cached (err e) = (
  if not (is_empty cached.latest_version)
      then ok (cached_as cached (text "cache_stale"))
      else err e,
  file,
)

unfoldable pub beyond_cache :
    World → Bool → CacheFile → Metadata → Result LoadError Metadata × CacheFile
unfolding from_network
beyond_cache w cacheable file cached =
    if w.cache_only
    then (if not (is_empty cached.latest_version) then ok cached else err no_cached_metadata, file)
    else from_network w cacheable file cached w.network

-- The metadata, and the cache file afterwards.
unfoldable pub load_metadata :
    World → Option Resolved → ℕ → Bool → CacheFile → Result LoadError Metadata × CacheFile
unfolding beyond_cache remembered has_cache_path read_cache
load_metadata w resolved ttl prefer_fresh file =
    let r = read_cache w.now ttl file in
    if has_cache_path resolved
    then (if not r.failed && r.fresh && not prefer_fresh
        then (ok (cached_as r.meta (text "cache")), file)
        else beyond_cache w true file (remembered r))
    else beyond_cache w false file no_metadata
