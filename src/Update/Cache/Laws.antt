-- ===== src/Update/Cache/Laws.antt =====
-- The order in which metadata is looked for, and what a failure of one source leaves.
use awiki_cli.Base.{
  Result-cases, Bool-cases, ℕ, ◌≡◌, refl, Bool, true, false, arith, ◌<◌, Option, some, ◌⊎◌, Result,
  ok, err, inl, inr, List, [], ◌∷◌, ◌++◌, All, map, append_assoc, append-nil, ap, ◌∙◌,
}
use awiki_cli.Text.{Text, text, is_empty}
use awiki_cli.Update.Cache.{
  Metadata, Resolved, LoadError, all_failed, FetchError, Response, read_response, fetch_from,
  fetch_from_registry_urls, CacheFile, holds, missing, from_network, beyond_cache, no_metadata,
  remembered, ttl_duration, is_older, read_cache, read_holding, has_cache_path, World, write_cache,
  cached_as, load_metadata,
}

-- The file holds metadata that its lifetime has not passed.
abbrev pub IsFresh : World → ℕ → CacheFile → Metadata → Type 0
IsFresh w ttl file meta =
    read_cache w.now ttl file ≡ record { meta = meta; fresh = true; failed = false }

-- With a fresh cache file and no wish for fresh data the file's metadata is the result, whatever
-- the registries would answer, and the file stays as it is.
pub load-fresh :
    (w : World) (resolved : Option Resolved) (ttl : ℕ) (file : CacheFile) (meta : Metadata)
    → has_cache_path resolved ≡ true
    → IsFresh w ttl file meta
    → load_metadata w resolved ttl false file ≡ (ok (cached_as meta (text "cache")), file)
unfolding load_metadata
load-fresh w resolved ttl file meta c h = ground arith

-- Off cache-only mode, and unless a fresh cache file may answer, the registries' metadata is the
-- result, and it is written to the cache with the time.
pub load-network :
    (w : World) (resolved : Option Resolved) (ttl : ℕ) (fresh : Bool) (file : CacheFile)
    (meta : Metadata)
    → has_cache_path resolved ≡ true
    → w.cache_only ≡ false
    → w.network ≡ ok meta
    → (fresh ≡ true) ⊎ ((read_cache w.now ttl file).fresh ≡ false)
    → load_metadata w resolved ttl fresh file ≡ (ok meta, write_cache w meta)
unfolding load_metadata
load-network w resolved ttl fresh file meta c o n s = ground arith

-- When the registries fail, a check that prefers fresh data falls back to a fresh cache file that
-- names a version, and marks the metadata as stale.
pub load-fallback :
    (w : World) (resolved : Option Resolved) (ttl : ℕ) (file : CacheFile) (meta : Metadata)
    (e : LoadError)
    → has_cache_path resolved ≡ true
    → w.cache_only ≡ false
    → w.network ≡ err e
    → IsFresh w ttl file meta
    → is_empty meta.latest_version ≡ false
    → load_metadata w resolved ttl true file ≡ (ok (cached_as meta (text "cache_stale")), file)
unfolding load_metadata
load-fallback w resolved ttl file meta e c o n s v = ground arith

-- The metadata in the file has passed its lifetime.
pub record IsExpired (w : World) (ttl : ℕ) (meta : Metadata) : Type 0 where
  pub positive : 0 < ttl
  pub at : ℕ
  pub retrieved : meta.retrieved_at ≡ some at
  pub older : is_older w.now at (ttl_duration ttl) ≡ true

read-expired :
    (w : World) (ttl : ℕ) (meta : Metadata)
    → IsExpired w ttl meta
    → read_cache w.now ttl (holds meta)
      ≡ record { meta = no_metadata; fresh = false; failed = false }
unfolding read_cache read_holding
read-expired w ttl meta x = rw (x.retrieved) (ground (arith, x.positive, x.older))

from_network-file :
    (w : World) (b : Bool) (f g : CacheFile) (m : Metadata) (r : Result LoadError Metadata)
    → (from_network w b f m r).0 ≡ (from_network w b g m r).0
unfolding from_network
from_network-file w b f g m (ok meta) = refl
from_network-file w b f g m (err e) = refl

beyond_cache-file :
    (w : World) (b : Bool) (f g : CacheFile) (m : Metadata)
    → (beyond_cache w b f m).0 ≡ (beyond_cache w b g m).0
unfolding beyond_cache
beyond_cache-file w b f g m = elim (Bool-cases w.cache_only) [
  | inl e ↦ rw e refl
  | inr e ↦ rw e (from_network-file w b f g m w.network)
]

-- Metadata that has passed its lifetime is never used: in every mode, with and without a preference
-- for fresh data, in cache-only mode, and whatever the registries answer, the result of the load is
-- the one that it has without a cache file.
pub load-expired :
    (w : World) (resolved : Option Resolved) (ttl : ℕ) (fresh : Bool) (meta : Metadata)
    → IsExpired w ttl meta
    → (load_metadata w resolved ttl fresh (holds meta)).0
      ≡ (load_metadata w resolved ttl fresh missing).0
unfolding load_metadata
load-expired w resolved ttl fresh meta x = elim (Bool-cases (has_cache_path resolved)) [
  | inl e ↦
      rw (e, read-expired w ttl meta x)
        (beyond_cache-file w true (holds meta) missing
          (remembered (record { meta = no_metadata; fresh = false; failed = false })))
  | inr e ↦ rw e (beyond_cache-file w false (holds meta) missing no_metadata)
]

-- In cache-only mode nothing is written, and the result does not depend on the registries.
pub load-cache_only :
    (w : World) (resolved : Option Resolved) (ttl : ℕ) (fresh : Bool) (file : CacheFile)
    (other : Result LoadError Metadata)
    → w.cache_only ≡ true
    → (load_metadata w resolved ttl fresh file
        ≡ load_metadata (record w { network = other }) resolved ttl fresh file)
      × ((load_metadata w resolved ttl fresh file).1 ≡ file)
unfolding load_metadata
load-cache_only w resolved ttl fresh file other o = ground arith

-- A registry gives the metadata that the search returns, and each registry before it failed.
pub data IsFirst (get : Text → Result FetchError Response) (now : ℕ) (meta : Metadata)
    : List Text → Type 0 where
  here :
      {url : Text} {urls : List Text}
      → read_response now (get url) ≡ ok meta
      → IsFirst get now meta (url ∷ urls)
  later :
      {url : Text} {urls : List Text} {e : FetchError}
      → read_response now (get url) ≡ err e
      → IsFirst get now meta urls
      → IsFirst get now meta (url ∷ urls)

-- Each registry of the list fails, with the error beside it.
abbrev pub AllFail :
    (Text → Result FetchError Response) → ℕ → List Text → List (Text × FetchError) → Type 0
AllFail get now urls errs =
    (map (λ e. e.0) errs ≡ urls) × All (λ e. read_response now (get e.0) ≡ err e.1) errs

-- The search over the registries, as its two outcomes.
abbrev pub Searches :
    (Text → Result FetchError Response) → ℕ → List Text → Result LoadError Metadata → Type 0
Searches get now urls (ok meta) = IsFirst get now meta urls
Searches get now urls (err e) =
    (errs : List (Text × FetchError)) × (e ≡ all_failed errs) × AllFail get now urls errs

module _ (get : Text → Result FetchError Response) (now : ℕ) where
  fetch_from-ok :
      (errs : List (Text × FetchError)) (urls : List Text) (meta : Metadata)
      → fetch_from get now errs urls ≡ ok meta
      → IsFirst get now meta urls
  unfolding fetch_from
  fetch_from-ok errs [] meta h = cc
  fetch_from-ok errs (url ∷ urls) meta h = elim (Result-cases (read_response now (get url))) [
    | inl (m, e) ↦ here (ground (arith, e, h))
    | inr (x, e) ↦
        later e (fetch_from-ok (errs ++ ((url, x) ∷ [])) urls meta (ground (arith, e, h)))
  ]

  fetch_from-err :
      (errs : List (Text × FetchError)) (urls : List Text) (e : LoadError)
      → fetch_from get now errs urls ≡ err e
      → (more : List (Text × FetchError)) × (e ≡ all_failed (errs ++ more))
        × AllFail get now urls more
  unfolding fetch_from
  fetch_from-err errs [] e h = ([], rw append-nil (cc), (refl, tt))
  fetch_from-err errs (url ∷ urls) e h = elim (Result-cases (read_response now (get url))) [
    | inl (m, q) ↦ absurd (ground (arith, q, h))
    | inr (x, q) ↦
        let (more, same, fails) =
          fetch_from-err (errs ++ ((url, x) ∷ [])) urls e (ground (arith, q, h)) in
        (
          ((url, x) ∷ more),
          same ∙ ap all_failed (append_assoc errs ((url, x) ∷ []) more),
          (ap (λ r. url ∷ r) fails.0, (q, fails.1)),
        )
  ]

  -- The search over a list of registries returns the metadata of the first one that answers well,
  -- and fails only with the error of every one of them, in order.
  pub fetch-Searches :
      (url : Text) (urls : List Text)
      → Searches get now (url ∷ urls) (fetch_from_registry_urls get now (url ∷ urls))
  unfolding fetch_from_registry_urls
  fetch-Searches url urls = elim (Result-cases (fetch_from get now [] (url ∷ urls))) [
    | inl (m, e) ↦ rw e (fetch_from-ok [] (url ∷ urls) m e)
    | inr (x, e) ↦ rw e (fetch_from-err [] (url ∷ urls) x e)
  ]
