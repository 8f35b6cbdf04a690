-- ===== src/Registry/Source.antt =====
-- sentinel/registry_source.py: where a validator gets its approved measurements. The chain's answer,
-- the web server's and the clock are arguments; the cache file is given by what it holds, decoded.
pub mod Switch
pub mod Refresh
pub mod Rounds
use sentinel_subnet.Attestation.{Crypto}
use sentinel_subnet.Registry.{
  Readers, Registry, RegistryError, active_at, crashed, digest, measurements, no_measurements,
  not_https, parse, parse_bytes, too_large, unfetched,
}
use sentinel_subnet.Base.Json.{Json, obj}
use sentinel_subnet.Base.Result.{Result, err, ok, or_raise, raise_if, ◌>>=◌, ◌>>◌}
use sentinel_subnet.Base.Text.{Text, codes, lower, starts_with, text_eq}
use sentinel_subnet.Base.Int.{ℤ}
use sentinel_subnet.Base.{
  Bool, List, Option, [], false, if◌then◌else◌, is_some, length, ltb, map, none, not, some, true, ℕ,
  ◌&&◌, ◌-◌, ◌||◌, ◌∷◌,
}

abbrev pub max_registry_bytes : ℕ
max_registry_bytes = 262144

-- The file that `_save_cache` writes.
pub record Cached : Type 0 where
  pub file_digest : Text
  pub effective_from : ℤ
  pub body : Text

-- `RegistrySource`, with its cache file: `none` is no file, or one that cannot be read.
pub record RegistrySource : Type 0 where
  pub fallback : List Text
  pub stale_after : ℕ
  -- Whether there is a cache path and it can be written.
  pub writable : Bool
  pub active : Option Registry
  pub pending : Option Registry
  pub last_success : Option ℕ
  pub warned_stale : Bool
  pub cache : Option Cached

-- `fetch(url)`, where the server answers a request with bytes or not at all.
unfoldable pub fetch : (server : Text → Option Text) → Text → Result RegistryError Text
unfolding starts_with
fetch server url = do
  raise_if (not (starts_with url (codes "https://"))) not_https
  body ← or_raise (server url) unfetched
  raise_if (ltb max_registry_bytes (length body)) too_large
  ok body

-- `status.stale_for > self.stale_after`, where there was a success
unfoldable pub is_stale : (now : ℕ) → RegistrySource → Bool
is_stale now s = elim s.last_success [ none ↦ false | some t ↦ ltb s.stale_after (now - t) ]

-- `_warn_fallback`, which logs and remembers that it did.
unfoldable pub warn_fallback : (now : ℕ) → RegistrySource → RegistrySource
unfolding is_stale
warn_fallback now s =
    if not (is_some s.active) && is_stale now s then record s { warned_stale = true } else s

-- What reading the manifest gave: an exception, none published, or height, digest and URL.
pub data Found : Type 0 where
  chain_trouble no_manifest : Found
  manifest : (effective_from : ℤ) (expected url : Text) → Found

module _ (c : Crypto) (r : Readers) where
  -- `digest(json)`, where it is an object
  unfoldable pub json_digest : Json → Option Text
  unfolding digest
  json_digest (obj payload) = some (digest c payload)
  json_digest _ = none

  -- `digest_of`: `none` is an exception.
  unfoldable pub digest_of : Registry → Option Text
  unfolding json_digest
  digest_of g = elim (r.loads g.source) [ none ↦ none | some json ↦ json_digest json ]

  -- `_save_cache`, called with an active list
  unfoldable pub save_cache : Registry → RegistrySource → RegistrySource
  unfolding digest_of
  save_cache g s =
      if s.writable
      then (elim (digest_of g) [
        | none ↦ s
        | some d ↦ record s {
          cache =
              some (record { file_digest = d; effective_from = g.effective_from; body = g.source });
        }
      ])
      else s

  -- `_load_cache`: what cannot be read, or does not pass, is ignored.
  unfoldable pub load_cache : RegistrySource → RegistrySource
  unfolding parse
  load_cache s = elim s.cache [
    | none ↦ s
    | some file ↦ elim (parse c r file.body (some file.file_digest) file.effective_from) [
      | ok g ↦ record s { active = some g }
      | err e ↦ s
    ]
  ]

  -- `__init__`
  unfoldable pub new_source :
      (fallback : List Text) (stale_after : ℕ) (writable : Bool) (cache : Option Cached)
      → RegistrySource
  unfolding load_cache lower
  new_source fallback stale_after writable cache = load_cache (record {
    fallback = map lower fallback;
    stale_after = stale_after;
    writable = writable;
    active = none;
    pending = none;
    last_success = none;
    warned_stale = false;
    cache = cache;
  })

  -- The first part of `approved_at`: a pending list whose height has come takes effect.
  unfoldable pub promote : (block : ℕ) → RegistrySource → RegistrySource
  unfolding active_at save_cache
  promote block s = elim s.pending [
    | none ↦ s
    | some g ↦
        if active_at g block then save_cache g (record s { active = some g; pending = none }) else s
  ]

  -- The rest: the active list, or what the operator gave.
  unfoldable pub current :
      (now : ℕ) → RegistrySource → Result RegistryError (List Text) × RegistrySource
  unfolding measurements warn_fallback
  current now s = elim s.active [
    | some g ↦ (ok (measurements g), s)
    | none ↦ elim s.fallback [
      | [] ↦ (err no_measurements, s)
      | m ∷ ms ↦ (ok (m ∷ ms), warn_fallback now s)
    ]
  ]

  unfoldable pub approved_at :
      (now block : ℕ) → RegistrySource → Result RegistryError (List Text) × RegistrySource
  unfolding promote current
  approved_at now block s = current now (promote block s)

  -- `expected in known`
  unfoldable pub is_known : Text → RegistrySource → Bool
  unfolding digest_of text_eq
  is_known expected s =
      let held : Option Registry → Bool = λ o. elim o [
        | none ↦ false
        | some g ↦ elim (digest_of g) [ none ↦ false | some d ↦ text_eq expected d ]
      ] in
      held s.active || held s.pending

  -- The end of `refresh`, with the file that was asked for: an error that is no `RegistryError` leaves
  -- the method.
  unfoldable pub take_over :
      (now : ℕ)
      → Result RegistryError Registry
      → RegistrySource
      → Result RegistryError Bool × RegistrySource
  unfolding warn_fallback
  take_over now (ok g) s =
      (ok true, record s { last_success = some now; warned_stale = false; pending = some g })
  take_over now (err crashed) s = (err crashed, s)
  take_over now (err _) s = (ok false, warn_fallback now s)

  -- `refresh`: the answer is whether anything changed.
  unfoldable pub refresh :
      (now : ℕ) (server : Text → Option Text)
      → Found
      → RegistrySource
      → Result RegistryError Bool × RegistrySource
  unfolding warn_fallback is_known fetch parse_bytes take_over
  refresh now server chain_trouble s = (ok false, warn_fallback now s)
  refresh now server no_manifest s = (ok false, warn_fallback now s)
  refresh now server (manifest effective_from expected url) s =
      if is_known expected s
      then (ok false, record s { last_success = some now; warned_stale = false })
      else take_over now
          (do body ← fetch server url; parse_bytes c r body (some expected) effective_from) s
