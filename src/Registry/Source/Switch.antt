-- ===== src/Registry/Source/Switch.antt =====
-- When a list takes effect (`RegistrySource.approved_at`, sentinel/registry_source.py).
use sentinel_subnet.Attestation.{Crypto}
use sentinel_subnet.Registry.{Readers, Registry, active_at, digest, measurements, parse}
use sentinel_subnet.Registry.Parse.{parse-reload}
use sentinel_subnet.Registry.Source.{
  Cached, RegistrySource, approved_at, current, digest_of, is_stale, json_digest, load_cache,
  new_source, promote, save_cache, warn_fallback,
}
use sentinel_subnet.Base.Result.{ok}
use sentinel_subnet.Base.Text.{Text, lower}
use sentinel_subnet.Base.Int.{ℤ}
use sentinel_subnet.Base.{
  Bool, Bool-cases, List, Option, Option-cases, arith, false, inl, inr, map, none, refl, some, true,
  ℕ, ◌≡◌, ◌⊎◌,
}

module _ (c : Crypto) (r : Readers) where
  -- The list waits, or is in use.
  abbrev pub Held : Registry → RegistrySource → Type 0
  Held g s = (s.pending ≡ some g) ⊎ ((s.pending ≡ none) × (s.active ≡ some g))

  pub current-kept :
      (now : ℕ) (s : RegistrySource)
      → ((current c r now s).1.active ≡ s.active)
        × ((current c r now s).1.pending ≡ s.pending)
        × ((current c r now s).1.fallback ≡ s.fallback)
  unfolding current warn_fallback
  current-kept now s = elim (Option-cases s.active) [
    | inl nothing ↦ elim (Bool-cases (is_stale now s)) [
      | inl stale ↦ ground (arith, stale)
      | inr fresh ↦ ground (arith, fresh)
    ]
    | inr (g, used) ↦ ground arith
  ]

  save_cache-kept :
      (g : Registry) (s : RegistrySource)
      → ((save_cache c r g s).active ≡ s.active) × ((save_cache c r g s).pending ≡ s.pending)
  unfolding save_cache
  save_cache-kept g s = ground arith

  promote-now :
      (block : ℕ) (g : Registry) (s : RegistrySource)
      → s.pending ≡ some g
      → active_at g block ≡ true
      → ((promote c r block s).pending ≡ none) × ((promote c r block s).active ≡ some g)
  unfolding promote
  promote-now block g s waits now =
      let kept = save_cache-kept g (record s { active = some g; pending = none }) in
      ground (arith, kept, waits, now)

  pub promote-later :
      (block : ℕ) (g : Registry) (s : RegistrySource)
      → s.pending ≡ some g
      → active_at g block ≡ false
      → promote c r block s ≡ s
  unfolding promote
  promote-later block g s waits later = ground (arith, waits, later)

  promote-none : (block : ℕ) (s : RegistrySource) → s.pending ≡ none → promote c r block s ≡ s
  unfolding promote
  promote-none block s h = ground arith

  pub approved_at-Held :
      (now block : ℕ) (g : Registry) (s : RegistrySource)
      → Held g s
      → Held g (approved_at c r now block s).1
  unfolding approved_at
  approved_at-Held now block g s h =
      let kept = current-kept now (promote c r block s) in
      ground (arith, kept, h, promote-now block g s, promote-later block g s, promote-none block s)

  pub Held-approved :
      (now block : ℕ) (g : Registry) (s : RegistrySource)
      → Held g s
      → active_at g block ≡ true
      → (approved_at c r now block s).0 ≡ ok (measurements g)
  unfolding approved_at current
  Held-approved now block g s h a =
      ground (arith, h, promote-now block g s, promote-none block s, a)

  pub current-fallback :
      (now : ℕ) (s t : RegistrySource)
      → s.active ≡ t.active
      → s.fallback ≡ t.fallback
      → (current c r now s).0 ≡ (current c r now t).0
  unfolding current
  current-fallback now s t a f = ground (arith, a, f)

  load_cache-file :
      (s : RegistrySource) (file : Cached) (g : Registry)
      → s.cache ≡ some file
      → parse c r file.body (some file.file_digest) file.effective_from ≡ ok g
      → (load_cache c r s).active ≡ some g
  unfolding load_cache
  load_cache-file s file g h p = ground (arith, h, p)

  -- A list that was accepted and took effect is found in the cache by the next run of the program,
  -- where the cache can be written. Hexadecimal digests are in lower case.
  pub cache_survives :
      (body : Text) (expected : Option Text) (height : ℤ) (g : Registry) (s : RegistrySource)
      (block stale_after : ℕ) (fallback : List Text) (writable : Bool)
      → ((m : Text) → lower (c.sha256 m) ≡ c.sha256 m)
      → parse c r body expected height ≡ ok g
      → s.pending ≡ some g
      → active_at g block ≡ true
      → s.writable ≡ true
      → (new_source c r fallback stale_after writable (promote c r block s).cache).active ≡ some g
  unfolding new_source promote save_cache digest_of json_digest
  cache_survives body expected height g s block stale_after fallback writable lowercase accepted
        waits now can =
      let (payload, loaded, again) = parse-reload c r body expected height g lowercase accepted in
      load_cache-file
        (record {
          fallback = map lower fallback;
          stale_after = stale_after;
          writable = writable;
          active = none;
          pending = none;
          last_success = none;
          warned_stale = false;
          cache = (promote c r block s).cache;
        })
        (record {
          file_digest = digest c payload;
          effective_from = g.effective_from;
          body = g.source;
        })
        g (rw (waits, now, can, loaded) refl) again
