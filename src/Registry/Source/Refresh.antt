-- ===== src/Registry/Source/Refresh.antt =====
-- What a refresh changes (`RegistrySource.refresh`, sentinel/registry_source.py).
use sentinel_subnet.Attestation.{Crypto}
use sentinel_subnet.Base.Json.{Fields, obj}
use sentinel_subnet.Registry.{
  Readers, Registry, RegistryError, active_at, crashed, digest, parse_bytes,
}
use sentinel_subnet.Registry.Parse.{parse_sound}
use sentinel_subnet.Registry.Source.{
  Found, RegistrySource, approved_at, chain_trouble, current, fetch, is_known, is_stale, manifest,
  no_manifest, refresh, take_over, warn_fallback,
}
use sentinel_subnet.Registry.Source.Switch.{current-fallback, promote-later}
use sentinel_subnet.Base.Result.{>>=-eq-ok, Result, err, ok, or_raise, ◌>>=◌}
use sentinel_subnet.Base.Text.{Text, lower}
use sentinel_subnet.Base.Int.{ℤ}
use sentinel_subnet.Base.{
  Bool, Bool-cases, Option, ap, false, inl, inr, is_some, not, refl, some, true, ℕ, ◌&&◌, ◌∙◌, ◌≡◌,
  ◌≢◌, ◌⊎◌,
}

module _ (c : Crypto) (r : Readers) where
  -- The list is the one that the manifest names.
  pub record IsNamed (found : Found) (g : Registry) : Type 0 where
    pub effective_from : ℤ
    pub expected : Text
    pub url : Text
    pub named : found ≡ manifest effective_from expected url
    pub payload : Fields
    pub loaded : r.loads g.source ≡ some (obj payload)
    pub on_digest : digest c payload ≡ lower expected
    pub height : g.effective_from ≡ effective_from

  -- Nothing but the clock and the warning has changed, or a list was taken over.
  abbrev pub Refreshed :
      Found → Result RegistryError Bool → RegistrySource → RegistrySource → Type 0
  Refreshed found answer s t =
      (t.active ≡ s.active)
      × (t.fallback ≡ s.fallback)
      × (t.cache ≡ s.cache)
      × (((answer ≢ ok true) × (t.pending ≡ s.pending))
          ⊎ ((answer ≡ ok true) × ((g : Registry) × (t.pending ≡ some g) × IsNamed found g)))

  warn_fallback-Refreshed :
      (found : Found) (now : ℕ) (s : RegistrySource)
      → Refreshed found (ok false) s (warn_fallback now s)
  unfolding warn_fallback
  warn_fallback-Refreshed found now s =
      elim (Bool-cases (not (is_some s.active) && is_stale now s)) [
        | inl stale ↦ rw stale (refl, refl, refl, inl (λ e. cc e, refl))
        | inr fresh ↦ rw fresh (refl, refl, refl, inl (λ e. cc e, refl))
      ]

  parse_bytes-IsNamed :
      (raw expected url : Text) (height : ℤ) (g : Registry)
      → parse_bytes c r raw (some expected) height ≡ ok g
      → IsNamed (manifest height expected url) g
  unfolding parse_bytes
  parse_bytes-IsNamed raw expected url height g h =
      let (body, decoded, h₁) = >>=-eq-ok (or_raise (r.utf8 raw) crashed) _ h in
      let (payload, loaded, on, some_of_them, measured, from, kept) =
        parse_sound c r body (some expected) height g h₁ in
      record {
        effective_from = height;
        expected = expected;
        url = url;
        named = refl;
        payload = payload;
        loaded = ap r.loads kept ∙ loaded;
        on_digest = on expected refl;
        height = from;
      }

  take_over-Refreshed :
      (found : Found) (now : ℕ) (m : Result RegistryError Registry) (s : RegistrySource)
      → ((g : Registry) → m ≡ ok g → IsNamed found g)
      → Refreshed found (take_over c r now m s).0 s (take_over c r now m s).1
  unfolding take_over
  take_over-Refreshed found now (ok g) s h = (refl, refl, refl, inr (refl, (g, refl, h g refl)))
  take_over-Refreshed found now (err crashed) s h = (refl, refl, refl, inl (λ e. cc e, refl))
  take_over-Refreshed found now (err _) s h = warn_fallback-Refreshed found now s

  -- Whatever the chain and the web server answer, a refresh leaves the active list, the operator's list
  -- and the cache alone; the waiting list changes only when the answer is true, and then to a list that
  -- the manifest names, of its digest and height.
  pub refresh_keeps :
      (now : ℕ) (server : Text → Option Text) (found : Found) (s : RegistrySource)
      → Refreshed found (refresh c r now server found s).0 s (refresh c r now server found s).1
  unfolding refresh take_over
  refresh_keeps now server chain_trouble s = warn_fallback-Refreshed chain_trouble now s
  refresh_keeps now server no_manifest s = warn_fallback-Refreshed no_manifest now s
  refresh_keeps now server (manifest height expected url) s =
      elim (Bool-cases (is_known c r expected s)) [
        | inl known ↦ rw known (refl, refl, refl, inl (λ e. cc e, refl))
        | inr new ↦ rw new (
            take_over-Refreshed (manifest height expected url) now
              (fetch server url >>= λ body. parse_bytes c r body (some expected) height) s
              (λ g got.
                let (body, fetched, parsed) = >>=-eq-ok (fetch server url) _ got in
                parse_bytes-IsNamed body expected url height g parsed))
      ]

  -- A refresh that takes over a list drops the one that was waiting, even one whose height has come:
  -- before the new list's height the validator gets what it would have got without either.
  pub waiting_dropped :
      (now later block : ℕ) (server : Text → Option Text) (found : Found) (s : RegistrySource)
      (new : Registry)
      → (refresh c r now server found s).1.pending ≡ some new
      → active_at new block ≡ false
      → (approved_at c r later block (refresh c r now server found s).1).0 ≡ (current c r later s).0
  unfolding approved_at
  waiting_dropped now later block server found s new taken early =
      let (active, fallback, cache, rest) = refresh_keeps now server found s in
      let t = (refresh c r now server found s).1 in
      ap (λ u. (current c r later u).0) (promote-later c r block new t taken early)
      ∙ current-fallback c r later t s active fallback
