-- ===== src/Registry/Source/Rounds.antt =====
-- When a list takes effect over the rounds of a validator, each of which refreshes and then asks
-- (sentinel/registry_source.py, as scripts/run_validator.py calls it).
use sentinel_subnet.Attestation.{Crypto}
use sentinel_subnet.Registry.{Readers, Registry, RegistryError, active_at}
use sentinel_subnet.Registry.Source.{Found, RegistrySource, approved_at, refresh}
use sentinel_subnet.Base.Result.{Result, err, ok}
use sentinel_subnet.Base.Text.{Text}
use sentinel_subnet.Base.{Bool, List, Option, [], false, some, true, ℕ, ◌∷◌, ◌≡◌, ◌≢◌}

-- What a round meets: the times of its two calls, the web server, the manifest and the block.
pub record Poll : Type 0 where
  pub refreshed_at : ℕ
  pub server : Text → Option Text
  pub found : Found
  pub asked_at : ℕ
  pub block : ℕ

module _ (c : Crypto) (r : Readers) where
  abbrev pub after_refresh : Poll → RegistrySource → Result RegistryError Bool × RegistrySource
  after_refresh p s = refresh c r p.refreshed_at p.server p.found s

  -- The source after a round: an exception out of the refresh ends the round before it asks.
  unfoldable pub after_poll : Poll → RegistrySource → RegistrySource
  after_poll p s = elim (after_refresh p s).0 [
    | err e ↦ (after_refresh p s).1
    | ok changed ↦ (approved_at c r p.asked_at p.block (after_refresh p s).1).1
  ]

  abbrev pub after_polls : List Poll → RegistrySource → RegistrySource
  after_polls [] s = s
  after_polls (p ∷ polls) s = after_polls polls (after_poll p s)

  -- No refresh of these rounds takes over a list.
  abbrev pub TakesNone : List Poll → RegistrySource → Type 0
  TakesNone [] s = Unit
  TakesNone (p ∷ polls) s = ((after_refresh p s).0 ≢ ok true) × TakesNone polls (after_poll p s)

  -- These rounds come before the list's height.
  abbrev pub Before : Registry → List Poll → Type 0
  Before g [] = Unit
  Before g (p ∷ polls) = (active_at g p.block ≡ false) × Before g polls

  -- The list waits still, and what is asked without it is as at the start.
  abbrev Waits : Registry → RegistrySource → RegistrySource → Type 0
  Waits g s t = (t.pending ≡ some g) × (t.active ≡ s.active) × (t.fallback ≡ s.fallback)
