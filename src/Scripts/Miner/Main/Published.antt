-- ===== src/Scripts/Miner/Main/Published.antt =====
-- Under which hotkey a miner serves and is published (`main`, scripts/run_miner.py).
use mathlib.Core.Option.{map as on_value}
use sentinel_subnet.Base.Json.{Json}
use sentinel_subnet.SevSnp.Certs.{Pki}
use sentinel_subnet.SevSnp.Verifier.{Kds}
use sentinel_subnet.Kbs.{Platform}
use sentinel_subnet.Enclave.{Enclave}
use sentinel_subnet.Mcp.Server.{McpServer, new_server}
use sentinel_subnet.Serving.ApiKeys.{ApiKeyStore}
use sentinel_subnet.Serving.Handler.{MinerHandler, ServeError}
use sentinel_subnet.Remote.Client.{Answer, ClientRuntime, new_remote}
use sentinel_subnet.Chain.Discovery.{Neuron}
use sentinel_subnet.Scripts.Scopes.{miner_scopes}
use sentinel_subnet.Scripts.Broker.{store_all}
use sentinel_subnet.Scripts.Allowlist.{resolve_allowlist}
use sentinel_subnet.Scripts.Silicon.{
  Chip, Chips, MinerError, bad_scopes, bad_url, mismatch, no_allowlist, open_silicon,
}
use sentinel_subnet.Scripts.Tools.{Backends, unlock_scopes}
use sentinel_subnet.Scripts.Miner.{
  MinerArgs, Moment, build_miner, build_own, build_remote, load_keys, new_enclave, own_broker,
  served, unlock_across, unlock_own,
}
use sentinel_subnet.Scripts.Miner.Main.{
  MainArgs, Running, advertise_ip_missing, check_args, main, measurement_missing, miner_args,
  mock_hotkey, needs_no_chain, not_built, print_own, served_hotkey, serves, start,
}
use sentinel_subnet.SevSnp.Guest.{Device}
use sentinel_subnet.SevSnp.Guest.Cached.{new_silicon, read_measurement}
use sentinel_subnet.Base.Result.{
  >>=-eq-ok, Result, Result-cases, map_err, map_err-ok, ok, ok-injective, or_raise, or_raise-ok,
  raise_if, raise_if-ok,
}
use sentinel_subnet.Base.Text.{Text, text_eq, text_eq_iff, truthy}
use sentinel_subnet.Base.{
  Bool, Bool-cases, List, Option, Option-cases, [], ap, arith, false, given_or, inl, inr, is_some,
  none, not, refl, some, subst, sym, true, ◌&&◌, ◌∙◌, ◌∷◌, ◌≡◌, ◌≢◌, ◌⊎◌,
}

served-hotkey :
    (args : MinerArgs) (hotkey_ss58 : Text) (chain : Option (List Neuron))
    (from_file : Text → Option ApiKeyStore) (e : Enclave ServeError) (mcp : McpServer Json)
    (handler : MinerHandler)
    → served args hotkey_ss58 chain from_file e mcp ≡ ok handler
    → handler.hotkey_ss58 ≡ hotkey_ss58
unfolding served
served-hotkey args hotkey_ss58 chain from_file e mcp handler h =
    let (allowed, resolved, h₁) =
      >>=-eq-ok (map_err no_allowlist (resolve_allowlist args.allow chain)) _ h in
    let (api_keys, loaded, made) = >>=-eq-ok (load_keys from_file (truthy args.api_keys)) _ h₁ in
    ap (λ (m : MinerHandler). m.hotkey_ss58) (sym (ok-injective made))

not_some : {A : Type 0} (o : Option A) → is_some o ≡ false → o ≡ none
not_some none h = refl
not_some (some a) h = cc h

truthy-some : (o : Option Text) (s : Text) → truthy o ≡ some s → o ≡ some s
unfolding truthy
truthy-some none s h = cc h
truthy-some (some []) s h = cc h
truthy-some (some (k ∷ t)) s h = h

-- Nothing is published, or an endpoint for the wallet's hotkey, under which the miner then serves.
abbrev pub Identity : MainArgs → (wallet : Text) → Running → Type 0
Identity a wallet r =
    ((a.no_chain ≡ true)
      × (r.published ≡ none)
      × (r.handler.hotkey_ss58 ≡ given_or (truthy a.hotkey_ss58) mock_hotkey))
    ⊎ ((a.no_chain ≡ false)
        × (truthy a.hotkey_ss58 ≡ none)
        × (r.handler.hotkey_ss58 ≡ wallet)
        × ((ip : Text) × (truthy a.advertise_ip ≡ some ip) × (r.published ≡ some (ip, a.port))))

-- What a running miner is: on a real chip it measured the pinned measurement.
pub record Serves (chips : Chips) (a : MainArgs) (wallet : Text) (r : Running) : Type 0 where
  pub measurement : Text
  pub pinned : truthy a.measurement ≡ some measurement
  pub chip : Chip
  pub real : Bool
  pub opened : open_silicon chips a.miner.allow_mock a.miner.mock_chip_seed ≡ ok (chip, real)
  pub approved : (real ≡ false) ⊎ (chip.measurement ≡ measurement)
  pub identity : Identity a wallet r
  pub refreshed :
      r.refreshes ≡ (is_some r.handler.allowed_hotkeys && not a.miner.allow.no_allow_validators)

module _ {Cert Key W C D : Type 0} (k : Pki Cert Key) (kds : Kds Cert) (p : Platform Cert)
    (rt : ClientRuntime) (send : (url : Text) (path body : Text) → W → Answer × W)
    (backends : Backends C D) (chips : Chips) (chain : Option (List Neuron))
    (from_file : Text → Option ApiKeyStore) (clock : Text → Moment) (w : W) where
  build_miner-hotkey :
      (args : MinerArgs) (hotkey_ss58 : Text) (handler : MinerHandler)
      → build_miner k kds p rt send backends chips args hotkey_ss58 chain from_file clock w
        ≡ ok handler
      → (handler.hotkey_ss58 ≡ hotkey_ss58)
        × ((chip : Chip) × (real : Bool) × (open_silicon chips args.allow_mock args.mock_chip_seed
              ≡ ok (chip, real))
            × ((real ≡ false) ⊎ (chip.measurement ≡ args.measurement)))
  unfolding build_miner build_own build_remote
  build_miner-hotkey args hotkey_ss58 handler h =
      let (opened, opens, h₁) =
        >>=-eq-ok (open_silicon chips args.allow_mock args.mock_chip_seed) _ h in
      let (u, approved, h₂) =
        >>=-eq-ok
          (raise_if (opened.1 && not (text_eq opened.0.measurement args.measurement)) mismatch) _
          h₁ in
      (
        elim (Option-cases (truthy args.broker_url)) [
          | inl own ↦
              let local : build_own k kds p backends args hotkey_ss58 chain from_file clock opened.0
                    opened.1
                  ≡ ok handler =
                rw own at h₂ in
              let (scopes, parsed, h₃) =
                >>=-eq-ok (map_err bad_scopes (miner_scopes false args.dsn args.scope)) _ local in
              let (b, brokered, h₄) = >>=-eq-ok (own_broker k kds p args opened.0 opened.1) _ h₃ in
              let (out, unlocked, h₅) =
                >>=-eq-ok
                  (unlock_scopes backends (unlock_own p clock) args.seed scopes
                    (new_enclave opened.0 args.measurement) (store_all scopes b) new_server)
                  _ h₄ in
              served-hotkey args hotkey_ss58 chain from_file out.0 out.2 handler h₅
          | inr (url, remote) ↦
              let across : build_remote p.crypto rt send backends args url hotkey_ss58 chain
                    from_file opened.0 w
                  ≡ ok handler =
                rw remote at h₂ in
              let (scopes, parsed, h₃) =
                >>=-eq-ok (map_err bad_scopes (miner_scopes true args.dsn args.scope)) _ across in
              let (broker, reached, h₄) =
                >>=-eq-ok (map_err bad_url (new_remote url args.broker_insecure)) _ h₃ in
              let (out, unlocked, h₅) =
                >>=-eq-ok
                  (unlock_scopes backends (unlock_across p.crypto rt send backends broker.url)
                    args.seed scopes (new_enclave opened.0 args.measurement) w new_server)
                  _ h₄ in
              served-hotkey args hotkey_ss58 chain from_file out.0 out.2 handler h₅
        ],
        (
          opened.0,
          opened.1,
          opens,
          ground (
            arith,
            raise_if-ok (opened.1 && not (text_eq opened.0.measurement args.measurement)) mismatch
                approved,
            text_eq_iff opened.0.measurement args.measurement,
          ),
        ),
      )

  abbrev build_for : MinerArgs → Text → Result MinerError MinerHandler
  build_for args hotkey_ss58 =
      build_miner k kds p rt send backends chips args hotkey_ss58 chain from_file clock w

  print_own-prints : (device : Device) (r : Running) → print_own device ≢ ok (serves r)
  unfolding print_own
  print_own-prints device r h = elim (Result-cases (new_silicon device 0)) [
    | inr (e, away) ↦ absurd (ground arith)
    | inl (s, there) ↦ elim (Result-cases (read_measurement device s).0) [
      | inr (e, raised) ↦ absurd (ground arith)
      | inl (m, measured) ↦ absurd (ground arith)
    ]
  ]

  -- What the checks let through
  check_args-ok :
      (a : MainArgs) (measurement : Text)
      → check_args a ≡ ok measurement
      → (truthy a.measurement ≡ some measurement)
        × (a.no_chain ≡ false
            → (is_some (truthy a.advertise_ip) ≡ true) × (is_some (truthy a.hotkey_ss58) ≡ false))
  unfolding check_args
  check_args-ok a measurement h =
      let (m, given, h₁) = >>=-eq-ok (or_raise (truthy a.measurement) measurement_missing) _ h in
      let (u, addressed, h₂) =
        >>=-eq-ok
          (raise_if (not a.no_chain && not (is_some (truthy a.advertise_ip))) advertise_ip_missing)
          _ h₁ in
      let (v, named, made) =
        >>=-eq-ok (raise_if (is_some (truthy a.hotkey_ss58) && not a.no_chain) needs_no_chain) _
          h₂ in
      let first = raise_if-ok _ advertise_ip_missing addressed in
      let second = raise_if-ok _ needs_no_chain named in
      (
        or_raise-ok (truthy a.measurement) measurement_missing given ∙ ap some (ok-injective made),
        λ on. (ground (arith, first, on), ground (arith, second, on)),
      )

  identified :
      (a : MainArgs) (wallet measurement : Text) (handler : MinerHandler)
      → check_args a ≡ ok measurement
      → handler.hotkey_ss58 ≡ served_hotkey a wallet
      → Identity a wallet (start a handler)
  unfolding served_hotkey start truthy
  identified a wallet measurement handler checked named =
      let (pinned, on) = check_args-ok a measurement checked in
      elim (Bool-cases a.no_chain) [
        | inl off ↦ inl (off, rw off refl, named ∙ rw off refl)
        | inr chained ↦
            let (addressed, unnamed) = on chained in
            elim (Option-cases (truthy a.advertise_ip)) [
              | inl nowhere ↦ absurd (ground (arith, addressed, nowhere))
              | inr (ip, given) ↦ inr (
                chained,
                not_some (truthy a.hotkey_ss58) unnamed,
                named ∙ rw chained refl,
                (ip, given, rw chained (ap (on_value _) (truthy-some a.advertise_ip ip given))),
              )
            ]
      ]

  -- A miner that `main` serves on a real chip measured what the operator pinned. Its endpoint is
  -- published only where it serves under the wallet's own hotkey, at the address that was given; under
  -- a hotkey that is only named it serves without being published.
  pub main-Serves :
      (device : Device) (a : MainArgs) (wallet : Text) (r : Running)
      → main device
          (λ args hotkey_ss58.
            build_miner k kds p rt send backends chips args hotkey_ss58 chain from_file clock w)
          a
          wallet
        ≡ ok (serves r)
      → Serves chips a wallet r
  unfolding main check_args served_hotkey miner_args start print_own
  main-Serves device a wallet r h = elim (Bool-cases a.print_measurement) [
    | inl prints ↦ absurd (print_own-prints device r (rw prints at h))
    | inr runs ↦
        let (measurement, checked, h₁) = >>=-eq-ok (check_args a) _ (rw runs at h) in
        let (handler, built, made) =
          >>=-eq-ok
            (map_err not_built (build_for (miner_args a measurement) (served_hotkey a wallet))) _
            h₁ in
        let same : start a handler ≡ r = cc made in
        let (named, (chip, real, opened, approved)) =
          build_miner-hotkey (miner_args a measurement) (served_hotkey a wallet) handler
            (map_err-ok not_built _ built) in
        subst (Serves chips a wallet) same (record {
          measurement = measurement;
          pinned = (check_args-ok a measurement checked).0;
          chip = chip;
          real = real;
          opened = opened;
          approved = approved;
          identity = identified a wallet measurement handler checked named;
          refreshed = refl;
        })
  ]
