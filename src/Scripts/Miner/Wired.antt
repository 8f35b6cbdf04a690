-- ===== src/Scripts/Miner/Wired.antt =====
-- What a miner that has started serves.
use sentinel_subnet.Attestation.{AttestationReport, attest}
use sentinel_subnet.Base.Json.{Json}
use sentinel_subnet.SevSnp.Certs.{Pki}
use sentinel_subnet.SevSnp.Verifier.{Kds}
use sentinel_subnet.Kbs.{
  Credentials, KeyBroker, Platform, ReleaseError, challenge, expire_nonces, release,
  release_binding,
}
use sentinel_subnet.Kbs.Release.{release-inversion}
use sentinel_subnet.Enclave.{Enclave, UnlockError, chip_failed, keep_credentials, unlock}
use sentinel_subnet.Enclave.Unlock.{unlock-attested}
use sentinel_subnet.Mcp.Server.{McpServer, new_server}
use sentinel_subnet.Serving.ApiKeys.{ApiKeyStore}
use sentinel_subnet.Serving.Handler.{MinerHandler, ServeError}
use sentinel_subnet.Remote.Client.{Answer, ClientRuntime}
use sentinel_subnet.Chain.Discovery.{Neuron}
use sentinel_subnet.Scripts.Scopes.{miner_scopes, miner_scopes-IsScope}
use sentinel_subnet.Scripts.Broker.{store_all}
use sentinel_subnet.Scripts.Allowlist.{resolve_allowlist}
use sentinel_subnet.Scripts.Silicon.{
  Chip, Chips, bad_scopes, mismatch, no_allowlist, not_released, open_silicon,
}
use sentinel_subnet.Scripts.Tools.{Backends, unlock_scopes}
use sentinel_subnet.Scripts.Miner.{
  MinerArgs, Moment, build_miner, build_own, load_keys, new_enclave, own_broker, served, unlock_own,
}
use sentinel_subnet.Scripts.Tools.Backed.{Backed, unlock_scopes-Backed}
use sentinel_subnet.Scripts.Broker.Stored.{store_all-lookup}
use sentinel_subnet.Base.Result.{
  >>=-eq-ok, Result, Result-cases, err, map_err, map_err-ok, ok, ok-injective, raise_if,
  raise_if-ok,
}
use sentinel_subnet.Base.Text.{Text, text_eq, text_eq_iff, truthy}
use sentinel_subnet.Base.Dict.{Dict, IsDict, lookup}
use sentinel_subnet.Base.{
  Bool, List, Option, [], ap, arith, false, inl, inr, none, not, refl, some, subst, sym, ℕ, ◌&&◌,
  ◌∙◌, ◌∷◌, ◌≡◌, ◌⊎◌,
}

module _ {Cert : Type 0} (p : Platform Cert) where
  abbrev Outcome : Type 0
  Outcome = Result (UnlockError ServeError) Credentials × Enclave ServeError × KeyBroker Cert

  release-secrets :
      (now : ℕ) (resource : Text) (report : AttestationReport) (certificates : Option (Dict Text))
      (b : KeyBroker Cert)
      → (release p now resource report certificates b).1.secrets ≡ b.secrets
  unfolding release expire_nonces
  release-secrets now resource report certificates b = ground arith

  release-stored :
      (now : ℕ) (resource : Text) (report : AttestationReport) (certificates : Option (Dict Text))
      (b : KeyBroker Cert) (credentials : Credentials)
      → (release p now resource report certificates b).0 ≡ ok credentials
      → lookup resource b.secrets ≡ some credentials
  release-stored now resource report certificates b credentials h =
      (release-inversion p now resource report certificates b
        (release p now resource report certificates b).1 credentials
        (ap
          (λ (r : Result ReleaseError Credentials).
            (r, (release p now resource report certificates b).1))
          h)).0

  keep_credentials-broker :
      (name : Text) (e : Enclave ServeError)
      (answer : Result ReleaseError Credentials × KeyBroker Cert)
      → (keep_credentials name e answer).2 ≡ answer.1
  unfolding keep_credentials
  keep_credentials-broker name e (ok c, b) = refl
  keep_credentials-broker name e (err r, b) = refl

  keep_credentials-answer :
      (name : Text) (e : Enclave ServeError)
      (answer : Result ReleaseError Credentials × KeyBroker Cert) (credentials : Credentials)
      → map_err not_released (keep_credentials name e answer).0 ≡ ok credentials
      → answer.0 ≡ ok credentials
  unfolding keep_credentials
  keep_credentials-answer name e (ok c, b) credentials h = cc h
  keep_credentials-answer name e (err r, b) credentials h = cc h

  unlock-unattested :
      (now later : ℕ) (nonce resource : Text) (e : Enclave ServeError) (b : KeyBroker Cert)
      (failed : ServeError)
      → attest e.agent nonce (release_binding p.crypto resource) ≡ err failed
      → unlock p now later nonce resource e b ≡ (err (chip_failed failed), e, challenge now nonce b)
  unfolding unlock
  unlock-unattested now later nonce resource e b failed h = ground (arith, h)

  -- Unlocking leaves the secrets alone and gives out the one that was asked for.
  unlock-secrets :
      (now later : ℕ) (nonce name : Text) (e : Enclave ServeError) (b : KeyBroker Cert)
      → ((unlock p now later nonce name e b).2.secrets ≡ b.secrets)
        × ((credentials : Credentials)
            → map_err not_released (unlock p now later nonce name e b).0 ≡ ok credentials
            → lookup name b.secrets ≡ some credentials)
  unfolding challenge expire_nonces
  unlock-secrets now later nonce name e b =
      elim (Result-cases (attest e.agent nonce (release_binding p.crypto name))) [
        | inl (report, attested) ↦
            let answer = release p later name report e.certificates (challenge now nonce b) in
            let same = unlock-attested p now later nonce name e b report attested in
            (
              ap (λ (u : Outcome). u.2.secrets) same
                  ∙ ap (λ (b' : KeyBroker Cert). b'.secrets) (keep_credentials-broker name e answer)
                  ∙ release-secrets later name report e.certificates (challenge now nonce b),
              λ credentials h.
                  release-stored later name report e.certificates (challenge now nonce b)
                    credentials
                    (keep_credentials-answer name e answer credentials
                      (ap (λ (u : Outcome). map_err not_released u.0) (sym same) ∙ h)),
            )
        | inr (failed, raises) ↦
            let same = unlock-unattested now later nonce name e b failed raises in
            (
              ap (λ (u : Outcome). u.2.secrets) same,
              λ credentials h.
                  absurd (cc (ap (λ (u : Outcome). map_err not_released u.0) (sym same) ∙ h)),
            )
      ]

miner_scopes-IsDict :
    (remote : Bool) (dsn : Text) (entries : List Text) (parsed : Dict Text)
    → miner_scopes remote dsn entries ≡ ok parsed
    → IsDict parsed
unfolding miner_scopes
miner_scopes-IsDict remote dsn [] parsed h = subst IsDict (ok-injective h) (refl, tt)
miner_scopes-IsDict remote dsn (entry ∷ entries) parsed h =
    (miner_scopes-IsScope remote dsn entry entries parsed h).0

served-mcp :
    (args : MinerArgs) (hotkey_ss58 : Text) (chain : Option (List Neuron))
    (from_file : Text → Option ApiKeyStore) (e : Enclave ServeError) (mcp : McpServer Json)
    (handler : MinerHandler)
    → served args hotkey_ss58 chain from_file e mcp ≡ ok handler
    → handler.mcp ≡ mcp
unfolding served
served-mcp args hotkey_ss58 chain from_file e mcp handler h =
    let (allowed, resolved, h₁) =
      >>=-eq-ok (map_err no_allowlist (resolve_allowlist args.allow chain)) _ h in
    let (api_keys, loaded, made) = >>=-eq-ok (load_keys from_file (truthy args.api_keys)) _ h₁ in
    ap (λ (m : MinerHandler). m.mcp) (sym (ok-injective made))

module _ {Cert Key C D : Type 0} (k : Pki Cert Key) (kds : Kds Cert) (p : Platform Cert)
    (backends : Backends C D) where
  build_own-Backed :
      (args : MinerArgs) (hotkey_ss58 : Text) (chain : Option (List Neuron))
      (from_file : Text → Option ApiKeyStore) (clock : Text → Moment) (chip : Chip) (real : Bool)
      (handler : MinerHandler) (scopes : Dict Text) (name dsn : Text)
      → build_own k kds p backends args hotkey_ss58 chain from_file clock chip real ≡ ok handler
      → miner_scopes false args.dsn args.scope ≡ ok scopes
      → lookup name scopes ≡ some dsn
      → Backed backends args.seed name dsn handler.mcp
  unfolding build_own unlock_own
  build_own-Backed args hotkey_ss58 chain from_file clock chip real handler scopes name dsn h parsed
        listed =
      let (own, parsed_own, h₁) =
        >>=-eq-ok (map_err bad_scopes (miner_scopes false args.dsn args.scope)) _ h in
      let same : scopes ≡ own = ok-injective (sym parsed ∙ map_err-ok bad_scopes _ parsed_own) in
      let listed_own = ap (lookup name) (sym same) ∙ listed in
      let (b, brokered, h₂) = >>=-eq-ok (own_broker k kds p args chip real) _ h₁ in
      let (done, unlocked, serves) =
        >>=-eq-ok
          (unlock_scopes backends (unlock_own p clock) args.seed own
            (new_enclave chip args.measurement) (store_all own b) new_server)
          _ h₂ in
      subst (Backed backends args.seed name dsn)
        (sym (served-mcp args hotkey_ss58 chain from_file done.0 done.2 handler serves))
        (unlock_scopes-Backed backends (unlock_own p clock) args.seed
          (λ (b' : KeyBroker Cert). b'.secrets)
          (λ n e b' credentials released.
            (unlock-secrets p (clock n).now (clock n).later (clock n).nonce n e b').1 credentials
              released)
          (λ n e b'. (unlock-secrets p (clock n).now (clock n).later (clock n).nonce n e b').0) own
          (new_enclave chip args.measurement) (store_all own b) new_server done name dsn dsn
          unlocked listed_own
          (store_all-lookup name dsn own b
            (miner_scopes-IsDict false args.dsn args.scope own (map_err-ok bad_scopes _ parsed_own))
            listed_own))

-- A miner that starts with its broker in its own process serves, for each scope that it was given, a
-- tool that queries a database opened with the DSN of that scope; and where the chip is real, it
-- measured the approved image.
pub build_miner-Backed :
    {Cert Key W C D : Type 0} (k : Pki Cert Key) (kds : Kds Cert) (p : Platform Cert)
    (rt : ClientRuntime) (send : (url : Text) (path body : Text) → W → Answer × W)
    (backends : Backends C D) (chips : Chips) (args : MinerArgs) (hotkey_ss58 : Text)
    (chain : Option (List Neuron)) (from_file : Text → Option ApiKeyStore) (clock : Text → Moment)
    (w : W) (handler : MinerHandler) (scopes : Dict Text) (name dsn : Text)
    → build_miner k kds p rt send backends chips args hotkey_ss58 chain from_file clock w
      ≡ ok handler
    → truthy args.broker_url ≡ none
    → miner_scopes false args.dsn args.scope ≡ ok scopes
    → lookup name scopes ≡ some dsn
    → Backed backends args.seed name dsn handler.mcp
      × ((chip : Chip) × (real : Bool) × (open_silicon chips args.allow_mock args.mock_chip_seed
            ≡ ok (chip, real))
          × ((real ≡ false) ⊎ (chip.measurement ≡ args.measurement)))
unfolding build_miner
build_miner-Backed k kds p rt send backends chips args hotkey_ss58 chain from_file clock w handler
      scopes name dsn h own parsed listed =
    let (opened, opens, h₁) =
      >>=-eq-ok (open_silicon chips args.allow_mock args.mock_chip_seed) _ h in
    let (u, approved, h₂) =
      >>=-eq-ok
        (raise_if (opened.1 && not (text_eq opened.0.measurement args.measurement)) mismatch) _
        h₁ in
    (
      build_own-Backed k kds p backends args hotkey_ss58 chain from_file clock opened.0 opened.1
          handler scopes name dsn (rw own at h₂) parsed listed,
      (
        opened.0,
        opened.1,
        opens,
        ground (
          arith,
          raise_if-ok (opened.1 && not (text_eq opened.0.measurement args.measurement)) mismatch
              approved,
          text_eq_iff opened.0.measurement args.measurement,
        ),
      ),
    )
