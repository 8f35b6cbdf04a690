-- ===== src/Kbs/Nonces.antt =====
-- A nonce is spent once, over every run of calls of the broker (sentinel/kbs.py).
use sentinel_subnet.Attestation.{AttestationReport}
use sentinel_subnet.Kbs.{
  Credentials, KeyBroker, Platform, challenge, expire_nonces, release, release_checks, store_secret,
  trust_chip,
}
use sentinel_subnet.Kbs.Release.{release-inversion}
use sentinel_subnet.Base.Result.{ok}
use sentinel_subnet.Base.Text.{Text, text_eq}
use sentinel_subnet.Base.Dict.{
  Dict, contains, lookup, lookup-erase, lookup-erase_self, lookup-insert, lookup-retain-none,
}
use sentinel_subnet.Base.{All, List, Option, [], arith, false, leb, none, ℕ, ◌∷◌, ◌≡◌, ◌≢◌}

-- A call of one of the broker's methods.
pub data Call : Type 0 where
  stores : (resource dsn : Text) → Call
  trusts : (chip_id public_key : Text) → Call
  challenges : (now : ℕ) (nonce : Text) → Call
  releases : (now : ℕ) (resource : Text) → AttestationReport → Option (Dict Text) → Call

module _ {Cert : Type 0} (p : Platform Cert) where
  -- The broker after a call.
  unfoldable pub after : Call → KeyBroker Cert → KeyBroker Cert
  after (stores resource dsn) b = store_secret resource dsn b
  after (trusts chip_id key) b = trust_chip chip_id key b
  after (challenges now nonce) b = challenge now nonce b
  after (releases now resource report certificates) b =
      (release p now resource report certificates b).1

  unfoldable pub after_all : List Call → KeyBroker Cert → KeyBroker Cert
  unfolding after
  after_all [] b = b
  after_all (c ∷ cs) b = after_all cs (after c b)

-- The call does not issue `nonce`.
abbrev pub Spares : Text → Call → Type 0
Spares nonce (challenges _ issued) = text_eq issued nonce ≡ false
Spares nonce _ = Unit

module _ {Cert : Type 0} (p : Platform Cert) (nonce : Text) where
  -- `nonce` is not issued.
  abbrev Gone : KeyBroker Cert → Type 0
  Gone b = lookup nonce b.issued_nonces ≡ none

  release-Gone :
      (now : ℕ) (resource : Text) (report : AttestationReport) (certificates : Option (Dict Text))
      (b : KeyBroker Cert)
      → Gone b
      → Gone (release p now resource report certificates b).1
  unfolding release
  release-Gone now resource report certificates b g = ground (
    arith,
    lookup-erase report.nonce nonce (expire_nonces now b).issued_nonces,
    lookup-retain-none (λ (k : Text) (e : ℕ). leb now e) nonce b.issued_nonces g,
  )

  after-Gone : (c : Call) (b : KeyBroker Cert) → Spares nonce c → Gone b → Gone (after p c b)
  unfolding after
  after-Gone (stores resource dsn) b s g = unfold store_secret in g
  after-Gone (trusts chip_id key) b s g = unfold trust_chip in g
  after-Gone (challenges now issued) b s g =
      unfold challenge in simp (lookup-insert, s) (lookup-retain-none _ nonce b.issued_nonces g)
  after-Gone (releases now resource report certificates) b s g =
      release-Gone now resource report certificates b g

  after_all-Gone :
      (cs : List Call) (b : KeyBroker Cert)
      → All (Spares nonce) cs
      → Gone b
      → Gone (after_all p cs b)
  unfolding after_all
  after_all-Gone [] b s g = g
  after_all-Gone (c ∷ cs) b s g = after_all-Gone cs (after p c b) s.1 (after-Gone c b s.0 g)

-- A report whose nonce is not issued releases nothing.
gone_refused :
    {Cert : Type 0} (p : Platform Cert) (now : ℕ) (resource : Text) (report : AttestationReport)
    (certificates : Option (Dict Text)) (b : KeyBroker Cert) (credentials : Credentials)
    → lookup report.nonce b.issued_nonces ≡ none
    → (release p now resource report certificates b).0 ≢ ok credentials
unfolding release release_checks contains
gone_refused p now resource report certificates b credentials g h =
    ground
      (arith, lookup-retain-none (λ (k : Text) (e : ℕ). leb now e) report.nonce b.issued_nonces g)

spent :
    {Cert : Type 0} (p : Platform Cert) (now : ℕ) (resource : Text) (report : AttestationReport)
    (certificates : Option (Dict Text)) (b b' : KeyBroker Cert) (credentials : Credentials)
    → release p now resource report certificates b ≡ (ok credentials, b')
    → lookup report.nonce b'.issued_nonces ≡ none
spent p now resource report certificates b b' credentials h =
    let (stored, checked, erased) =
      release-inversion p now resource report certificates b b' credentials h in
    rw erased (lookup-erase_self report.nonce (expire_nonces now b).issued_nonces)

-- After a report has released a credential, no report with the same nonce releases anything, for
-- any resource, at any later call, unless the broker issues that nonce once more.
pub replay_refused :
    {Cert : Type 0} (p : Platform Cert) (b b' : KeyBroker Cert) (now : ℕ) (resource : Text)
    (report : AttestationReport) (certificates : Option (Dict Text)) (credentials : Credentials)
    → release p now resource report certificates b ≡ (ok credentials, b')
    → (calls : List Call) → All (Spares report.nonce) calls
    → (later : ℕ) (resource' : Text) (report' : AttestationReport)
      (certificates' : Option (Dict Text)) (credentials' : Credentials)
    → report'.nonce ≡ report.nonce
    → (release p later resource' report' certificates' (after_all p calls b')).0 ≢ ok credentials'
replay_refused p b b' now resource report certificates credentials h calls spared later resource'
      report' certificates' credentials' same =
    gone_refused p later resource' report' certificates' (after_all p calls b') credentials' (
      rw same (
        after_all-Gone p report.nonce calls b' spared
          (spent p now resource report certificates b b' credentials h)))
