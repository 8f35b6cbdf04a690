-- ===== src/Kbs/Expiry.antt =====
-- A nonce lives no longer than the policy's lifetime (sentinel/kbs.py).
use sentinel_subnet.Attestation.{AttestationReport}
use sentinel_subnet.Kbs.{
  Credentials, KeyBroker, Platform, challenge, expire_nonces, release, release_checks, store_secret,
  trust_chip,
}
use sentinel_subnet.Kbs.Release.{live_nonce, release-inversion, release_checks-ok}
use sentinel_subnet.Kbs.Nonces.{
  Call, Spares, after, after_all, challenges, releases, stores, trusts,
}
use sentinel_subnet.Base.Result.{Result-cases, ok}
use sentinel_subnet.Base.Text.{Text, text_eq}
use sentinel_subnet.Base.Dict.{
  Dict, IsDict, erase, erase-IsDict, insert, insert-IsDict, lookup, lookup-erase, lookup-insert,
  lookup-insert_self, lookup-retain, lookup-retain-none, retain-IsDict,
}
use sentinel_subnet.Base.{
  All, List, Option, Option-cases, [], ap, arith, false, inl, inr, leb, some, ℕ, ◌+◌, ◌<◌, ◌∷◌, ◌≡◌,
  ◌≢◌, ◌≤◌,
}

kept_was :
    {Cert : Type 0} (now e : ℕ) (nonce : Text) (b : KeyBroker Cert)
    → IsDict b.issued_nonces
    → lookup nonce (expire_nonces now b).issued_nonces ≡ some e
    → (lookup nonce b.issued_nonces ≡ some e) × (now ≤ e)
unfolding expire_nonces
kept_was now e nonce b d q = elim (Option-cases (lookup nonce b.issued_nonces)) [
  | inl gone ↦ absurd (
      ground
        (arith, lookup-retain-none (λ (k : Text) (e : ℕ). leb now e) nonce b.issued_nonces gone))
  | inr (f, p) ↦
      ground (arith, lookup-retain (λ (k : Text) (e : ℕ). leb now e) nonce b.issued_nonces d)
]

-- The three states that a release can leave: untouched, without what expired, and with the nonce
-- of the report spent.
release_cases :
    {Cert : Type 0} (P : KeyBroker Cert → Type 0) (p : Platform Cert) (now : ℕ) (resource : Text)
    (report : AttestationReport) (certificates : Option (Dict Text)) (b : KeyBroker Cert)
    → P b
    → P (expire_nonces now b)
    → P (record (expire_nonces now b) {
      issued_nonces = erase report.nonce (expire_nonces now b).issued_nonces;
    })
    → P (release p now resource report certificates b).1
unfolding release
release_cases P p now resource report certificates b kept expired spent =
    elim (Option-cases (lookup resource b.secrets)) [
      | inl absent ↦ rw (absent, release) kept
      | inr (c, stored) ↦
          elim (Result-cases
            (release_checks p (expire_nonces now b) report resource certificates)) [
              | inl (u, e) ↦ rw (stored, e, release) spent
              | inr (r, e) ↦ rw (stored, e, release) expired
            ]
    ]

module _ {Cert : Type 0} (p : Platform Cert) (nonce : Text) (limit : ℕ) where
  -- No key twice, and `nonce`, if it is issued, is over by `limit`.
  record Ends (b : KeyBroker Cert) : Type 0 where
    nodup : IsDict b.issued_nonces
    over : (e : ℕ) → lookup nonce b.issued_nonces ≡ some e → e ≤ limit

  expire-Ends : (now : ℕ) (b : KeyBroker Cert) → Ends b → Ends (expire_nonces now b)
  unfolding expire_nonces
  expire-Ends now b h = record {
    nodup = retain-IsDict _ b.issued_nonces h.nodup;
    over = λ e q. h.over e (kept_was now e nonce b h.nodup q).0;
  }

  spend-Ends :
      (used : Text) (b : KeyBroker Cert)
      → Ends b
      → Ends (record b { issued_nonces = erase used b.issued_nonces })
  spend-Ends used b h = record {
    nodup = erase-IsDict used b.issued_nonces h.nodup;
    over = λ e q. h.over e (ground (arith, lookup-erase used nonce b.issued_nonces));
  }

  issue-Ends :
      (issued : Text) (until : ℕ) (b : KeyBroker Cert)
      → text_eq issued nonce ≡ false
      → Ends b
      → Ends (record b { issued_nonces = insert issued until b.issued_nonces })
  issue-Ends issued until b ne h = record {
    nodup = insert-IsDict issued until b.issued_nonces h.nodup;
    over = λ e q. h.over e (ground (arith, lookup-insert issued nonce until b.issued_nonces));
  }

  release-Ends :
      (now : ℕ) (resource : Text) (report : AttestationReport) (certificates : Option (Dict Text))
      (b : KeyBroker Cert)
      → Ends b
      → Ends (release p now resource report certificates b).1
  release-Ends now resource report certificates b h =
      release_cases Ends p now resource report certificates b h (expire-Ends now b h)
        (spend-Ends report.nonce (expire_nonces now b) (expire-Ends now b h))

  after-Ends : (c : Call) (b : KeyBroker Cert) → Spares nonce c → Ends b → Ends (after p c b)
  unfolding after store_secret trust_chip challenge
  after-Ends (stores resource dsn) b s h = record { nodup = h.nodup; over = h.over }
  after-Ends (trusts chip_id key) b s h = record { nodup = h.nodup; over = h.over }
  after-Ends (challenges now issued) b s h =
      issue-Ends issued (now + b.policy.nonce_ttl) (expire_nonces now b) s (expire-Ends now b h)
  after-Ends (releases now resource report certificates) b s h =
      release-Ends now resource report certificates b h

  after_all-Ends :
      (cs : List Call) (b : KeyBroker Cert)
      → All (Spares nonce) cs
      → Ends b
      → Ends (after_all p cs b)
  unfolding after_all
  after_all-Ends [] b s h = h
  after_all-Ends (c ∷ cs) b s h = after_all-Ends cs (after p c b) s.1 (after-Ends c b s.0 h)

challenge-Ends :
    {Cert : Type 0} (p : Platform Cert) (nonce : Text) (now : ℕ) (b : KeyBroker Cert)
    → IsDict b.issued_nonces
    → Ends p nonce (now + b.policy.nonce_ttl) (challenge now nonce b)
unfolding challenge
challenge-Ends p nonce now b d = record {
  nodup = insert-IsDict nonce _ _ (retain-IsDict _ b.issued_nonces d);
  over = λ e q. ground (
    arith,
    lookup-insert_self nonce (now + b.policy.nonce_ttl) (expire_nonces now b).issued_nonces,
  );
}

ended_refused :
    {Cert : Type 0} (p : Platform Cert) (nonce : Text) (limit : ℕ) (b : KeyBroker Cert) (later : ℕ)
    (resource : Text) (report : AttestationReport) (certificates : Option (Dict Text))
    (credentials : Credentials)
    → Ends p nonce limit b
    → report.nonce ≡ nonce
    → limit < later
    → (release p later resource report certificates b).0 ≢ ok credentials
ended_refused p nonce limit b later resource report certificates credentials ends same late h =
    let b' = (release p later resource report certificates b).1 in
    let (stored, checked, erased) =
      release-inversion p later resource report certificates b b' credentials
        (ap (λ r. (r, b')) h) in
    let (live, proved) =
      release_checks-ok p (expire_nonces later b) report resource certificates checked in
    let (e, q, within) = live_nonce later report.nonce b ends.nodup live in
    absurd (omega (arith, ends.over e (rw same at q)))

-- With issued nonces that form a dictionary: a nonce is refused once its time is over: past the clock reading of its challenge plus the
-- policy's lifetime nothing is released on it, whatever was called in between, unless it is issued
-- once more.
pub expired_refused :
    {Cert : Type 0} (p : Platform Cert) (b : KeyBroker Cert) (issued_at : ℕ) (nonce : Text)
    → IsDict b.issued_nonces
    → (calls : List Call) → All (Spares nonce) calls
    → (later : ℕ) (resource : Text) (report : AttestationReport) (certificates : Option (Dict Text))
      (credentials : Credentials)
    → report.nonce ≡ nonce
    → issued_at + b.policy.nonce_ttl < later
    → (release p later resource report certificates
        (after_all p calls (challenge issued_at nonce b))).0
      ≢ ok credentials
expired_refused p b issued_at nonce d calls spared later resource report certificates credentials
      same late =
    ended_refused p nonce (issued_at + b.policy.nonce_ttl)
      (after_all p calls (challenge issued_at nonce b)) later resource report certificates
      credentials
      (after_all-Ends p nonce (issued_at + b.policy.nonce_ttl) calls (challenge issued_at nonce b)
        spared (challenge-Ends p nonce issued_at b d))
      same late
