-- ===== src/Tests/Broker.antt =====
-- The key broker's theorems at concrete inputs.
use sentinel_subnet.Attestation.{
  AttestationReport, approved_set, attest, bind_response, canonical, non_empty, normalised, one,
  unsigned, verify,
}
use sentinel_subnet.Kbs.{
  Credentials, KeyBroker, Platform, as_release_error, challenge, expire_nonces, looks_like_sevsnp,
  release, release_binding, release_checks, verify_proof, verify_registered_key,
}
use sentinel_subnet.Kbs.Release.{Proof, release_sound}
use sentinel_subnet.Kbs.Nonces.{Call, Spares, after_all, challenges, replay_refused, trusts}
use sentinel_subnet.Kbs.Expiry.{expired_refused}
use sentinel_subnet.Tests.Fixtures.{Cert, plain_crypto}
use sentinel_subnet.Base.Json.{
  Json, dump_fields, dumps, insert_sorted, null, print_entries, print_int, text_leb,
}
use sentinel_subnet.Base.Json.Escape.{escape_char, escape_other, escaped, quoted}
use sentinel_subnet.Attestation.Allowed.{Allows, here}
use sentinel_subnet.Enclave.{
  AttestedResponse, Enclave, attest_result, credential_for, run_attested, unlock,
}
use sentinel_subnet.Enclave.Unlock.{honest_unlock}
use sentinel_subnet.Enclave.Respond.{run_attested-verify}
use sentinel_subnet.Base.Result.{Result, ok, ok-injective}
use sentinel_subnet.Base.Text.{
  Text, codes, is_space, lower, lower_char, lstrip, member, strip, text_eq, text_eq_iff,
}
use sentinel_subnet.Base.Dict.{IsDict, contains, erase, insert, lookup, retain}
use sentinel_subnet.Base.Int.{ltb_ℤ, pos, ◌≤ℤ◌}
use sentinel_subnet.Base.Decimal.{decimal, digits_before}
use sentinel_subnet.Base.{
  All, List, [], arith, false, none, refl, some, sym, true, ℕ, ◌++◌, ◌∷◌, ◌≡◌, ◌≢◌, ◌≤◌,
}

abbrev pub platform : Platform Cert
platform = record { crypto = plain_crypto; load_der = λ der. none }

abbrev pub dsn : Credentials
dsn = record { dsn = codes "postgres://db"; resource = codes "db" }

abbrev pub broker : KeyBroker Cert
broker = record {
  policy = record { approved_measurement = one (codes "ab"); min_tcb = pos 7; nonce_ttl = 60 };
  sevsnp = none;
  sevsnp_certs = [];
  sevsnp_factory = none;
  secrets = (codes "db", dsn) ∷ [];
  trusted_chips = (codes "chip", codes "key") ∷ [];
  issued_nonces = (codes "n1", 100) ∷ (codes "old", 5) ∷ [];
}

-- The report without its signature, and with the one of its key.
abbrev pub claim : AttestationReport
claim = record {
  chip_id = codes "chip";
  launch_measurement = codes "ab";
  tcb_level = pos 8;
  nonce = codes "n1";
  report_data = codes "kbs-release:db";
  signature = [];
}

abbrev pub proof : AttestationReport
proof = record claim { signature = codes "key" ++ canonical claim }

abbrev pub spent_broker : KeyBroker Cert
spent_broker = record broker { issued_nonces = [] }

broker-IsDict : IsDict broker.issued_nonces
unfolding lookup text_eq
broker-IsDict = (refl, (refl, tt))

released : release platform 50 (codes "db") proof none broker ≡ (ok dsn, spent_broker)
unfolding release release_checks verify_proof verify_registered_key looks_like_sevsnp
    release_binding bind_response as_release_error verify canonical dumps dump_fields lookup
    contains retain erase insert expire_nonces text_eq member approved_set normalised non_empty
    strip lstrip lower lower_char is_space ltb_ℤ quoted escaped escape_char escape_other decimal
    digits_before print_int print_entries insert_sorted text_leb
released = refl

release_sound_example :
    (lookup (codes "db") broker.secrets ≡ some dsn)
    × ((expiry : ℕ) × (lookup proof.nonce broker.issued_nonces ≡ some expiry) × (50 ≤ expiry))
    × Proof platform broker proof (codes "db") none
    × (proof.report_data ≡ release_binding plain_crypto (codes "db"))
    × (lookup proof.nonce spent_broker.issued_nonces ≡ none)
release_sound_example =
    release_sound platform 50 (codes "db") proof none broker spent_broker dsn broker-IsDict released

abbrev calls : List Call
calls = trusts (codes "chip") (codes "key") ∷ challenges 55 (codes "n2") ∷ []

calls-Spares : All (Spares (codes "n1")) calls
unfolding text_eq
calls-Spares = (tt, (refl, tt))

replay_refused_example :
    (release platform 60 (codes "db") proof none (after_all platform calls spent_broker)).0 ≢ ok dsn
replay_refused_example =
    replay_refused platform broker spent_broker 50 (codes "db") proof none dsn released calls
      calls-Spares 60 (codes "db") proof none dsn refl

expired_refused_example :
    (release platform 70
      (codes "db")
      proof
      none
      (after_all platform calls (challenge 5 (codes "n1") broker))).0
    ≢ ok dsn
expired_refused_example =
    expired_refused platform broker 5 (codes "n1") broker-IsDict calls calls-Spares 70 (codes "db")
      proof none dsn refl (omega arith)

-- An enclave on the chip "chip".
abbrev pub enclave : Enclave (Unit {0})
enclave = record {
  agent = record {
    silicon = record { chip_id = codes "chip"; sign = λ m. ok (codes "key" ++ m) };
    launch_measurement = codes "ab";
    tcb_level = pos 8;
  };
  certificates = none;
  credentials = [];
}

allowed : Allows (lower (strip (codes "ab"))) (codes "ab" ∷ [])
unfolding strip lstrip lower lower_char is_space
allowed = here (codes "ab") [] (λ e. cc e) refl

genuine :
    (m s : Text)
    → enclave.agent.silicon.sign m ≡ ok s
    → plain_crypto.ed25519_valid (codes "key") m s ≡ true
genuine m s h =
    let same : codes "key" ++ m ≡ s = ok-injective h in
    (text_eq_iff s (codes "key" ++ m)).1 (sym same)

key_read : plain_crypto.is_key (codes "key") ≡ true
unfolding text_eq
key_read = refl

chip_known : lookup (codes "chip") broker.trusted_chips ≡ some (codes "key")
unfolding lookup text_eq
chip_known = refl

secret_known : lookup (codes "db") broker.secrets ≡ some dsn
unfolding lookup text_eq
secret_known = refl

short_signature :
    looks_like_sevsnp (
      codes "key"
      ++ canonical
          (unsigned enclave.agent (codes "n9") (release_binding plain_crypto (codes "db"))))
    ≡ false
unfolding looks_like_sevsnp canonical dumps dump_fields quoted escaped escape_char escape_other
    decimal digits_before print_int print_entries insert_sorted text_leb unsigned release_binding
    bind_response
short_signature = refl

level : pos 7 ≤ℤ pos 8
level = omega arith

honest_unlock_example :
    ((unlock platform 10 70 (codes "n9") (codes "db") enclave broker).0 ≡ ok dsn)
    × (credential_for
          (codes "db")
          (unlock platform 10 70 (codes "n9") (codes "db") enclave broker).1
        ≡ some dsn)
honest_unlock_example =
    honest_unlock platform 10 70 (codes "n9") (codes "db") (codes "key")
      (codes "key"
        ++ canonical
            (unsigned enclave.agent (codes "n9") (release_binding plain_crypto (codes "db"))))
      enclave broker dsn broker-IsDict (omega arith) secret_known chip_known key_read genuine
      allowed level refl short_signature

abbrev reply : AttestationReport
reply =
    unsigned enclave.agent (codes "n3")
      (bind_response plain_crypto (codes "req") (plain_crypto.sha384 (dumps null)))

abbrev response : AttestedResponse
response = record {
  result = null;
  attestation = record reply { signature = codes "key" ++ canonical reply };
  response_hash = plain_crypto.sha384 (dumps null);
}

replied : run_attested plain_crypto (codes "req") (codes "n3") (ok null) enclave ≡ ok response
unfolding run_attested attest_result attest
replied = refl

run_attested-verify_example :
    ◌≡◌ {A = Result (Unit {0}) Json} (ok null) (ok response.result)
    × (response.response_hash ≡ plain_crypto.sha384 (dumps response.result))
    × (verify plain_crypto response.attestation
          (codes "key")
          (one (codes "ab"))
          (codes "n3")
          (pos 7)
          (some (bind_response plain_crypto (codes "req") response.response_hash))
        ≡ ok tt)
run_attested-verify_example =
    run_attested-verify plain_crypto enclave (codes "key") (one (codes "ab")) (pos 7) (codes "req")
      (codes "n3") (ok null) response key_read genuine allowed level replied
