-- ===== src/Tests/Operator.antt =====
-- The theorems about the operator's programs at concrete inputs.
use sentinel_subnet.Attestation.{AttestationReport, bind_response, canonical}
use sentinel_subnet.Base.Json.{
  dump_fields, dumps, insert_sorted, print_entries, print_int, text_leb,
}
use sentinel_subnet.Base.Json.Escape.{escape_char, escape_other, escaped, quoted}
use sentinel_subnet.Kbs.{
  KeyBroker, Platform, as_release_error, choose_verifier, expire_nonces, leaf_of, looks_like_sevsnp,
  release, release_binding, release_checks, store_secret, verify_proof, verify_sevsnp,
}
use sentinel_subnet.SevSnp.Report.{
  der_signature, fields, parse_report, signed_bytes, u32, u64, unpack,
}
use sentinel_subnet.SevSnp.Report.Layout.{encode}
use sentinel_subnet.SevSnp.Certs.{
  amd_root_spki_sha256, check_by_kind, expected_root, require_p384, verify_cert_signature,
  verify_self, verify_vcek,
}
use sentinel_subnet.SevSnp.Verifier.{
  SevSnpVerifier, cert_chain, check, debug_allowed_by, endorse, is_elliptic, min_tcb_for,
  obtain_vcek, pad64, unbound, verify_report, verify_signature, verify_signed_message,
}
use sentinel_subnet.Registry.Manifest.{cut}
use sentinel_subnet.Remote.Factory.{
  FactoryError, all_from_hex, as_hardware, build, verifier_factory,
}
use sentinel_subnet.Scripts.Scopes.{IsScope, broker_scopes_from, miner_scopes, name_dsn}
use sentinel_subnet.Scripts.Broker.{
  BrokerArgs, build_broker, empty_broker, floor_of, kept_factory, policy_of, store_all,
  trusting_broker,
}
use sentinel_subnet.Scripts.Broker.Endorsed.{Endorsement, release-Endorsement}
use sentinel_subnet.Tests.Fixtures.{Cert, ark, ask, layout, no_kds, pki, plain_crypto, vcek}
use sentinel_subnet.Base.Result.{Result, ok}
use sentinel_subnet.Base.Text.{Text, codes, is_space, lstrip, member, strip, text_eq, truthy}
use sentinel_subnet.Base.Dict.{Dict, IsDict, contains, erase, insert, lookup, retain}
use sentinel_subnet.Base.Int.{pos}
use sentinel_subnet.Base.Decimal.{decimal, digits_before}
use sentinel_subnet.Base.Bytes.{from_hex, from_le, slice, to_hex}
use sentinel_subnet.Base.{Option, [], false, if◌then◌else◌, none, refl, replicate, some, ◌∷◌, ◌≡◌}

abbrev args : BrokerArgs
args = record {
  scope = codes "db= postgres://db" ∷ [];
  measurement = to_hex (replicate 48 1) ∷ [];
  min_tcb = none;
  product = codes "Milan";
  allow_mock_chip = [];
}

-- Certificates are read from one letter.
abbrev load_der : Text → Option Cert
load_der der =
    if text_eq der (codes "v")
    then some vcek
    else if text_eq der (codes "s")
    then some ask
    else if text_eq der (codes "r")
    then some ark
    else none

abbrev platform : Platform Cert
platform = record { crypto = plain_crypto; load_der = load_der }

abbrev certs : Dict Text
certs = (codes "VCEK", codes "v") ∷ (codes "ASK", codes "s") ∷ (codes "ARK", codes "r") ∷ []

abbrev make : Dict Text → Result FactoryError (SevSnpVerifier Cert)
make = build load_der (codes "Milan") (record {
  approved = replicate 48 1 ∷ [];
  floor = min_tcb_for (codes "Milan");
  allow_debug = false;
})

abbrev built : KeyBroker Cert
built = record {
  policy = policy_of args;
  sevsnp = none;
  sevsnp_certs = [];
  sevsnp_factory = some (kept_factory pki no_kds platform make);
  secrets = (codes "db", record { dsn = codes "postgres://db"; resource = codes "db" }) ∷ [];
  trusted_chips = [];
  issued_nonces = [];
}

built_broker : build_broker pki no_kds platform args ≡ ok built
unfolding build_broker trusting_broker broker_scopes_from name_dsn cut strip lstrip is_space
    contains insert lookup store_all store_secret policy_of floor_of empty_broker verifier_factory
    all_from_hex from_hex to_hex text_eq
built_broker = refl

abbrev serving : KeyBroker Cert
serving = record built { issued_nonces = (codes "n1", 100) ∷ [] }

abbrev bare : AttestationReport
bare = record {
  chip_id = codes "c";
  launch_measurement = codes "m";
  tcb_level = pos 8;
  nonce = codes "n1";
  report_data = codes "kbs-release:db";
  signature = [];
}

abbrev blob : Text
blob = encode (record layout { report_data = plain_crypto.sha512 (canonical bare) })

abbrev report : AttestationReport
report = record bare { signature = to_hex blob }

released :
    release platform 50 (codes "db") report (some certs) serving
    ≡ (ok (record { dsn = codes "postgres://db"; resource = codes "db" }), built)
unfolding release release_checks verify_proof verify_sevsnp looks_like_sevsnp release_binding
    bind_response as_release_error canonical dumps dump_fields lookup contains retain erase
    expire_nonces text_eq quoted escaped escape_char escape_other decimal digits_before print_int
    print_entries insert_sorted text_leb leaf_of truthy choose_verifier kept_factory as_hardware
    build verify_signed_message verify_report parse_report fields slice u32 u64 from_le unpack
    obtain_vcek endorse cert_chain verify_vcek verify_self verify_cert_signature check_by_kind
    expected_root amd_root_spki_sha256 verify_signature is_elliptic der_signature signed_bytes check
    member debug_allowed_by unbound pad64 require_p384 to_hex from_hex min_tcb_for
released = refl

serving-IsDict : IsDict serving.issued_nonces
unfolding lookup
serving-IsDict = (refl, tt)

release-Endorsement_example : Endorsement pki no_kds platform args report certs
release-Endorsement_example =
    release-Endorsement pki no_kds platform args built serving built 50 (codes "db") report
      (some certs) (record { dsn = codes "postgres://db"; resource = codes "db" }) refl built_broker
      (record {
        policy = refl;
        sevsnp = refl;
        certs = refl;
        factory = refl;
        secrets = refl;
        chips = refl;
      })
      serving-IsDict released

abbrev parsed : Dict Text
parsed = (codes "tickets", codes "sqlite:///t") ∷ (codes "sales", codes "sqlite:///s") ∷ []

scopes_parsed :
    miner_scopes false [] (codes "tickets=sqlite:///t" ∷ codes " sales = sqlite:///s" ∷ [])
    ≡ ok parsed
unfolding miner_scopes name_dsn cut strip lstrip is_space contains insert lookup text_eq
scopes_parsed = refl

tickets-IsScope : IsScope false (codes "tickets", codes "sqlite:///t")
tickets-IsScope = record { named = refl; undotted = refl; custody = refl }
