-- ===== src/Tests/Network.antt =====
-- The remote broker's theorems at concrete inputs: JSON is read and written for the messages at hand.
use sentinel_subnet.Attestation.{AttestationReport, attest, canonical, unsigned}
use sentinel_subnet.Base.Json.{Fields, Json, end, field, obj, str}
use sentinel_subnet.Kbs.{
  Credentials, KeyBroker, ReleaseError, challenge, crashed, factory_failed, no_leaf, no_secret,
  no_verifier, other_resource, rejected, release, release_binding, unknown_nonce, untrusted_chip,
}
use sentinel_subnet.Enclave.{unlock}
use sentinel_subnet.Serving.Handler.{ServeError, body_of}
use sentinel_subnet.Serving.Handler.Routing.{Response}
use sentinel_subnet.Remote.Client.{ClientRuntime, release_payload, remote_release, remote_unlock}
use sentinel_subnet.Remote.Broker.{BrokerRuntime, release_answer}
use sentinel_subnet.Remote.Refines.{ChallengeWire, Wire, as_remote, network, remote_release-release}
use sentinel_subnet.Remote.Unlock.{as_remote_unlock, remote_unlock-unlock}
use sentinel_subnet.Tests.Fixtures.{Cert, plain_crypto}
use sentinel_subnet.Tests.Broker.{broker, enclave, platform, proof}
use sentinel_subnet.Base.Result.{Result, err, ok, ok-injective}
use sentinel_subnet.Base.Text.{Text, codes, text_eq}
use sentinel_subnet.Base.{
  Option, [], arith, drop, drop-append, if◌then◌else◌, length, none, refl, some, subst, take,
  take-append, ℕ, ◌++◌, ◌==◌, ◌∷◌, ◌≡◌,
}

-- A reply, with its texts behind one another.
abbrev to_bytes : Json → Text
to_bytes (obj (field k (str s) end)) = (if text_eq k (codes "error") then b'e' else b'n') ∷ s
to_bytes (obj (field k (str s) (field j (str t) end))) = b'd' ∷ length s ∷ (s ++ t)
to_bytes j = []

abbrev texts_in : Text → Option Json
texts_in [] = none
texts_in (n ∷ s) =
    some
      (obj (field (codes "dsn") (str (take n s)) (field (codes "resource") (str (drop n s)) end)))

abbrev read_back : Text → Option Json
read_back [] = none
read_back (k ∷ s) =
    if k == b'e'
    then some (obj (field (codes "error") (str s) end))
    else if k == b'n'
    then some (obj (field (codes "nonce") (str s) end))
    else texts_in s

-- A request is "c" for a challenge and "r" for a release.
abbrev written : Json → Text
written (obj end) = codes "c"
written j = codes "r"

abbrev client : ClientRuntime
client = record { loads = read_back; dumps = written; b64encode = λ der. der; str_of = λ j. [] }

abbrev reads : Fields → Text → Result ServeError Json
reads payload text = if text_eq text (codes "c") then ok (obj end) else ok (obj payload)

abbrev server : Fields → BrokerRuntime
server payload = record {
  loads = reads payload;
  b64decode = λ text. some text;
  message = λ e. [];
  refusal = λ e. codes "no";
}

abbrev no_untyped : Fields → KeyBroker Cert → Result ReleaseError Credentials × KeyBroker Cert
no_untyped fs b = (err unknown_nonce, b)

refused_reads :
    {response : Response}
    → ◌≡◌ {A = Result ServeError Response}
        (ok (record { status = 403; payload = field (codes "error") (str (codes "no")) end }))
        (ok response)
    → read_back (to_bytes (obj response.payload)) ≡ some (obj response.payload)
unfolding text_eq
refused_reads h =
    subst (λ (r : Response). read_back (to_bytes (obj r.payload)) ≡ some (obj r.payload))
      (ok-injective h) refl

answer_reads :
    (payload : Fields) (answered : Result ReleaseError Credentials × KeyBroker Cert)
    (response : Response)
    → (release_answer plain_crypto platform (server payload) answered).0 ≡ ok response
    → read_back (to_bytes (obj response.payload)) ≡ some (obj response.payload)
unfolding release_answer text_eq
answer_reads payload (ok c, b) response h =
    subst (λ (r : Response). read_back (to_bytes (obj r.payload)) ≡ some (obj r.payload))
      (ok-injective h)
      (rw
        (
          take-append c.dsn c.resource (length c.dsn) refl,
          drop-append c.dsn c.resource (length c.dsn) refl,
        )
        refl)
answer_reads payload (err crashed, b) response h = cc h
answer_reads payload (err no_secret, b) response h = refused_reads h
answer_reads payload (err unknown_nonce, b) response h = refused_reads h
answer_reads payload (err untrusted_chip, b) response h = refused_reads h
answer_reads payload (err no_verifier, b) response h = refused_reads h
answer_reads payload (err no_leaf, b) response h = refused_reads h
answer_reads payload (err other_resource, b) response h = refused_reads h
answer_reads payload (err factory_failed, b) response h = refused_reads h
answer_reads payload (err (rejected r), b) response h = refused_reads h

wire :
    (now : ℕ) (report : AttestationReport) (b : KeyBroker Cert)
    → Wire plain_crypto platform
        (server (release_payload client (codes "db") report none))
        client
        to_bytes
        no_untyped
        []
        now
        (codes "db")
        report
        none
        b
unfolding release_payload text_eq body_of
wire now report b = record {
  inverse = λ der. refl;
  small = omega arith;
  request = refl;
  reply = λ response h. answer_reads _ (release platform now (codes "db") report none b) response h;
}

remote_release-release_example :
    remote_release client
      (network plain_crypto platform
        (server (release_payload client (codes "db") proof none))
        client
        to_bytes
        no_untyped
        []
        50
        (codes "n5"))
      (codes "db")
      proof
      none
      broker
    ≡ (
      as_remote (λ e. codes "no") (release platform 50 (codes "db") proof none broker).0,
      (release platform 50 (codes "db") proof none broker).1,
    )
remote_release-release_example =
    remote_release-release plain_crypto platform
      (server (release_payload client (codes "db") proof none)) client to_bytes no_untyped [] 50
      (codes "n5") (codes "db") proof none broker (wire 50 proof broker)

-- The report that the enclave makes for the challenge "n9".
abbrev answer : AttestationReport
answer =
    let bare = unsigned enclave.agent (codes "n9") (release_binding plain_crypto (codes "db")) in
    record bare { signature = codes "key" ++ canonical bare }

abbrev asking : Fields
asking = release_payload client (codes "db") answer none

answer_made :
    (report : AttestationReport)
    → attest enclave.agent (codes "n9") (release_binding plain_crypto (codes "db")) ≡ ok report
    → answer ≡ report
unfolding attest
answer_made report made = ok-injective made

challenge_wire :
    ChallengeWire plain_crypto platform (server asking) client to_bytes no_untyped [] (codes "n9")
unfolding text_eq body_of
challenge_wire = record { small = omega arith; request = refl; reply = refl }

remote_unlock-unlock_example :
    remote_unlock plain_crypto client
      (network plain_crypto platform (server asking) client to_bytes no_untyped [] 10 (codes "n9"))
      (network plain_crypto platform (server asking) client to_bytes no_untyped [] 70 (codes "x"))
      (codes "db")
      enclave
      broker
    ≡ (
      as_remote_unlock
          (λ e. codes "no")
          (unlock platform 10 70 (codes "n9") (codes "db") enclave broker).0,
      (unlock platform 10 70 (codes "n9") (codes "db") enclave broker).1,
      (unlock platform 10 70 (codes "n9") (codes "db") enclave broker).2,
    )
remote_unlock-unlock_example =
    remote_unlock-unlock plain_crypto platform (server asking) client to_bytes no_untyped [] 10 70
      (codes "n9") (codes "x") (codes "db") enclave broker refl challenge_wire
      (λ report made.
        subst
          (λ (r : AttestationReport).
            Wire plain_crypto platform (server asking) client to_bytes no_untyped [] 70 (codes "db")
              r none (challenge 10 (codes "n9") broker))
          (answer_made report made) (wire 70 answer (challenge 10 (codes "n9") broker)))
