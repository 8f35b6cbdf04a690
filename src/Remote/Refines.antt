-- ===== src/Remote/Refines.antt =====
-- The remote broker against the broker that it stands for (sentinel/kbs_remote.py with sentinel/kbs.py
-- and sentinel/serving/server.py).
use sentinel_subnet.Attestation.{AttestationReport, Crypto}
use sentinel_subnet.Base.Json.{Fields, Json, end, field, obj, str}
use sentinel_subnet.Kbs.{
  Credentials, KeyBroker, Platform, ReleaseError, challenge, crashed, factory_failed, no_leaf,
  no_secret, no_verifier, other_resource, rejected, release, unknown_nonce, untrusted_chip,
}
use sentinel_subnet.Registry.{get}
use sentinel_subnet.Enclave.{report_fields}
use sentinel_subnet.Serving.Handler.{body_of}
use sentinel_subnet.Serving.Handler.Routing.{Response, encoded}
use sentinel_subnet.Serving.Server.{
  Sent, before_query, dispatch, max_body_bytes, read_body, write, written,
}
use sentinel_subnet.Remote.Client.{
  Answer, ClientRuntime, RemoteError, broker_unreachable, certificate_fields, credentials_of,
  detail_of, http_error, item, post, read_answer, refused_by, release_payload, remote_challenge,
  remote_release, replied, unreachable,
}
use sentinel_subnet.Remote.Broker.{
  BrokerRuntime, broker_handle, decode_certs, decoded, release_answer, serve_payload, serve_release,
  serve_report, takes_arguments,
}
use sentinel_subnet.Base.Result.{Result, err, ok, ◌>>=◌}
use sentinel_subnet.Base.Text.{Text, codes, text_eq}
use sentinel_subnet.Base.Dict.{Dict}
use sentinel_subnet.Base.Int.{ltb_ℤ, pos}
use sentinel_subnet.Base.{
  Option, [], ap, arith, false, if◌then◌else◌, leb, length, ltb, none, refl, some, take_all, true,
  ℕ, ◌&&◌, ◌++◌, ◌∙◌, ◌∷◌, ◌≡◌, ◌≤◌,
}

-- What a local refusal is to the client.
abbrev pub as_remote :
    (refusal : ReleaseError → Text)
    → Result ReleaseError Credentials
    → Result RemoteError Credentials
as_remote refusal (ok credentials) = ok credentials
as_remote refusal (err crashed) = err broker_unreachable
as_remote refusal (err e) = err (refused_by (codes "broker refused: " ++ refusal e))

-- Certificates as they arrive: an empty dictionary does not.
abbrev pub sent : Option (Dict Text) → Option (Dict Text)
sent (some (e ∷ certs)) = some (e ∷ certs)
sent _ = none

-- What `urlopen` makes of a written response.
abbrev pub answer_of {ℓ} : {B : Type ℓ} → Option Sent × B → Answer × B
answer_of (none, b) = (unreachable, b)
answer_of (some sent, b) = (
  if leb 200 sent.status && ltb sent.status 300
      then replied sent.body
      else http_error sent.status sent.body,
  b,
)

report_fields-takes : (r : AttestationReport) → takes_arguments (report_fields r) ≡ true
unfolding report_fields takes_arguments get text_eq
report_fields-takes r = refl

module _ {Cert : Type 0} (c : Crypto) (p : Platform Cert) (server : BrokerRuntime)
    (client : ClientRuntime) (to_bytes : Json → Text)
    (untyped : Fields → KeyBroker Cert → Result ReleaseError Credentials × KeyBroker Cert)
    (headers : Dict Text) where
  -- The network between the client and a broker that is served at a reading of the clock.
  abbrev pub network : (now : ℕ) (drawn path body : Text) → KeyBroker Cert → Answer × KeyBroker Cert
  network now drawn path body b = answer_of (
      dispatch to_bytes (broker_handle c p server untyped now drawn) (codes "POST") path headers
        (pos (length body)) body b)

  encoded-decoded :
      ((der : Text) → server.b64decode (client.b64encode der) ≡ some der)
      → (certs : Dict Text) → decoded server.b64decode (encoded client.b64encode certs) ≡ ok certs
  unfolding encoded decoded
  encoded-decoded inverse [] = refl
  encoded-decoded inverse ((name, der) ∷ certs) =
      rw (inverse der, encoded-decoded inverse certs) refl

  certificates_arrive :
      ((der : Text) → server.b64decode (client.b64encode der) ≡ some der)
      → (resource : Text) (report : AttestationReport) (certificates : Option (Dict Text))
      → decode_certs server.b64decode
          (get (codes "certificates") (release_payload client resource report certificates))
        ≡ ok (sent certificates)
  unfolding release_payload certificate_fields decode_certs get text_eq
  certificates_arrive inverse resource report none = refl
  certificates_arrive inverse resource report (some []) = refl
  certificates_arrive inverse resource report (some (e ∷ certs)) =
      rw (encoded-decoded inverse (e ∷ certs)) refl

  -- A body that reads as a payload reaches the route.
  posted :
      (now : ℕ) (drawn path body : Text) (payload : Fields) (b : KeyBroker Cert)
      → length body ≤ max_body_bytes
      → before_query path ≡ path
      → text_eq path (codes "/health") ≡ false
      → body_of c server.loads body ≡ ok payload
      → network now drawn path body b
        ≡ answer_of (written to_bytes (serve_payload c p server untyped now drawn path payload b))
  unfolding dispatch broker_handle read_body ltb_ℤ text_eq
  posted now drawn path body payload b small plain other read =
      rw (plain, take_all body) (ground (arith, other, read))

  -- A 403 with its reason is a refusal with that reason.
  refused_reply :
      (reason : Text)
      → client.loads (to_bytes (obj (field (codes "error") (str reason) end)))
        ≡ some (obj (field (codes "error") (str reason) end))
      → (read_answer client
            (http_error 403 (to_bytes (obj (field (codes "error") (str reason) end))))
          >>= credentials_of client)
        ≡ err (refused_by (codes "broker refused: " ++ reason))
  unfolding read_answer detail_of get text_eq
  refused_reply reason reads = ground (arith, reads)

  read_reply :
      (answered : Result ReleaseError Credentials × KeyBroker Cert)
      → ((response : Response)
          → (release_answer c p server answered).0 ≡ ok response
          → client.loads (to_bytes (obj response.payload)) ≡ some (obj response.payload))
      → (read_answer client (answer_of (written to_bytes (release_answer c p server answered))).0
          >>= credentials_of client)
        ≡ as_remote server.refusal answered.0
  unfolding release_answer write written read_answer detail_of credentials_of item get text_eq
  read_reply (ok credentials, b) reads = rw (reads _ refl) refl
  read_reply (err crashed, b) reads = refl
  read_reply (err no_secret, b) reads = refused_reply _ (reads _ refl)
  read_reply (err unknown_nonce, b) reads = refused_reply _ (reads _ refl)
  read_reply (err untrusted_chip, b) reads = refused_reply _ (reads _ refl)
  read_reply (err no_verifier, b) reads = refused_reply _ (reads _ refl)
  read_reply (err no_leaf, b) reads = refused_reply _ (reads _ refl)
  read_reply (err other_resource, b) reads = refused_reply _ (reads _ refl)
  read_reply (err factory_failed, b) reads = refused_reply _ (reads _ refl)
  read_reply (err (rejected r), b) reads = refused_reply _ (reads _ refl)

  release_answer-broker :
      (answered : Result ReleaseError Credentials × KeyBroker Cert)
      → (answer_of (written to_bytes (release_answer c p server answered))).1 ≡ answered.1
  unfolding release_answer write written
  release_answer-broker (ok credentials, b) = refl
  release_answer-broker (err crashed, b) = refl
  release_answer-broker (err no_secret, b) = refl
  release_answer-broker (err unknown_nonce, b) = refl
  release_answer-broker (err untrusted_chip, b) = refl
  release_answer-broker (err no_verifier, b) = refl
  release_answer-broker (err no_leaf, b) = refl
  release_answer-broker (err other_resource, b) = refl
  release_answer-broker (err factory_failed, b) = refl
  release_answer-broker (err (rejected r), b) = refl

  -- What the JSON readers and Base64 have to do: each side reads what the other wrote.
  pub record Wire (now : ℕ) (resource : Text) (report : AttestationReport)
      (certificates : Option (Dict Text)) (b : KeyBroker Cert) : Type 0 where
    pub inverse : (der : Text) → server.b64decode (client.b64encode der) ≡ some der
    pub small :
        length (client.dumps (obj (release_payload client resource report certificates)))
        ≤ max_body_bytes
    pub request :
        body_of c server.loads
          (client.dumps (obj (release_payload client resource report certificates)))
        ≡ ok (release_payload client resource report certificates)
    pub reply :
        (response : Response)
        → (release_answer c p server (release p now resource report (sent certificates) b)).0
          ≡ ok response
        → client.loads (to_bytes (obj response.payload)) ≡ some (obj response.payload)

  release_route :
      (now : ℕ) (drawn resource : Text) (report : AttestationReport)
      (certificates : Option (Dict Text)) (b : KeyBroker Cert)
      → ((der : Text) → server.b64decode (client.b64encode der) ≡ some der)
      → serve_payload c p server untyped now drawn
          (codes "/release")
          (release_payload client resource report certificates)
          b
        ≡ release_answer c p server (release p now resource report (sent certificates) b)
  unfolding serve_payload serve_release serve_report release_payload get text_eq
  release_route now drawn resource report certificates b inverse =
      rw (report_fields-takes report, certificates_arrive inverse resource report certificates) refl

  -- A release over the network is the broker's own release of the same report at that moment, with
  -- the same broker after it: the same credential; a refusal with the broker's reason; a broker that
  -- crashed looks unreachable. An empty dictionary of certificates counts as none. For bodies that
  -- fit, JSON that each side reads as the other wrote it, and Base64 that decodes what it encoded.
  pub remote_release-release :
      (now : ℕ) (drawn resource : Text) (report : AttestationReport)
      (certificates : Option (Dict Text)) (b : KeyBroker Cert)
      → Wire now resource report certificates b
      → remote_release client (network now drawn) resource report certificates b ≡ (
        as_remote server.refusal (release p now resource report (sent certificates) b).0,
        (release p now resource report (sent certificates) b).1,
      )
  unfolding remote_release post before_query text_eq
  remote_release-release now drawn resource report certificates b wire =
      let payload = release_payload client resource report certificates in
      let local = release p now resource report (sent certificates) b in
      let sends =
        posted now drawn (codes "/release") (client.dumps (obj payload)) payload b wire.small refl
          refl wire.request
        ∙ ap (λ r. answer_of (written to_bytes r))
            (release_route now drawn resource report certificates b wire.inverse) in
      rw sends (cc (read_reply local wire.reply, release_answer-broker local))

  -- The same for a challenge that draws a nonce.
  pub record ChallengeWire (drawn : Text) : Type 0 where
    pub small : length (client.dumps (obj end)) ≤ max_body_bytes
    pub request : body_of c server.loads (client.dumps (obj end)) ≡ ok end
    pub reply :
        client.loads (to_bytes (obj (field (codes "nonce") (str drawn) end)))
        ≡ some (obj (field (codes "nonce") (str drawn) end))

  -- A challenge over the network is the broker's own.
  pub remote_challenge-challenge :
      (now : ℕ) (drawn : Text) (b : KeyBroker Cert)
      → ChallengeWire drawn
      → remote_challenge client (network now drawn) b ≡ (ok drawn, challenge now drawn b)
  unfolding remote_challenge post before_query text_eq serve_payload write written read_answer item
      get
  remote_challenge-challenge now drawn b wire =
      let sends =
        posted now drawn (codes "/challenge") (client.dumps (obj end)) end b wire.small refl refl
          wire.request in
      let read = wire.reply in rw sends (ground (arith, read))
