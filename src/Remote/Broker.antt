-- ===== src/Remote/Broker.antt =====
-- sentinel/kbs_remote.py: `_decode_certs` and `BrokerHandler.handle`.

use sentinel_subnet.Attestation.{AttestationReport, Crypto}
use sentinel_subnet.Base.Json.{Fields, Json, end, field, int, null, obj, str}
use sentinel_subnet.Kbs.{
  Credentials, KeyBroker, Platform, ReleaseError, challenge, crashed, release,
}
use sentinel_subnet.Registry.{get}
use sentinel_subnet.Serving.Handler.{ServeError, bad_request, body_of, internal}
use sentinel_subnet.Serving.Handler.Routing.{Request, Response}
use sentinel_subnet.Base.Result.{Result, err, ok, or_raise, ◌>>=◌}
use sentinel_subnet.Base.Text.{Text, codes, member, text_eq}
use sentinel_subnet.Base.Dict.{Dict}
use sentinel_subnet.Base.Int.{ℤ}
use sentinel_subnet.Base.{
  Bool, List, Option, [], all, if◌then◌else◌, is_some, none, not, some, true, ℕ, ◌&&◌, ◌++◌, ◌∷◌,
}

-- What Python gives: the JSON reader, Base64 with `validate=True`, `str(exc)`.
pub record BrokerRuntime : Type 0 where
  pub loads : Text → Result ServeError Json
  pub b64decode : Text → Option Text
  pub message : ServeError → Text
  pub refusal : ReleaseError → Text

-- The values of an object of certificates; a `ValueError` where one does not decode. The names of an
-- object are distinct.
unfoldable pub decoded : (b64decode : Text → Option Text) → Fields → Result ServeError (Dict Text)
decoded b64decode end = ok []
decoded b64decode (field name (str value) fs) = do
  der ← or_raise (b64decode value) bad_request
  certs ← decoded b64decode fs
  ok ((name, der) ∷ certs)
decoded b64decode (field name j fs) = err bad_request

-- `_decode_certs`
unfoldable pub decode_certs :
    (b64decode : Text → Option Text) → Option Json → Result ServeError (Option (Dict Text))
unfolding decoded
decode_certs b64decode none = ok none
decode_certs b64decode (some null) = ok none
decode_certs b64decode (some (obj fs)) = do certs ← decoded b64decode fs; ok (some certs)
decode_certs b64decode (some j) = err bad_request

abbrev pub report_keys : List Text
report_keys =
    codes "chip_id"
    ∷ codes "launch_measurement"
    ∷ codes "tcb_level"
    ∷ codes "nonce"
    ∷ codes "report_data"
    ∷ codes "signature"
    ∷ []

unfoldable pub keys_within : List Text → Fields → Bool
unfolding member
keys_within keys end = true
keys_within keys (field k v fs) = member k keys && keys_within keys fs

-- The constructor call takes the arguments: all six, and no other.
unfoldable pub takes_arguments : Fields → Bool
unfolding keys_within get
takes_arguments fs = keys_within report_keys fs && all (λ k. is_some (get k fs)) report_keys

-- The report where its fields have the declared types, which Python does not check.
unfoldable pub text_of : Option Json → Option Text
text_of (some (str s)) = some s
text_of _ = none

unfoldable pub int_of : Option Json → Option ℤ
int_of (some (int n)) = some n
int_of _ = none

unfoldable pub report_of_parts :
    Option Text
    → Option Text
    → Option ℤ
    → Option Text
    → Option Text
    → Option Text
    → Option AttestationReport
report_of_parts (some chip) (some measured) (some level) (some nonce) (some bound) (some s) =
    some (record {
      chip_id = chip;
      launch_measurement = measured;
      tcb_level = level;
      nonce = nonce;
      report_data = bound;
      signature = s;
    })
report_of_parts _ _ _ _ _ _ = none

unfoldable pub typed_report : Fields → Option AttestationReport
unfolding get text_of int_of report_of_parts
typed_report fs =
    report_of_parts (text_of (get (codes "chip_id") fs))
      (text_of (get (codes "launch_measurement") fs)) (int_of (get (codes "tcb_level") fs))
      (text_of (get (codes "nonce") fs)) (text_of (get (codes "report_data") fs))
      (text_of (get (codes "signature") fs))

abbrev pub bad_request_with : Text → Response
bad_request_with text = record { status = 400; payload = field (codes "error") (str text) end }

module _ {Cert : Type 0} (c : Crypto) (p : Platform Cert) (rt : BrokerRuntime) where
  -- The end of the release route, by what the broker answers. An exception that is no
  -- `CredentialReleaseError` leaves `handle`.
  unfoldable pub release_answer :
      {B : Type 0} → Result ReleaseError Credentials × B → Result ServeError Response × B
  release_answer (ok credentials, b) = (
    ok (record {
      status = 200;
      payload =
          field (codes "dsn") (str credentials.dsn)
            (field (codes "resource") (str credentials.resource) end);
    }),
    b,
  )
  release_answer (err crashed, b) = (err internal, b)
  release_answer (err e, b) =
      (ok (record { status = 403; payload = field (codes "error") (str (rt.refusal e)) end }), b)

  -- The release of a report; `untyped` is what the broker makes of one whose fields hold values of
  -- other types than declared.
  unfoldable pub serve_report :
      (untyped : Fields → KeyBroker Cert → Result ReleaseError Credentials × KeyBroker Cert)
      → (now : ℕ) (resource : Text) (attestation : Fields) (certificates : Option (Dict Text))
      → KeyBroker Cert
      → Result ServeError Response × KeyBroker Cert
  unfolding typed_report release release_answer
  serve_report untyped now resource attestation certificates b =
      release_answer (elim (typed_report attestation) [
        | some report ↦ release p now resource report certificates b
        | none ↦ untyped attestation b
      ])

  -- The `/release` route, on `resource`, `attestation` and `certificates` of the payload.
  unfoldable pub serve_release :
      (untyped : Fields → KeyBroker Cert → Result ReleaseError Credentials × KeyBroker Cert)
      → (now : ℕ) (resource attestation certificates : Option Json) → KeyBroker Cert
      → Result ServeError Response × KeyBroker Cert
  unfolding takes_arguments decode_certs serve_report
  serve_release untyped now (some (str resource)) (some (obj attestation)) certificates b =
      if takes_arguments attestation
      then elim (decode_certs rt.b64decode certificates) [
        | err e ↦ (ok (bad_request_with (rt.message e)), b)
        | ok certs ↦ serve_report untyped now resource attestation certs b
      ]
      else (ok (bad_request_with (rt.message bad_request)), b)
  serve_release untyped now resource attestation certificates b =
      (ok (bad_request_with (codes "resource and attestation are required")), b)

  -- The two routes that take a payload.
  unfoldable pub serve_payload :
      (untyped : Fields → KeyBroker Cert → Result ReleaseError Credentials × KeyBroker Cert)
      → (now : ℕ) (drawn path : Text) (payload : Fields) → KeyBroker Cert
      → Result ServeError Response × KeyBroker Cert
  unfolding challenge serve_release get text_eq
  serve_payload untyped now drawn path payload b =
      if text_eq path (codes "/challenge")
      then (
        ok (record { status = 200; payload = field (codes "nonce") (str drawn) end }),
        challenge now drawn b,
      )
      else if text_eq path (codes "/release")
      then serve_release untyped now (get (codes "resource") payload)
          (get (codes "attestation") payload) (get (codes "certificates") payload) b
      else (
        ok (record {
          status = 404;
          payload = field (codes "error") (str (codes "no route for " ++ path)) end;
        }),
        b,
      )

  -- `BrokerHandler.handle`, at a reading of the clock and with the nonce that a challenge draws
  unfoldable pub broker_handle :
      (untyped : Fields → KeyBroker Cert → Result ReleaseError Credentials × KeyBroker Cert)
      → (now : ℕ) (drawn : Text) → Request
      → KeyBroker Cert
      → Result ServeError Response × KeyBroker Cert
  unfolding text_eq body_of serve_payload
  broker_handle untyped now drawn r b =
      if text_eq r.path (codes "/health")
      then (
        ok (record {
          status = 200;
          payload =
              field (codes "status") (str (codes "ok"))
                (field (codes "role") (str (codes "broker")) end);
        }),
        b,
      )
      else if not (text_eq r.method (codes "POST"))
      then (
        ok (record {
          status = 405;
          payload = field (codes "error") (str (r.method ++ codes " not allowed")) end;
        }),
        b,
      )
      else elim (body_of c rt.loads r.body) [
        | err e ↦ (ok (bad_request_with (rt.message e)), b)
        | ok payload ↦ serve_payload untyped now drawn r.path payload b
      ]
