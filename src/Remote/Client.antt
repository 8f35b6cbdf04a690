-- ===== src/Remote/Client.antt =====
-- sentinel/kbs_remote.py: `RemoteBroker`. The network is an argument: what a POST of a body to a path of
-- the broker answers, and the world after it.
use mathlib.Core.List.{reverse}
use sentinel_subnet.Attestation.{AttestationReport, Crypto, attest}
use sentinel_subnet.Base.Json.{Fields, Json, end, field, obj, str}
use sentinel_subnet.Kbs.{Credentials, release_binding}
use sentinel_subnet.Registry.{get}
use sentinel_subnet.Enclave.{Enclave, report_fields}
use sentinel_subnet.Serving.Handler.Routing.{encoded}
use sentinel_subnet.Base.Result.{Result, err, ok, or_raise, raise_if, ◌>>=◌, ◌>>◌}
use sentinel_subnet.Base.Text.{Text, codes, starts_with}
use sentinel_subnet.Base.Dict.{Dict, insert}
use sentinel_subnet.Base.{
  Bool, Option, [], given_or, if◌then◌else◌, none, not, some, ℕ, ◌&&◌, ◌++◌, ◌==◌, ◌||◌, ◌∷◌,
}

-- What `urlopen` gives: the body of a reply, an `HTTPError` with its status and body, or no connection.
pub data Answer : Type 0 where
  replied : Text → Answer
  http_error : (code : ℕ) (body : Text) → Answer
  unreachable : Answer

-- What the client raises. `refused_by` is `CredentialReleaseError` with its message; `broken` is any
-- exception that it does not mean to raise.
pub data RemoteError : Type 0 where
  refused_by : Text → RemoteError
  broker_unreachable : RemoteError
  broken : RemoteError

pub data UrlError : Type 0 where
  not_http plaintext : UrlError

pub record ClientRuntime : Type 0 where
  pub loads : Text → Option Json
  pub dumps : Json → Text
  pub b64encode : Text → Text
  pub str_of : Json → Text

pub record RemoteBroker : Type 0 where
  pub url : Text

-- `url.rstrip("/")`
unfoldable pub lstrip_slash : Text → Text
lstrip_slash [] = []
lstrip_slash (k ∷ s) = let rest = lstrip_slash s in if k == b'/' then rest else k ∷ s

unfoldable pub rstrip_slash : Text → Text
unfolding lstrip_slash
rstrip_slash s = reverse (lstrip_slash (reverse s))

-- `RemoteBroker.__init__`
unfoldable pub new_remote : (url : Text) (insecure : Bool) → Result UrlError RemoteBroker
unfolding rstrip_slash starts_with
new_remote given insecure = do
  let url = rstrip_slash given
  raise_if (not (starts_with url (codes "http://") || starts_with url (codes "https://"))) not_http
  raise_if (starts_with url (codes "http://") && not insecure) plaintext
  ok (record { url = url })

-- `str` of a value, in an f-string: a text as it is.
abbrev pub shown : (str_of : Json → Text) → Json → Text
shown str_of (str s) = s
shown str_of j = str_of j

module _ (rt : ClientRuntime) where
  -- `json.loads(detail).get("error", detail)`: only a JSON object has `get`.
  unfoldable pub detail_of : Text → Result RemoteError Text
  unfolding get
  detail_of body = elim (rt.loads body) [
    | none ↦ ok body
    | some (obj fs) ↦ ok (shown rt.str_of (given_or (get (codes "error") fs) (str body)))
    | some j ↦ err broken
  ]

  -- The `try` of `_post`, by what the network answered.
  unfoldable pub read_answer : Answer → Result RemoteError Json
  unfolding detail_of
  read_answer (replied body) = or_raise (rt.loads body) broker_unreachable
  read_answer (http_error code body) = do
    detail ← detail_of body
    err (
        if code == 403 then refused_by (codes "broker refused: " ++ detail) else broker_unreachable)
  read_answer unreachable = err broker_unreachable

  -- `json_object[key]`
  unfoldable pub item : Text → Json → Result RemoteError Json
  unfolding get
  item key (obj fs) = or_raise (get key fs) broken
  item key j = err broken

  -- Certificates as they are sent: an empty dictionary is not.
  unfoldable pub certificate_fields : Option (Dict Text) → Fields
  unfolding encoded
  certificate_fields (some (e ∷ certs)) =
      field (codes "certificates") (obj (encoded rt.b64encode (e ∷ certs))) end
  certificate_fields _ = end

  unfoldable pub release_payload :
      (resource : Text) → AttestationReport → Option (Dict Text) → Fields
  unfolding report_fields certificate_fields
  release_payload resource report certificates =
      field (codes "resource") (str resource)
        (field (codes "attestation") (obj (report_fields report)) (certificate_fields certificates))

  -- `Credentials(dsn=answer["dsn"], resource=answer["resource"])`; a value that is no text is carried as
  -- what it prints as.
  unfoldable pub credentials_of : Json → Result RemoteError Credentials
  unfolding item
  credentials_of answer = do
    dsn ← item (codes "dsn") answer
    resource ← item (codes "resource") answer
    ok (record { dsn = shown rt.str_of dsn; resource = shown rt.str_of resource })

module _ {W : Type 0} (rt : ClientRuntime) (send : (path body : Text) → W → Answer × W) where
  -- `_post`
  unfoldable pub post : (path : Text) → Fields → W → Result RemoteError Json × W
  unfolding read_answer
  post path payload w =
      let sent = send path (rt.dumps (obj payload)) w in (read_answer rt sent.0, sent.1)

  unfoldable pub remote_challenge : W → Result RemoteError Text × W
  unfolding post item
  remote_challenge w =
      let posted = post (codes "/challenge") end w in
      (
        (do answer ← posted.0; nonce ← item rt (codes "nonce") answer; ok (shown rt.str_of nonce)),
        posted.1,
      )

  unfoldable pub remote_release :
      (resource : Text)
      → AttestationReport
      → Option (Dict Text)
      → W
      → Result RemoteError Credentials × W
  unfolding post release_payload credentials_of
  remote_release resource report certificates w =
      let posted = post (codes "/release") (release_payload rt resource report certificates) w in
      (posted.0 >>= credentials_of rt, posted.1)

-- What `unlock` raises over a remote broker: what the chip raises, or the client.
pub data RemoteUnlockError (E : Type 0) : Type 0 where
  no_report : E → RemoteUnlockError E
  no_credential : RemoteError → RemoteUnlockError E

module _ {E W : Type 0} where
  unfoldable pub keep_remote :
      (resource : Text)
      → Enclave E
      → Result RemoteError Credentials × W
      → Result (RemoteUnlockError E) Credentials × Enclave E × W
  unfolding insert
  keep_remote resource e (err r, w) = (err (no_credential r), e, w)
  keep_remote resource e (ok credentials, w) =
      (ok credentials, record e { credentials = insert resource credentials e.credentials }, w)

  -- `unlock` behind the challenge
  unfoldable pub prove_remote :
      Crypto
      → ClientRuntime
      → (send : (path body : Text) → W → Answer × W) → (resource : Text) → Enclave E
      → Result RemoteError Text × W
      → Result (RemoteUnlockError E) Credentials × Enclave E × W
  unfolding attest release_binding remote_release keep_remote
  prove_remote c rt send resource e (err r, w) = (err (no_credential r), e, w)
  prove_remote c rt send resource e (ok nonce, w) =
      elim (attest e.agent nonce (release_binding c resource)) [
        | err failed ↦ (err (no_report failed), e, w)
        | ok report ↦
            keep_remote resource e (remote_release rt send resource report e.certificates w)
      ]

  -- `Enclave.unlock` with a `RemoteBroker`: one POST for the challenge, one for the release.
  unfoldable pub remote_unlock :
      Crypto
      → ClientRuntime
      → (first second : (path body : Text) → W → Answer × W) → (resource : Text) → Enclave E
      → W
      → Result (RemoteUnlockError E) Credentials × Enclave E × W
  unfolding remote_challenge prove_remote
  remote_unlock c rt first second resource e w =
      prove_remote c rt second resource e (remote_challenge rt first w)
