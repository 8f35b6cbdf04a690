-- ===== src/Serving/Handler/Routing.antt =====
-- sentinel/serving/handler.py: `handle`, from a request to its response, and the memory of a chip that
-- stopped answering.
pub mod Health
pub mod Served
pub mod Listed
use sentinel_subnet.Attestation.{Crypto}
use sentinel_subnet.Base.Json.{Fields, Items, Json, arr, bool, cons, end, field, nil, obj, str}
use sentinel_subnet.Registry.{get}
use sentinel_subnet.Enclave.{AttestedResponse, attested_fields}
use sentinel_subnet.Mcp.Server.{list_tools}
use sentinel_subnet.Serving.Handler.{
  Identity, MinerHandler, ServeError, auth_error, authenticate, bad_request, body_of, guest_error,
  serve_call, serve_challenge, tool_allowed, tool_error,
}
use sentinel_subnet.Base.Result.{Result, err, map_err, ok, ◌>>=◌, ◌>>◌}
use sentinel_subnet.Base.Text.{Text, codes, member, text_eq}
use sentinel_subnet.Base.Dict.{Dict}
use sentinel_subnet.Base.{
  Bool, List, Option, String, [], false, given_or, if◌then◌else◌, none, select, some, true, ℕ, ◌&&◌,
  ◌++◌, ◌∷◌,
}

pub record Request : Type 0 where
  pub method : Text
  pub path : Text
  pub headers : Dict Text
  pub body : Text

pub record Response : Type 0 where
  pub status : ℕ
  pub payload : Fields

-- What Python gives the handler: the JSON reader and `str` on a value, `str(exc)` and
-- `type(exc).__name__`, and Base64; and what reading the silicon's public key gives, which raises
-- `GuestError` on hardware.
pub record Runtime : Type 0 where
  pub loads : Text → Result ServeError Json
  pub str_of : Json → Text
  pub message : ServeError → Text
  pub type_name : ServeError → Text
  pub public_key_hex : Result Text Text
  pub b64encode : Text → Text

-- What comes with one request: the nonce that a key's caller gets, what `http_auth.verify` answers, and
-- what reading the silicon's `chip_id` and `certificates` gives `/health` in this request. On hardware
-- a first reading asks the chip, and raises `GuestError` with a message where it does not answer.
pub record Arrival : Type 0 where
  pub request : Request
  pub drawn : Text
  pub signed : Option (Text × Text)
  pub chip_id : Result Text Text
  pub certificates : Result Text (Option (Dict Text))

abbrev pub public_paths : List Text
public_paths = codes "/health" ∷ []

abbrev pub is_at : (method path : String) → Request → Bool
is_at method path r = text_eq r.method (codes method) && text_eq r.path (codes path)

-- `[…]` of values
abbrev pub items_of : List Json → Items
items_of [] = nil
items_of (j ∷ js) = cons j (items_of js)

-- `str(t.get("name", ""))`; `str` leaves a text as it is.
unfoldable pub listed_name : (str_of : Json → Text) → Json → Text
unfolding get
listed_name str_of (obj fs) = elim (given_or (get (codes "name") fs) (str [])) [
  | str s ↦ s
  | j ↦ str_of j
]
listed_name str_of j = []

-- `_in_scope`
unfoldable pub in_scope : (str_of : Json → Text) → List Json → Option (List Text) → List Json
unfolding listed_name tool_allowed
in_scope str_of tools none = tools
in_scope str_of tools (some scopes) =
    select (λ t. tool_allowed (listed_name str_of t) (some scopes)) tools

-- `{name: base64.b64encode(der).decode() for name, der in certificates.items()}`
unfoldable pub encoded : (b64encode : Text → Text) → Dict Text → Fields
encoded b64encode [] = end
encoded b64encode ((name, der) ∷ certs) = field name (str (b64encode der)) (encoded b64encode certs)

-- The body of `/health` behind the identity, by what signs.
unfoldable pub signer_fields : Runtime → Option (Dict Text) → Result ServeError Fields
unfolding encoded
signer_fields rt (some (e ∷ certs)) = ok (
    field (codes "attestation") (str (codes "sev-snp"))
      (field (codes "certificates") (obj (encoded rt.b64encode (e ∷ certs))) end))
signer_fields rt _ = do
  key ← map_err guest_error rt.public_key_hex
  ok (field (codes "attestation") (str (codes "mock")) (field (codes "public_key") (str key) end))

-- `_health`
unfoldable pub health : Runtime → MinerHandler → Arrival → Result ServeError Response
unfolding signer_fields
health rt h a = elim h.attestation_error [
  | some detail ↦ ok (record {
    status = 503;
    payload = field (codes "ok") (bool false) (
        field (codes "hotkey") (str h.hotkey_ss58) (
          field (codes "error") (str (codes "attestation unavailable; the chip is not answering")) (
            field (codes "detail") (str detail) (
              field (codes "recovery")
                (str (
                  codes
                    "a disabled VMPCK needs a host reboot; restarting the process does not clear it"))
                end))));
  })
  | none ↦ do
    chip_id ← map_err guest_error a.chip_id
    certificates ← map_err guest_error a.certificates
    signer ← signer_fields rt certificates
    ok (record {
      status = 200;
      payload = field (codes "ok") (bool true) (
          field (codes "hotkey") (str h.hotkey_ss58) (
            field (codes "chip_id") (str chip_id) (
              field (codes "launch_measurement") (str h.enclave.agent.launch_measurement) signer)));
    })
]

-- `Response(200, {"request_id": request_id, **attested.to_dict()})`
unfoldable pub attested_reply : Text × AttestedResponse → Response
unfolding attested_fields
attested_reply (request_id, attested) = record {
  status = 200;
  payload = field (codes "request_id") (str request_id) (attested_fields attested);
}

module _ (c : Crypto) (rt : Runtime) where
  -- The routes of a caller that is known.
  unfoldable pub route : MinerHandler → Request → Identity → Result ServeError Response
  unfolding in_scope list_tools body_of serve_call serve_challenge attested_reply text_eq
  route h r caller =
      if is_at "GET" "/tools" r
      then ok (record {
        status = 200;
        payload =
            field (codes "tools")
              (arr (items_of (in_scope rt.str_of (list_tools h.mcp) caller.scopes))) end;
      })
      else if is_at "POST" "/call" r
      then (do
        body ← body_of c rt.loads r.body
        reply ← serve_call c h rt.str_of body caller
        ok (attested_reply reply))
      else if is_at "POST" "/challenge" r
      then (do
        body ← body_of c rt.loads r.body
        reply ← serve_challenge c h body
        ok (attested_reply reply))
      else ok (record {
        status = 404;
        payload =
            field (codes "error")
              (str (codes "no route for " ++ (r.method ++ (codes " " ++ r.path)))) end;
      })

  -- What `handle` tries: the public paths first, then who the caller is, then the routes.
  unfoldable pub attempt : MinerHandler → Arrival → Result ServeError Response
  unfolding member health authenticate route
  attempt h a = if member a.request.path public_paths then health rt h a else (do
    caller ← authenticate c h a.request.headers a.drawn a.signed
    route h a.request caller)

  -- The `except` clauses.
  unfoldable pub error_response : ServeError → Response
  error_response auth_error = record {
    status = 401;
    payload =
        field (codes "error") (str (rt.message auth_error))
          (field (codes "type") (str (rt.type_name auth_error)) end);
  }
  error_response bad_request = record {
    status = 400;
    payload = field (codes "error") (str (rt.message bad_request)) end;
  }
  error_response (tool_error e) = record {
    status = 400;
    payload =
        field (codes "error") (str (rt.message (tool_error e)))
          (field (codes "type") (str (codes "ToolError")) end);
  }
  error_response e = record {
    status = 500;
    payload = field (codes "error") (str (codes "internal error: " ++ rt.type_name e)) end;
  }

  unfoldable pub remember : ServeError → MinerHandler → MinerHandler
  remember (guest_error message) h = record h { attestation_error = some message }
  remember e h = h

  unfoldable pub settle : MinerHandler → Result ServeError Response → Response × MinerHandler
  unfolding error_response remember
  settle h (ok response) = (response, h)
  settle h (err e) = (error_response e, remember e h)

  unfoldable pub handle : MinerHandler → Arrival → Response × MinerHandler
  unfolding attempt settle
  handle h a = settle h (attempt h a)
