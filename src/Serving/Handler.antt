-- ===== src/Serving/Handler.antt =====
-- sentinel/serving/handler.py: verify the caller, execute, attest. `http_auth.verify` is an argument,
-- by what it answers to a request: the caller's hotkey and nonce, or an `AuthError`.
pub mod Permission
pub mod Routing
use mathlib.Core.Option.{map as on_value}
use sentinel_subnet.Attestation.{Crypto}
use sentinel_subnet.Base.Json.{Fields, Json, arr, bool, end, field, float, int, nil, null, obj, str}
use sentinel_subnet.Registry.{get}
use sentinel_subnet.Enclave.{AttestedResponse, Enclave, attest_result, run_attested}
use sentinel_subnet.Mcp.Server.{McpServer, ToolError, call_tool}
use sentinel_subnet.Mcp.Keyword.{first_word}
use sentinel_subnet.Serving.ApiKeys.{ApiKeyStore, label_for, scopes_for}
use sentinel_subnet.Base.Result.{Result, err, map_err, ok, or_raise, raise_if, ◌>>=◌, ◌>>◌}
use sentinel_subnet.Base.Text.{Text, codes, is_space, lower, lstrip, member, strip, text_eq, truthy}
use sentinel_subnet.Base.Dict.{Dict}
use sentinel_subnet.Base.Int.{eq_ℤ, pos}
use sentinel_subnet.Base.{
  Bool, List, Option, [], false, given_or, if◌then◌else◌, none, not, or_else, some, true, ◌==◌, ◌∷◌,
}

-- What a route raises: `guest_error` is the chip's, `internal` any other exception.
pub data ServeError : Type 0 where
  auth_error bad_request internal : ServeError
  guest_error : (message : Text) → ServeError
  tool_error : ToolError → ServeError

pub record Identity : Type 0 where
  pub name : Text
  pub nonce_ns : Text
  -- `none` is every scope.
  pub scopes : Option (List Text)

-- `tool.split(".", 1)[0]`, where there is a dot
unfoldable pub before_dot : Text → Option Text
before_dot [] = none
before_dot (k ∷ s) =
    let rest = on_value (λ scope. k ∷ scope) (before_dot s) in if k == b'.' then some [] else rest

-- `_tool_allowed`
unfoldable pub tool_allowed : Text → Option (List Text) → Bool
unfolding before_dot member
tool_allowed tool none = true
tool_allowed tool (some scopes) = elim (before_dot tool) [
  | none ↦ false
  | some scope ↦ member scope scopes
]

-- The rest of a text behind its first word, `split(None, 1)[1]`, without the white space around it.
unfoldable pub after_word : Text → Text
unfolding is_space strip
after_word [] = []
after_word (k ∷ s) = let rest = after_word s in if is_space k then strip s else rest

-- `Bearer …`: the token, if it is one.
unfoldable pub token_of : Text → Option Text
unfolding first_word after_word lstrip lower text_eq truthy
token_of value =
    if text_eq (lower (first_word (lstrip value))) (codes "bearer")
    then truthy (some (after_word (lstrip value)))
    else none

-- `_bearer`
unfoldable pub bearer : Dict Text → Option Text
unfolding token_of
bearer [] = none
bearer ((name, value) ∷ headers) =
    let rest = bearer headers in
    if text_eq (lower name) (codes "authorization") then or_else (token_of value) rest else rest

pub record MinerHandler : Type 0 where
  pub enclave : Enclave ServeError
  pub mcp : McpServer Json
  pub allowed_hotkeys : Option (List Text)
  pub api_keys : Option ApiKeyStore
  pub hotkey_ss58 : Text
  -- Set when the chip stops answering.
  pub attestation_error : Option Text

module _ (c : Crypto) where
  -- By the key that is presented; the nonce of such a caller is drawn.
  unfoldable pub by_key : MinerHandler → (drawn token : Text) → Result ServeError Identity
  unfolding label_for scopes_for
  by_key h drawn token = do
    store ← or_raise h.api_keys auth_error
    label ← or_raise (label_for c store token) auth_error
    ok (record { name = label; nonce_ns = drawn; scopes = scopes_for store label })

  -- By the hotkey's signature.
  unfoldable pub by_hotkey :
      MinerHandler → (signed : Option (Text × Text)) → Result ServeError Identity
  unfolding member
  by_hotkey h signed = do
    caller ← or_raise signed auth_error
    raise_if (not (member caller.0 (given_or h.allowed_hotkeys (caller.0 ∷ [])))) auth_error
    ok (record { name = caller.0; nonce_ns = caller.1; scopes = none })

  -- `_authenticate`
  unfoldable pub authenticate :
      MinerHandler
      → (headers : Dict Text) → (drawn : Text) → (signed : Option (Text × Text))
      → Result ServeError Identity
  unfolding bearer by_key by_hotkey
  authenticate h headers drawn signed = elim (bearer headers) [
    | some token ↦ by_key h drawn token
    | none ↦ by_hotkey h signed
  ]

  -- `body.get(k)`, which has to be a text that is not empty
  unfoldable pub required : Text → Fields → Result ServeError Text
  unfolding get truthy
  required key body = elim (get key body) [
    | some (str s) ↦ or_raise (truthy (some s)) bad_request
    | _ ↦ err bad_request
  ]

  -- Whether a value counts as true.
  unfoldable pub counts : Json → Bool
  unfolding member
  counts null = false
  counts (bool b) = b
  counts (int n) = not (eq_ℤ n (pos 0))
  counts (float t) = not (member t (codes "0.0" ∷ codes "-0.0" ∷ []))
  counts (str []) = false
  counts (arr nil) = false
  counts (obj end) = false
  counts _ = true

  -- `body.get("arguments") or {}`, which has to be an object
  unfoldable pub arguments_of : Option Json → Result ServeError Fields
  unfolding counts
  arguments_of none = ok end
  arguments_of (some (obj fs)) = ok fs
  arguments_of (some j) = if counts j then err bad_request else ok end

  -- `str(body.get("request_id") or caller.nonce_ns)`, with `str` on a value
  unfoldable pub request_id_of : (str_of : Json → Text) → Option Json → (nonce_ns : Text) → Text
  unfolding counts
  request_id_of str_of none nonce_ns = nonce_ns
  request_id_of str_of (some j) nonce_ns = if counts j then str_of j else nonce_ns

  -- `Request.json`, over what `json.loads` gives or raises
  unfoldable pub body_of :
      (loads : Text → Result ServeError Json) → (body : Text) → Result ServeError Fields
  body_of loads [] = ok end
  body_of loads (k ∷ s) = do
    json ← loads (k ∷ s)
    elim json [ obj fs ↦ ok fs | _ ↦ err bad_request ]

  -- `_call`, on the parsed body
  unfoldable pub serve_call :
      MinerHandler
      → (str_of : Json → Text) → Fields
      → Identity
      → Result ServeError (Text × AttestedResponse)
  unfolding required arguments_of tool_allowed request_id_of run_attested call_tool get
  serve_call h str_of body caller = do
    tool ← required (codes "tool") body
    arguments ← arguments_of (get (codes "arguments") body)
    raise_if (not (tool_allowed tool caller.scopes)) auth_error
    nonce ← required (codes "nonce") body
    let request_id = request_id_of str_of (get (codes "request_id") body) caller.nonce_ns
    attested ←
        run_attested c request_id nonce (map_err tool_error (call_tool tool (some arguments) h.mcp))
          h.enclave
    ok (request_id, attested)

  -- `_challenge`, on the parsed body
  unfoldable pub serve_challenge :
      MinerHandler → Fields → Result ServeError (Text × AttestedResponse)
  unfolding required attest_result
  serve_challenge h body = do
    nonce ← required (codes "nonce") body
    attested ←
        attest_result c (codes "challenge")
          (obj (field (codes "chip_id") (str h.enclave.agent.silicon.chip_id) end)) nonce h.enclave
    ok (codes "challenge", attested)
