-- ===== src/Tests/Callers.antt =====
-- The serving layer's theorems at concrete inputs.
use sentinel_subnet.Attestation.{AttestationReport, attest, bind_response, canonical, unsigned}
use sentinel_subnet.Base.Json.{Fields, Json, dumps, end, field, obj, str, text_leb}
use sentinel_subnet.Registry.{get}
use sentinel_subnet.Enclave.{AttestedResponse, attest_result, run_attested}
use sentinel_subnet.Mcp.Server.{
  McpServer, Tool, insert_tool, list_tools, call_tool, listing, sorted_tools,
}
use sentinel_subnet.Mcp.Server.Sorted.{InOrder}
use mathlib.Core.List.{Permᴰ}
use sentinel_subnet.Mcp.Keyword.{first_word}
use sentinel_subnet.Serving.ApiKeys.{ApiKeyStore, find_label, label_for, scopes_for}
use sentinel_subnet.Serving.Handler.{
  Identity, MinerHandler, after_word, arguments_of, authenticate, bearer, before_dot, body_of,
  by_key, guest_error, request_id_of, required, serve_call, token_of, tool_allowed,
}
use sentinel_subnet.Serving.Handler.Permission.{Called, authenticate-key, serve_call-allowed}
use sentinel_subnet.Tests.Fixtures.{plain_crypto}
use sentinel_subnet.Serving.Handler.Routing.{
  Arrival, Runtime, attempt, attested_reply, handle, in_scope, listed_name, route, settle,
}
use sentinel_subnet.Serving.Handler.Routing.Served.{Answers, handle-Answers}
use sentinel_subnet.Serving.Handler.Routing.Listed.{in_scope-list_tools}
use sentinel_subnet.Base.Result.{err, ok}
use sentinel_subnet.Base.Text.{
  Text, codes, is_space, lower, lower_char, lstrip, member, strip, text_eq, truthy,
}
use sentinel_subnet.Base.Dict.{Dict, lookup}
use sentinel_subnet.Base.Int.{pos}
use sentinel_subnet.Base.{
  List, Option, String, [], any, map, none, refl, select, some, true, ◌&&◌, ◌++◌, ◌∷◌, ◌≡◌, ◌≢◌,
}

abbrev pub store : ApiKeyStore
store = record {
  scopes = (codes "support", some (codes "tickets" ∷ [])) ∷ [];
  digests = (codes "support", codes "sk1") ∷ [];
}

abbrev pub echo : Tool Json
echo = record {
  name = codes "tickets.query";
  description = [];
  input_schema = obj end;
  call = λ fields. ok (obj fields);
}

abbrev pub handler : MinerHandler
handler = record {
  enclave = record {
    agent = record {
      silicon = record { chip_id = codes "chip"; sign = λ m. ok (codes "key" ++ m) };
      launch_measurement = codes "ab";
      tcb_level = pos 8;
    };
    certificates = none;
    credentials = [];
  };
  mcp = record { tools = (codes "tickets.query", echo) ∷ [] };
  allowed_hotkeys = none;
  api_keys = some store;
  hotkey_ss58 = codes "5Miner";
  attestation_error = none;
}

abbrev pub headers : Dict Text
headers = (codes "authorization", codes "Bearer  sk1 ") ∷ []

token_read : bearer headers ≡ some (codes "sk1")
unfolding bearer token_of first_word after_word lstrip strip lower lower_char text_eq truthy
    is_space
token_read = refl

abbrev support : Identity
support = record {
  name = codes "support";
  nonce_ns = codes "d1";
  scopes = some (codes "tickets" ∷ []);
}

let_in : authenticate plain_crypto handler headers (codes "d1") none ≡ ok support
unfolding authenticate by_key bearer token_of first_word after_word lstrip strip lower lower_char
    text_eq truthy is_space label_for find_label scopes_for lookup
let_in = refl

authenticate-key_example :
    (s : ApiKeyStore) × (some store ≡ some s)
    × (any
          (λ (e : Text × Text). text_eq e.0 (codes "support") && text_eq (codes "sk1") e.1)
          s.digests
        ≡ true)
    × (some (codes "tickets" ∷ []) ≡ scopes_for s (codes "support"))
authenticate-key_example =
    authenticate-key plain_crypto handler headers (codes "d1") (codes "sk1") none support token_read
      let_in

abbrev pub tool_call : Fields
tool_call =
    field (codes "tool") (str (codes "tickets.query"))
      (field (codes "nonce") (str (codes "n5")) end)

abbrev reply : AttestationReport
reply =
    unsigned handler.enclave.agent (codes "n5")
      (bind_response plain_crypto (codes "d1") (plain_crypto.sha384 (dumps (obj end))))

abbrev response : AttestedResponse
response = record {
  result = obj end;
  attestation = record reply { signature = codes "key" ++ canonical reply };
  response_hash = plain_crypto.sha384 (dumps (obj end));
}

served : serve_call plain_crypto handler (λ j. []) tool_call support ≡ ok (codes "d1", response)
unfolding serve_call required arguments_of tool_allowed before_dot member request_id_of run_attested
    attest_result attest call_tool get truthy text_eq lookup
served = refl

serve_call-allowed_example :
    Called plain_crypto handler (λ j. []) tool_call support (codes "d1") response
serve_call-allowed_example =
    serve_call-allowed plain_crypto handler (λ j. []) tool_call support (codes "d1") response served

abbrev pub rt : Runtime
rt = record {
  loads = λ text. ok (obj tool_call);
  str_of = λ j. [];
  message = λ e. codes "no";
  type_name = λ e. codes "E";
  public_key_hex = ok (codes "key");
  b64encode = λ der. der;
}

abbrev at_path : (method path : String) → Dict Text → Arrival
at_path method path headers = record {
  request = record {
    method = codes method;
    path = codes path;
    headers = headers;
    body = codes "{}";
  };
  drawn = codes "d1";
  signed = none;
  chip_id = ok (codes "chip");
  certificates = ok none;
}

abbrev call : Arrival
call = at_path "POST" "/call" headers

abbrev health_check : Arrival
health_check = at_path "GET" "/health" []

call_answered : (handle plain_crypto rt handler call).0.status ≡ 200
unfolding handle attempt settle route member authenticate by_key bearer token_of first_word
    after_word lstrip strip lower lower_char text_eq truthy is_space label_for find_label scopes_for
    lookup body_of serve_call required arguments_of tool_allowed before_dot request_id_of
    run_attested attest_result attest call_tool get attested_reply
call_answered = refl

elsewhere : call.request.path ≢ codes "/health"
elsewhere e = cc e

handle-Answers_example :
    ((caller : Identity) × (authenticate plain_crypto handler headers (codes "d1") none ≡ ok caller)
      × Answers plain_crypto rt handler call.request caller (handle plain_crypto rt handler call).0)
    × ((handle plain_crypto rt handler call).1 ≡ handler)
handle-Answers_example = handle-Answers plain_crypto rt handler call elsewhere call_answered

-- Hardware: no key of its own to publish, but certificates.
abbrev hard_rt : Runtime
hard_rt = record rt { public_key_hex = err (codes "no bare key") }

abbrev hard_check : Arrival
hard_check = record health_check { certificates = ok (some ((codes "VCEK", codes "v") ∷ [])) }

-- A chip that has stopped answering.
abbrev dead : MinerHandler
dead = record handler {
  enclave = record handler.enclave {
    agent = record handler.enclave.agent {
      silicon = record { chip_id = codes "chip"; sign = λ m. err (guest_error (codes "rc -110")) };
    };
  };
}

-- Two tools, registered out of order, and a third that is out of reach.
abbrev stocked : McpServer Json
stocked = record {
  tools =
      (codes "tickets.query", echo)
      ∷ (codes "sales.query", record echo { name = codes "sales.query" })
      ∷ (codes "hr.query", record echo { name = codes "hr.query" })
      ∷ [];
}

abbrev two_scopes : Option (List Text)
two_scopes = some (codes "tickets" ∷ codes "sales" ∷ [])

-- The sales tool comes first.
both_listed :
    in_scope (λ j. []) (list_tools stocked) two_scopes
    ≡ listing (record echo { name = codes "sales.query" }) ∷ listing echo ∷ []
unfolding in_scope list_tools sorted_tools insert_tool text_leb listing listed_name get text_eq
    tool_allowed before_dot member
both_listed = refl

in_scope-list_tools_example :
    (listed : List (Tool Json)) × (in_scope (λ j. []) (list_tools stocked) two_scopes
      ≡ map listing listed)
    × InOrder listed
    × Permᴰ listed (
        select
          (λ (t : Tool Json). tool_allowed t.name two_scopes)
          (map (λ (e : Text × Tool Json). e.1) stocked.tools))
in_scope-list_tools_example = in_scope-list_tools (λ j. []) stocked two_scopes
