-- ===== src/Serving/Client.antt =====
-- sentinel/serving/client.py: the signed client of one miner. The network is an argument: what a
-- request to an address answers, and the world after it; so is `http_auth.sign`, by the headers that it
-- gives. `T` is what a stopwatch reads.
pub mod Served
use sentinel_subnet.Base.Json.{Fields, Json, dumps, end, field, obj, str}
use sentinel_subnet.Remote.Client.{ClientRuntime, detail_of, item, rstrip_slash}
use sentinel_subnet.Base.Result.{Result, err, map_err, map_ok, ok, or_raise, ◌>>=◌, ◌>>◌}
use sentinel_subnet.Base.Text.{Text, codes, is_empty, truthy}
use sentinel_subnet.Base.Dict.{Dict, insert}
use sentinel_subnet.Base.Decimal.{decimal}
use sentinel_subnet.Base.{Bool, Option, [], false, if◌then◌else◌, none, some, true, ℕ, ◌++◌, ◌∷◌}

-- What `urlopen` and reading the reply give: a reply with its headers and time, an `HTTPError`, a
-- `URLError`, or any other exception, as when reading takes too long.
pub data Reply (T : Type 0) : Type 0 where
  received : (body : Text) (headers : Dict Text) (latency_ms : T) → Reply T
  failed_with : (code : ℕ) (body : Text) → Reply T
  no_connection : (reason : Text) → Reply T
  broken_off : Reply T

-- `MinerClientError` with its message, or any other exception.
pub data ClientError : Type 0 where
  client_error : (message : Text) → ClientError
  uncaught : ClientError

pub record ClientResponse (T : Type 0) : Type 0 where
  pub payload : Json
  pub headers : Dict Text
  pub latency_ms : T

pub record MinerClient : Type 0 where
  pub base_url : Text
  pub sign : (method path body receiver_ss58 : Text) → Dict Text
  pub miner_hotkey_ss58 : Text

-- `MinerClient.__init__`
unfoldable pub new_client :
    (base_url : Text) (sign : (method path body receiver_ss58 : Text) → Dict Text)
    (miner_hotkey_ss58 : Text)
    → MinerClient
unfolding rstrip_slash
new_client base_url sign miner_hotkey_ss58 = record {
  base_url = rstrip_slash base_url;
  sign = sign;
  miner_hotkey_ss58 = miner_hotkey_ss58;
}

-- `d.update(e)`
unfoldable pub updated : Dict Text → Dict Text → Dict Text
unfolding insert
updated d [] = d
updated d ((name, value) ∷ e) = updated (insert name value d) e

unfoldable pub request_headers : MinerClient → (method path body : Text) (signed : Bool) → Dict Text
unfolding updated
request_headers client method path body signed =
    let headers = (codes "Content-Type", codes "application/json") ∷ [] in
    if signed
    then updated headers (client.sign method path body client.miner_hotkey_ss58)
    else headers

unfoldable pub request_body : ClientRuntime → (payload : Option Fields) → Text
request_body rt none = []
request_body rt (some payload) = rt.dumps (obj payload)

-- The message of an error at a route.
abbrev pub at_route : (method path : Text) → Text → Text
at_route method path what = method ++ (b' ' ∷ path) ++ (codes " -> " ++ what)

module _ {T : Type 0} (rt : ClientRuntime) where
  -- The `try` of `_request_full`. A reply with no body reads as an empty object.
  unfoldable pub read_reply : (method path : Text) → Reply T → Result ClientError (ClientResponse T)
  unfolding detail_of decimal
  read_reply method path (received body headers latency_ms) = do
    payload ← or_raise (rt.loads (if is_empty body then codes "{}" else body)) uncaught
    ok (record { payload = payload; headers = headers; latency_ms = latency_ms })
  read_reply method path (failed_with code body) = do
    detail ← map_err (λ failed. uncaught) (detail_of rt body)
    err (
        client_error
          (at_route method path (codes "HTTP " ++ decimal code ++ (codes ": " ++ detail))))
  read_reply method path (no_connection reason) =
      err (client_error (at_route method path (codes "unreachable: " ++ reason)))
  read_reply method path broken_off = err uncaught

-- `call` and `call_full`: the request id is sent where there is one.
unfoldable pub call_payload :
    (tool : Text) (arguments : Fields) (nonce : Text) (request_id : Option Text) → Fields
call_payload tool arguments nonce request_id = field (codes "tool") (str tool) (
    field (codes "arguments") (obj arguments) (
      field (codes "nonce") (str nonce)
        (elim request_id [ none ↦ end | some id ↦ field (codes "request_id") (str id) end ])))

module _ {T W : Type 0} (rt : ClientRuntime)
    (send : (method url : Text) (headers : Dict Text) (content : Option Text) → W → Reply T × W)
    (client : MinerClient) where
  -- `_request_full`
  unfoldable pub request_full :
      (method path : Text) (payload : Option Fields) (signed : Bool)
      → W
      → Result ClientError (ClientResponse T) × W
  unfolding request_body request_headers truthy read_reply
  request_full method path payload signed w =
      let body = request_body rt payload in
      let answered =
        send method (client.base_url ++ path) (request_headers client method path body signed)
          (truthy (some body)) w in
      (read_reply rt method path answered.0, answered.1)

  -- `_request`
  unfoldable pub request :
      (method path : Text) (payload : Option Fields) (signed : Bool)
      → W
      → Result ClientError Json × W
  unfolding request_full
  request method path payload signed w =
      let answered = request_full method path payload signed w in
      (map_ok (λ (r : ClientResponse T). r.payload) answered.0, answered.1)

  unfoldable pub client_health : W → Result ClientError Json × W
  unfolding request
  client_health w = request (codes "GET") (codes "/health") none false w

  -- `list_tools`: the reply's `tools`
  unfoldable pub client_tools : W → Result ClientError Json × W
  unfolding request item
  client_tools w =
      let answered = request (codes "GET") (codes "/tools") none true w in
      (
        answered.0 >>= λ reply. map_err (λ failed. uncaught) (item rt (codes "tools") reply),
        answered.1,
      )

  unfoldable pub call_full :
      (tool : Text) (arguments : Fields) (nonce : Text) (request_id : Option Text)
      → W
      → Result ClientError (ClientResponse T) × W
  unfolding request_full call_payload
  call_full tool arguments nonce request_id w =
      request_full (codes "POST") (codes "/call")
        (some (call_payload tool arguments nonce request_id)) true w

  unfoldable pub client_call :
      (tool : Text) (arguments : Fields) (nonce : Text) (request_id : Option Text)
      → W
      → Result ClientError Json × W
  unfolding request call_payload
  client_call tool arguments nonce request_id w =
      request (codes "POST") (codes "/call") (some (call_payload tool arguments nonce request_id))
        true w

  unfoldable pub challenge_full : (nonce : Text) → W → Result ClientError (ClientResponse T) × W
  unfolding request_full
  challenge_full nonce w =
      request_full (codes "POST") (codes "/challenge")
        (some (field (codes "nonce") (str nonce) end)) true w

  unfoldable pub client_challenge : (nonce : Text) → W → Result ClientError Json × W
  unfolding request
  client_challenge nonce w =
      request (codes "POST") (codes "/challenge") (some (field (codes "nonce") (str nonce) end))
        true w
