-- ===== src/Sidecar/Upstream.antt =====
-- sidecar/main.py: one attempt at a provider. The HTTP client is an argument, `Client`; which of its
-- connections are open is kept beside its world. Closing the client closes its connections. A request that
-- is cancelled is not modelled but for a stream's reader that leaves.
use sentinel_subnet.Base.Json.{Fields, Json, bool, end, field, obj}
use sentinel_subnet.Sidecar.Prompt.{Message}
use sentinel_subnet.Base.Result.{Result, err, ok}
use sentinel_subnet.Base.Text.{Text, codes}
use sentinel_subnet.Base.{
  Bool, List, Option, [], any, if◌then◌else◌, leb, none, not, select, some, take, true, ℕ, ◌++◌,
  ◌==◌, ◌||◌, ◌∷◌,
}

-- The body of a request.
pub record ChatRequest : Type 0 where
  pub model : Option Text
  pub stream : Option Json
  pub stream_options : Option Json
  pub messages : List Message
  pub others : Fields

-- Why an attempt fails: no token in time or none at all, an error of the connection or of its status,
-- or any other exception.
pub data OpenError : Type 0 where
  slow broken failed : OpenError

pub data Posted : Type 0 where
  answered : (status : ℕ) (body : Option Json) → Posted
  no_answer : OpenError → Posted

pub data Sent : Type 0 where
  opened : (connection status : ℕ) → Sent
  not_sent : OpenError → Sent

pub data First : Type 0 where
  chunk : Text → First
  no_chunk : OpenError → First

-- httpx and the clock, in milliseconds; `raises` is `raise_for_status` on a status.
pub record Client (W : Type 0) : Type 0 where
  pub clock : W → ℕ × W
  pub post : (url key : Text) → ChatRequest → (timeout : ℕ) → W → Posted × W
  pub send : (url key : Text) → ChatRequest → (ttft : ℕ) → W → Sent × W
  pub first : (connection ttft : ℕ) → W → First × W
  pub close : (connection : ℕ) → W → W
  pub renew : W → W
  pub raises : (status : ℕ) → Bool

pub record Side (W : Type 0) : Type 0 where
  pub world : W
  pub open_connections : List ℕ

pub record Settings : Type 0 where
  pub chutes_api_url : Text
  pub chutes_api_key : Text
  pub default_model : Text
  pub groq_api_key : Text
  pub groq_model : Text

abbrev pub groq_api_url : Text
groq_api_url = codes "https://api.groq.com/openai/v1/chat/completions"

abbrev pub ttft_cap : ℕ
ttft_cap = 5000

abbrev pub attempt_timeout : ℕ
attempt_timeout = 8000

abbrev pub decentralized_budget : ℕ
decentralized_budget = 12000

abbrev pub groq_timeout : ℕ
groq_timeout = 10000

-- What a caller gets: a body, or a stream on a connection with its first chunk; and `X-Routed-Subnet`.
pub data Reply : Type 0 where
  whole : (body : Json) (routed : Text) → Reply
  streaming : (connection : ℕ) (first : Text) (routed : Text) → Reply

abbrev pub holds : ℕ → List ℕ → Bool
holds c open_connections = any (λ d. d == c) open_connections

module _ {W : Type 0} (client : Client W) where
  -- `resp.aclose()`
  unfoldable pub aclose : (connection : ℕ) → Side W → Side W
  aclose connection s = record {
    world = client.close connection s.world;
    open_connections = select (λ d. not (d == connection)) s.open_connections;
  }

  -- `_reset_client`: the client that all requests share is closed and made anew.
  unfoldable pub reset_client : Side W → Side W
  reset_client s = record { world = client.renew s.world; open_connections = [] }

  -- The first chunk, or the connection is closed.
  unfoldable pub first_chunk :
      (connection : ℕ) → First × W → Side W → Result OpenError (ℕ × Text) × Side W
  unfolding aclose
  first_chunk connection (chunk first, w) s = (ok (connection, first), record s { world = w })
  first_chunk connection (no_chunk e, w) s = (err e, aclose connection (record s { world = w }))

  unfoldable pub await_first : (ttft : ℕ) → Sent × W → Side W → Result OpenError (ℕ × Text) × Side W
  unfolding first_chunk
  await_first ttft (not_sent e, w) s = (err e, record s { world = w })
  await_first ttft (opened connection status, w) s =
      let s' : Side W = record { world = w; open_connections = connection ∷ s.open_connections } in
      if status == 200
      then first_chunk connection (client.first connection ttft w) s'
      else (err broken, aclose connection s')

  -- `_open_upstream_stream`
  unfoldable pub open_upstream_stream :
      (url key : Text) → ChatRequest → (ttft : ℕ) → Side W → Result OpenError (ℕ × Text) × Side W
  unfolding await_first
  open_upstream_stream url key payload ttft s =
      await_first ttft (client.send url key payload ttft s.world) s

  -- `_stream_body`, of which the reader takes the first chunk and so many of the others before the end
  -- or before it leaves. A reader that leaves before the first chunk does not start the generator: then
  -- there is no run of it, and its `finally` does not come.
  unfoldable pub stream_body :
      (connection : ℕ) (first : Text) (rest : List Text) (taken : ℕ) → Side W → List Text × Side W
  unfolding aclose
  stream_body connection first rest taken s = (first ∷ take taken rest, aclose connection s)

  -- The `except` clauses of `_route_streaming`.
  unfoldable pub recover : OpenError → Side W → Side W
  unfolding reset_client
  recover slow s = s
  recover broken s = reset_client s
  recover failed s = s

  unfoldable pub streamed :
      (model : Text) → Result OpenError (ℕ × Text) × Side W → Option Reply × Side W
  unfolding recover
  streamed model (ok (connection, first), s) =
      (some (streaming connection first (codes "SN64-Chutes/" ++ model)), s)
  streamed model (err e, s) = (none, recover e s)

  -- The body of the loop of `_route_streaming`, within the budget.
  unfoldable pub stream_model :
      Settings → ChatRequest → (model : Text) → Side W → Option Reply × Side W
  unfolding open_upstream_stream streamed
  stream_model settings request model s = streamed model (
      open_upstream_stream settings.chutes_api_url settings.chutes_api_key
        (record request {
          model = some model;
          stream = some (bool true);
          stream_options = some (obj (field (codes "include_usage") (bool true) end));
        })
        ttft_cap s)

  -- The end of `_try_model`: busy providers are passed over, other failures renew the client.
  unfoldable pub tried : (model : Text) → Posted × W → Side W → Option Reply × Side W
  unfolding reset_client
  tried model (no_answer e, w) s = (none, reset_client (record s { world = w }))
  tried model (answered status body, w) s =
      let s' : Side W = record s { world = w } in
      if status == 429 || leb 500 status
      then (none, s')
      else if client.raises status
      then (none, reset_client s')
      else elim body [
        | none ↦ (none, reset_client s')
        | some json ↦ (some (whole json (codes "SN64-Chutes/" ++ model)), s')
      ]

  -- `_try_model`
  unfoldable pub try_model :
      Settings → ChatRequest → (model : Text) → Side W → Option Reply × Side W
  unfolding tried
  try_model settings request model s =
      tried model
        (client.post settings.chutes_api_url settings.chutes_api_key
          (record request { model = some model }) attempt_timeout s.world)
        s
