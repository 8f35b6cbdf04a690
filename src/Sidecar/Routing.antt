-- ===== src/Sidecar/Routing.antt =====
-- sidecar/main.py: the chain of attempts within the budget, and the backstop.
pub mod Connections
pub mod Budget
use sentinel_subnet.Base.Json.{Json, bool, end, field, obj}
use sentinel_subnet.Sidecar.Upstream.{
  ChatRequest, Client, OpenError, Posted, Reply, Settings, Side, answered, decentralized_budget,
  groq_api_url, groq_timeout, no_answer, open_upstream_stream, stream_model, streaming, tried,
  try_model, whole,
}
use sentinel_subnet.Base.Result.{Result, err, ok}
use sentinel_subnet.Base.Text.{Text, codes}
use sentinel_subnet.Base.{
  Bool, List, Option, [], false, if◌then◌else◌, ltb, none, some, true, ℕ, ◌-◌, ◌∷◌,
}

module _ {W : Type 0} (client : Client W) where
  -- The loop of `_route_streaming` and of `_route_buffered`, over what they try for a model.
  unfoldable pub route_from :
      (attempt : (model : Text) → Side W → Option Reply × Side W) (start : ℕ)
      → List Text
      → Side W
      → Option Reply × Side W
  route_from attempt start [] s = (none, s)
  route_from attempt start (model ∷ models) s =
      let read = client.clock s.world in
      let s' : Side W = record s { world = read.1 } in
      let tried = attempt model s' in
      let rest = route_from attempt start models tried.1 in
      if ltb decentralized_budget (read.0 - start)
      then (none, s')
      else elim tried.0 [ some reply ↦ (some reply, tried.1) | none ↦ rest ]

  unfoldable pub route :
      (attempt : (model : Text) → Side W → Option Reply × Side W)
      → List Text
      → Side W
      → Option Reply × Side W
  unfolding route_from
  route attempt models s =
      let read = client.clock s.world in
      route_from attempt read.0 models (record s { world = read.1 })

  -- `_route_streaming`
  unfoldable pub route_streaming :
      Settings → ChatRequest → List Text → Side W → Option Reply × Side W
  unfolding route stream_model
  route_streaming settings request models s = route (stream_model client settings request) models s

  -- `_route_buffered`
  unfoldable pub route_buffered :
      Settings → ChatRequest → List Text → Side W → Option Reply × Side W
  unfolding route try_model
  route_buffered settings request models s = route (try_model client settings request) models s

  unfoldable pub backstop_streamed : Result OpenError (ℕ × Text) × Side W → Option Reply × Side W
  backstop_streamed (ok (connection, first), s) =
      (some (streaming connection first (codes "groq-backstop")), s)
  backstop_streamed (err e, s) = (none, s)

  unfoldable pub backstop_answered : Posted × W → Side W → Option Reply × Side W
  backstop_answered (no_answer e, w) s = (none, record s { world = w })
  backstop_answered (answered status body, w) s =
      let s' : Side W = record s { world = w } in
      if client.raises status then (none, s') else elim body [
        | none ↦ (none, s')
        | some json ↦ (some (whole json (codes "groq-backstop")), s')
      ]

  -- `payload.setdefault("stream_options", {"include_usage": True})`
  unfoldable pub usage_by_default : Option Json → Option Json
  usage_by_default none = some (obj (field (codes "include_usage") (bool true) end))
  usage_by_default (some j) = some j

  -- `_groq_backstop`
  unfoldable pub groq_backstop :
      Settings → ChatRequest → (is_stream : Bool) → Side W → Option Reply × Side W
  unfolding open_upstream_stream backstop_streamed backstop_answered usage_by_default
  groq_backstop settings request true s = backstop_streamed (
      open_upstream_stream client groq_api_url settings.groq_api_key
        (record request {
          model = some settings.groq_model;
          stream = some (bool true);
          stream_options = usage_by_default request.stream_options;
        })
        groq_timeout s)
  groq_backstop settings request false s =
      backstop_answered
        (client.post groq_api_url settings.groq_api_key
          (record request { model = some settings.groq_model; stream = none }) groq_timeout s.world)
        s
