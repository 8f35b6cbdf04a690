-- ===== src/Sidecar/Query.antt =====
-- sidecar/main.py: the `/query` endpoint.
pub mod Origin
use mathlib.Core.List.{reverse}
use sentinel_subnet.Attestation.{Crypto}
use sentinel_subnet.Base.Json.{Json}
use sentinel_subnet.Serving.Handler.{counts}
use sentinel_subnet.Remote.Client.{shown}
use sentinel_subnet.Sidecar.Prompt.{Message, model_chain, primary_model}
use sentinel_subnet.Sidecar.Upstream.{
  ChatRequest, Client, Reply, Settings, Side, answered, stream_body, streaming,
}
use sentinel_subnet.Sidecar.Routing.{groq_backstop, route_buffered, route_streaming}
use sentinel_subnet.Sidecar.Routing.Connections.{
  Contains, backstop-Contains, holds-select, reply_holds, route_buffered-Contains,
  route_streaming-Contains,
}
use sentinel_subnet.Base.Text.{Text, codes, is_empty}
use sentinel_subnet.Base.{
  ==_iff, Bool, Bool-cases, List, Option, Option-cases, [], arith, false, given_or, if◌then◌else◌,
  inl, inr, none, not, some, subst, true, ℕ, ◌++◌, ◌==◌, ◌∷◌, ◌≡◌,
}

-- What `query` answers: a body without a provider, a reply, a 502, or an exception.
pub data Answered (W : Type 0) : Type 0 where
  stub : (echo : Text) → Answered W
  served : Reply → Answered W
  bad_gateway : Answered W
  raised : Answered W

module _ {W : Type 0} (c : Crypto) (client : Client W) (is_complex is_simple : Text → Bool)
    (str_of : Json → Text) where
  -- The text of `_stub_response`: the last message's content has to be there.
  unfoldable pub stub_from : List Message → Answered W
  stub_from [] = stub (codes "[STUB, set CHUTES_API_KEY] Echo: (empty)")
  stub_from (m ∷ ms) = elim m.content [
    | none ↦ raised
    | some content ↦ stub (codes "[STUB, set CHUTES_API_KEY] Echo: " ++ shown str_of content)
  ]

  -- Phase 2, behind what the subnet gave.
  unfoldable pub or_backstop :
      Settings → ChatRequest → (is_stream : Bool) → Option Reply × Side W → Answered W × Side W
  unfolding groq_backstop
  or_backstop settings request is_stream (some reply, s) = (served reply, s)
  or_backstop settings request is_stream (none, s) =
      let backed = groq_backstop client settings request is_stream s in
      if is_empty settings.groq_api_key
      then (bad_gateway, s)
      else elim backed.0 [ some reply ↦ (served reply, backed.1) | none ↦ (bad_gateway, backed.1) ]

  -- Phase 1, the subnet.
  unfoldable pub subnet :
      Settings
      → ChatRequest
      → (is_stream : Bool) → (models : List Text) → Side W
      → Option Reply × Side W
  unfolding route_streaming route_buffered
  subnet settings request true models s = route_streaming client settings request models s
  subnet settings request false models s = route_buffered client settings request models s

  unfoldable pub truth_of : Option Json → Bool
  unfolding counts
  truth_of none = false
  truth_of (some j) = counts c j

  -- From the primary model on; `none` is what choosing it raised.
  unfoldable pub ask :
      Settings → ChatRequest → (primary : Option Text) → Side W → Answered W × Side W
  unfolding model_chain subnet or_backstop truth_of
  ask settings request none s = (raised, s)
  ask settings request (some primary) s =
      or_backstop settings request (truth_of request.stream)
        (subnet settings request (truth_of request.stream) (model_chain primary) s)

  -- `query`
  unfoldable pub query : Settings → ChatRequest → Side W → Answered W × Side W
  unfolding stub_from primary_model ask
  query settings request s =
      if is_empty settings.chutes_api_key
      then (stub_from (reverse request.messages), s)
      else ask settings request
          (primary_model c is_complex is_simple (given_or request.model settings.default_model)
            request.messages)
          s

  abbrev pub answer_holds : Answered W → ℕ → Bool
  answer_holds (served reply) connection = reply_holds (some reply) connection
  answer_holds _ connection = false

  subnet-Contains :
      (settings : Settings) (request : ChatRequest) (is_stream : Bool) (models : List Text)
      (s : Side W)
      → Contains
          (reply_holds (subnet settings request is_stream models s).0)
          s
          (subnet settings request is_stream models s).1
  unfolding subnet
  subnet-Contains settings request true models s =
      route_streaming-Contains client settings request models s
  subnet-Contains settings request false models s =
      route_buffered-Contains client settings request models s

  or_backstop-Contains :
      (settings : Settings) (request : ChatRequest) (is_stream : Bool) (s : Side W)
      (routed : Option Reply × Side W)
      → Contains (reply_holds routed.0) s routed.1
      → Contains
          (answer_holds (or_backstop settings request is_stream routed).0)
          s
          (or_backstop settings request is_stream routed).1
  unfolding or_backstop
  or_backstop-Contains settings request is_stream s (some reply, s') k d h = k d h
  or_backstop-Contains settings request is_stream s (none, s') k d h =
      let backed = backstop-Contains client settings request is_stream s' d in
      let before = k d in
      ground
        (arith, backed, before, Option-cases (groq_backstop client settings request is_stream s').0)

  ask-Contains :
      (settings : Settings) (request : ChatRequest) (primary : Option Text) (s : Side W)
      → Contains
          (answer_holds (ask settings request primary s).0)
          s
          (ask settings request primary s).1
  unfolding ask
  ask-Contains settings request none s d h = ground arith
  ask-Contains settings request (some primary) s d h =
      or_backstop-Contains settings request (truth_of request.stream) s _
        (subnet-Contains settings request (truth_of request.stream) (model_chain primary) s) d h

  query-open :
      (settings : Settings) (request : ChatRequest) (s : Side W)
      → Contains (answer_holds (query settings request s).0) s (query settings request s).1
  unfolding query
  query-open settings request s d h =
      let asked =
        ask-Contains settings request
          (primary_model c is_complex is_simple (given_or request.model settings.default_model)
            request.messages)
          s d in
      elim (Bool-cases (is_empty settings.chutes_api_key)) [
        | inl stubbed ↦ rw stubbed (let h' = rw stubbed at h in ground arith)
        | inr keyed ↦ rw keyed (asked (rw keyed at h))
      ]

  stream_body-Contains :
      (connection : ℕ) (first : Text) (rest : List Text) (taken : ℕ) (s s' : Side W)
      → Contains (λ d. connection == d) s s'
      → Contains (λ d. false) s (stream_body client connection first rest taken s').1
  unfolding stream_body
  stream_body-Contains connection first rest taken s s' k d h =
      let (before, apart) = holds-select (λ e. not (e == connection)) d s'.open_connections h in
      ground (arith, k d, before, apart, ==_iff connection d, ==_iff d connection)

  -- A request leaves no connection behind: what is open when `query` is through was open before, or
  -- carries the stream that it answers with; and when that stream's reader has taken all of it or has
  -- left, at the first chunk or after, only what was open before is open.
  pub query-Contains :
      (settings : Settings) (request : ChatRequest) (s : Side W)
      → Contains (answer_holds (query settings request s).0) s (query settings request s).1
        × ((connection : ℕ) (first routed : Text) (rest : List Text) (taken : ℕ)
            → (query settings request s).0 ≡ served (streaming connection first routed)
            → Contains
                (λ d. false)
                s
                (stream_body client connection first rest taken (query settings request s).1).1)
  query-Contains settings request s = (
    query-open settings request s,
    λ connection first routed rest taken answered.
        stream_body-Contains connection first rest taken s (query settings request s).1 (
          subst (λ (a : Answered W). Contains (answer_holds a) s (query settings request s).1)
            answered (query-open settings request s)),
  )
