-- ===== src/Sidecar/Routing/Connections.antt =====
-- No connection outlives its request (sidecar/main.py).
use sentinel_subnet.Sidecar.Upstream.{
  ChatRequest, Client, First, OpenError, Posted, Reply, Sent, Settings, Side, answered,
  attempt_timeout, await_first, broken, chunk, failed, first_chunk, groq_timeout, holds, no_answer,
  no_chunk, not_sent, open_upstream_stream, opened, recover, slow, stream_model, streamed,
  streaming, tried, try_model, ttft_cap,
}
use sentinel_subnet.Sidecar.Routing.{
  backstop_answered, backstop_streamed, groq_backstop, route, route_buffered, route_from,
  route_streaming,
}
use sentinel_subnet.Base.Result.{Result, err, ok}
use sentinel_subnet.Base.Text.{Text}
use sentinel_subnet.Base.{
  ==_iff, Bool, Bool-cases, List, Option, Option-cases, [], arith, false, inl, inr, none, not, refl,
  select, some, subst, true, ℕ, ◌==◌, ◌||◌, ◌∷◌, ◌≡◌,
}

-- Whether a reply is a stream on that connection.
abbrev pub reply_holds : Option Reply → ℕ → Bool
reply_holds (some (streaming connection first routed)) c = connection == c
reply_holds _ c = false

abbrev pub opened_holds : Result OpenError (ℕ × Text) → ℕ → Bool
opened_holds (ok (connection, first)) c = connection == c
opened_holds (err e) c = false

pub holds-select :
    (p : ℕ → Bool) (c : ℕ) (cs : List ℕ)
    → holds c (select p cs) ≡ true
    → (holds c cs ≡ true) × (p c ≡ true)
holds-select p c [] h = cc h
holds-select p c (d ∷ cs) h = ground (arith, ==_iff d c, holds-select p c cs)

holds-closed :
    (connection c : ℕ) (cs : List ℕ)
    → holds c (select (λ d. not (d == connection)) (connection ∷ cs)) ≡ true
    → holds c cs ≡ true
holds-closed connection c cs h =
    let (kept, apart) = holds-select (λ d. not (d == connection)) c (connection ∷ cs) h in
    ground (arith, ==_iff connection c, ==_iff c connection)

-- What is open afterwards was open before, or is the reply's.
module _ {W : Type 0} where
  abbrev pub Contains : (ℕ → Bool) → Side W → Side W → Type 0
  Contains own s s' =
      (c : ℕ) → holds c s'.open_connections ≡ true → (holds c s.open_connections || own c) ≡ true

  pub Contains-trans :
      (own : ℕ → Bool) (s t u : Side W)
      → Contains (λ c. false) s t
      → Contains own t u
      → Contains own s u
  Contains-trans own s t u first second c h = ground (arith, second c h, first c)

module _ {W : Type 0} (client : Client W) where
  first_chunk-Contains :
      (connection : ℕ) (first : First × W) (s : Side W) (cs : List ℕ)
      → s.open_connections ≡ connection ∷ cs
      → (c : ℕ) → holds c (first_chunk client connection first s).1.open_connections ≡ true
      → (holds c cs || opened_holds (first_chunk client connection first s).0 c) ≡ true
  unfolding first_chunk
  first_chunk-Contains connection (chunk t, w) s cs e c h =
      let h' : holds c (connection ∷ cs) ≡ true = subst (λ l. holds c l ≡ true) e h in ground arith
  first_chunk-Contains connection (no_chunk r, w) s cs e c h =
      let closed =
        holds-closed connection c cs
          (subst (λ l. holds c (select (λ d. not (d == connection)) l) ≡ true) e h) in
      ground arith

  await_first-Contains :
      (ttft : ℕ) (sent : Sent × W) (s : Side W)
      → Contains
          (opened_holds (await_first client ttft sent s).0)
          s
          (await_first client ttft sent s).1
  unfolding await_first
  await_first-Contains ttft (not_sent e, w) s c h = ground arith
  await_first-Contains ttft (opened connection status, w) s c h =
      elim (Bool-cases (status == 200)) [
        | inl good ↦ rw good (
            first_chunk-Contains connection (client.first connection ttft w) _ s.open_connections
              refl c (rw good at h))
        | inr bad ↦
            let closed = holds-closed connection c s.open_connections (rw bad at h) in
            rw bad (ground arith)
      ]

  open_upstream_stream-Contains :
      (url key : Text) (payload : ChatRequest) (ttft : ℕ) (s : Side W)
      → Contains
          (opened_holds (open_upstream_stream client url key payload ttft s).0)
          s
          (open_upstream_stream client url key payload ttft s).1
  unfolding open_upstream_stream
  open_upstream_stream-Contains url key payload ttft s =
      await_first-Contains ttft (client.send url key payload ttft s.world) s

  recover-Contains : (e : OpenError) (s : Side W) → Contains (λ c. false) s (recover client e s)
  unfolding recover
  recover-Contains slow s c h = ground arith
  recover-Contains broken s c h = cc h
  recover-Contains failed s c h = ground arith

  streamed-Contains :
      (model : Text) (s : Side W) (result : Result OpenError (ℕ × Text) × Side W)
      → Contains (opened_holds result.0) s result.1
      → Contains (reply_holds (streamed client model result).0) s (streamed client model result).1
  unfolding streamed
  streamed-Contains model s (ok (connection, first), s') k c h = k c h
  streamed-Contains model s (err e, s') k c h = ground (arith, recover-Contains e s' c h, k c)

  stream_model-Contains :
      (settings : Settings) (request : ChatRequest) (model : Text) (s : Side W)
      → Contains
          (reply_holds (stream_model client settings request model s).0)
          s
          (stream_model client settings request model s).1
  unfolding stream_model
  stream_model-Contains settings request model s =
      streamed-Contains model s _ (open_upstream_stream-Contains _ _ _ ttft_cap s)

  tried-Contains :
      (model : Text) (posted : Posted × W) (s : Side W)
      → Contains (reply_holds (tried client model posted s).0) s (tried client model posted s).1
  unfolding tried
  tried-Contains model (no_answer e, w) s c h = cc h
  tried-Contains model (answered status none, w) s c h = ground arith
  tried-Contains model (answered status (some json), w) s c h = ground arith

  route_from-Contains :
      (attempt : (model : Text) → Side W → Option Reply × Side W)
      → ((model : Text) (s : Side W)
          → Contains (reply_holds (attempt model s).0) s (attempt model s).1)
      → (start : ℕ) (models : List Text) (s : Side W)
      → Contains
          (reply_holds (route_from client attempt start models s).0)
          s
          (route_from client attempt start models s).1
  unfolding route_from
  route_from-Contains attempt keeps start [] s c h = ground arith
  route_from-Contains attempt keeps start (model ∷ models) s c h =
      let s' : Side W = record s { world = (client.clock s.world).1 } in
      let own = keeps model s' c in
      let later = route_from-Contains attempt keeps start models (attempt model s').1 c in
      ground (arith, own, later, Option-cases (attempt model s').0)

  route-Contains :
      (attempt : (model : Text) → Side W → Option Reply × Side W)
      → ((model : Text) (s : Side W)
          → Contains (reply_holds (attempt model s).0) s (attempt model s).1)
      → (models : List Text) (s : Side W)
      → Contains (reply_holds (route client attempt models s).0) s (route client attempt models s).1
  unfolding route
  route-Contains attempt keeps models s =
      route_from-Contains attempt keeps (client.clock s.world).0 models
        (record s { world = (client.clock s.world).1 })

  pub route_streaming-Contains :
      (settings : Settings) (request : ChatRequest) (models : List Text) (s : Side W)
      → Contains
          (reply_holds (route_streaming client settings request models s).0)
          s
          (route_streaming client settings request models s).1
  unfolding route_streaming
  route_streaming-Contains settings request models s =
      route-Contains (stream_model client settings request) (stream_model-Contains settings request)
        models s

  pub route_buffered-Contains :
      (settings : Settings) (request : ChatRequest) (models : List Text) (s : Side W)
      → Contains
          (reply_holds (route_buffered client settings request models s).0)
          s
          (route_buffered client settings request models s).1
  unfolding route_buffered try_model
  route_buffered-Contains settings request models s =
      route-Contains (try_model client settings request)
        (λ model t.
          tried-Contains model
            (client.post settings.chutes_api_url settings.chutes_api_key
              (record request { model = some model }) attempt_timeout t.world)
            t)
        models s

  backstop_streamed-Contains :
      (s : Side W) (result : Result OpenError (ℕ × Text) × Side W)
      → Contains (opened_holds result.0) s result.1
      → Contains
          (reply_holds (backstop_streamed client result).0)
          s
          (backstop_streamed client result).1
  unfolding backstop_streamed
  backstop_streamed-Contains s (ok (connection, first), s') k c h = k c h
  backstop_streamed-Contains s (err e, s') k c h = k c h

  backstop_answered-Contains :
      (posted : Posted × W) (s : Side W)
      → Contains
          (reply_holds (backstop_answered client posted s).0)
          s
          (backstop_answered client posted s).1
  unfolding backstop_answered
  backstop_answered-Contains (no_answer e, w) s c h = ground arith
  backstop_answered-Contains (answered status none, w) s c h = ground arith
  backstop_answered-Contains (answered status (some json), w) s c h = ground arith

  pub backstop-Contains :
      (settings : Settings) (request : ChatRequest) (is_stream : Bool) (s : Side W)
      → Contains
          (reply_holds (groq_backstop client settings request is_stream s).0)
          s
          (groq_backstop client settings request is_stream s).1
  unfolding groq_backstop
  backstop-Contains settings request true s =
      backstop_streamed-Contains s _ (open_upstream_stream-Contains _ _ _ groq_timeout s)
  backstop-Contains settings request false s = backstop_answered-Contains _ s
