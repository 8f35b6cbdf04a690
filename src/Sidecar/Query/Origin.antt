-- ===== src/Sidecar/Query/Origin.antt =====
-- Who answers a query (sidecar/main.py).
use mathlib.Core.List.{reverse}
use sentinel_subnet.Attestation.{Crypto}
use sentinel_subnet.Base.Json.{Json}
use sentinel_subnet.Sidecar.Prompt.{Message, model_chain, primary_model}
use sentinel_subnet.Sidecar.Upstream.{
  ChatRequest, Client, Reply, Settings, Side, stream_model, try_model,
}
use sentinel_subnet.Sidecar.Routing.{groq_backstop, route, route_buffered, route_streaming}
use sentinel_subnet.Sidecar.Routing.Budget.{Routed, route_from-Routed}
use sentinel_subnet.Sidecar.Query.{
  Answered, ask, bad_gateway, or_backstop, query, served, stub_from, subnet, truth_of,
}
use sentinel_subnet.Base.Text.{Text, is_empty}
use sentinel_subnet.Base.{
  Bool, Bool-cases, List, Option, Option-cases, [], ap, arith, false, given_or, inl, inr, none,
  refl, some, subst, sym, true, ◌∙◌, ◌∷◌, ◌≡◌, ◌≢◌,
}

module _ {W : Type 0} (c : Crypto) (client : Client W) (is_complex is_simple : Text → Bool)
    (str_of : Json → Text) (settings : Settings) (request : ChatRequest) where
  -- What is tried for a model.
  abbrev pub attempt_of : (is_stream : Bool) → (model : Text) → Side W → Option Reply × Side W
  attempt_of true = stream_model client settings request
  attempt_of false = try_model client settings request

  abbrev pub primary : Option Text
  primary =
      primary_model c is_complex is_simple (given_or request.model settings.default_model)
        request.messages

  -- Where a served reply comes from: a model of the chain, asked in time, or the backstop, where it has
  -- a key and the whole chain gave nothing.
  pub data Origin (s : Side W) (reply : Reply) : Type 0 where
    from_subnet :
        (model : Text) (after : Side W)
        → primary ≡ some model
        → Routed client
            (attempt_of (truth_of c client is_complex is_simple str_of request.stream))
            (model_chain model)
            (client.clock s.world).0
            reply
            after
        → Origin s reply
    from_backstop :
        (model : Text) (between : Side W)
        → primary ≡ some model
        → is_empty settings.groq_api_key ≡ false
        → subnet c client is_complex is_simple str_of settings request
            (truth_of c client is_complex is_simple str_of request.stream)
            (model_chain model)
            s
          ≡ (none, between)
        → (groq_backstop client settings request
            (truth_of c client is_complex is_simple str_of request.stream)
            between).0
          ≡ some reply
        → Origin s reply

  subnet-Routed :
      (is_stream : Bool) (models : List Text) (s : Side W) (reply : Reply)
      → (subnet c client is_complex is_simple str_of settings request is_stream models s).0
        ≡ some reply
      → Routed client
          (attempt_of is_stream)
          models
          (client.clock s.world).0
          reply
          (subnet c client is_complex is_simple str_of settings request is_stream models s).1
  unfolding subnet route_streaming route_buffered route
  subnet-Routed true models s reply h = route_from-Routed client _ _ models _ reply h
  subnet-Routed false models s reply h = route_from-Routed client _ _ models _ reply h

  no_reply : {reply : Reply} → ◌≢◌ {A = Answered W} bad_gateway (served reply)
  no_reply h = cc h

  backed_reply :
      (is_stream : Bool) (between : Side W) (reply : Reply)
      → (or_backstop c client is_complex is_simple str_of settings request is_stream
          (none, between)).0
        ≡ served reply
      → (is_empty settings.groq_api_key ≡ false)
        × ((groq_backstop client settings request is_stream between).0 ≡ some reply)
  unfolding or_backstop
  backed_reply is_stream between reply h = elim (Bool-cases (is_empty settings.groq_api_key)) [
    | inl bare ↦ cc (rw bare at h)
    | inr keyed ↦ elim (Option-cases (groq_backstop client settings request is_stream between).0) [
      | inl silent ↦ absurd (no_reply {reply = reply} (ground (arith, keyed, silent, h)))
      | inr (answer, got) ↦ (keyed, ground (arith, keyed, got, h))
    ]
  ]

  first_reply :
      (is_stream : Bool) (answer : Reply) (after : Side W)
      → (or_backstop c client is_complex is_simple str_of settings request is_stream
          (some answer, after)).0
        ≡ served answer
  unfolding or_backstop
  first_reply is_stream answer after = refl

  served-injective : {a b : Reply} → ◌≡◌ {A = Answered W} (served a) (served b) → a ≡ b
  served-injective h = cc h

  stub_from-ne-served :
      (ms : List Message) (reply : Reply)
      → stub_from c client is_complex is_simple str_of ms ≢ served reply
  unfolding stub_from
  stub_from-ne-served [] reply h = cc h
  stub_from-ne-served (m ∷ ms) reply h = elim (Option-cases m.content) [
    | inl empty ↦ cc (rw empty at h)
    | inr (content, there) ↦ cc (rw there at h)
  ]

  ask-Origin :
      (s : Side W) (model : Text) (reply : Reply) (routed : Option Reply × Side W)
      → primary ≡ some model
      → subnet c client is_complex is_simple str_of settings request
          (truth_of c client is_complex is_simple str_of request.stream)
          (model_chain model)
          s
        ≡ routed
      → (or_backstop c client is_complex is_simple str_of settings request
          (truth_of c client is_complex is_simple str_of request.stream)
          routed).0
        ≡ served reply
      → Origin s reply
  ask-Origin s model reply (some answer, after) chosen same h =
      let agree : answer ≡ reply = served-injective (
        sym
          (first_reply (truth_of c client is_complex is_simple str_of request.stream) answer after)
        ∙ h) in
      let routed =
        subnet-Routed _ (model_chain model) s reply
          (ap (λ (r : Option Reply × Side W). r.0) same ∙ ap some agree) in
      from_subnet model after chosen (
        subst
          (λ (t : Side W).
            Routed client
              (attempt_of (truth_of c client is_complex is_simple str_of request.stream))
              (model_chain model) (client.clock s.world).0 reply t)
          (ap (λ (r : Option Reply × Side W). r.1) same) routed)
  ask-Origin s model reply (none, between) chosen same h =
      let (keyed, got) = backed_reply _ between reply h in
      from_backstop model between chosen keyed same got

  chosen-Origin :
      (s : Side W) (reply : Reply) (choice : Option Text)
      → primary ≡ choice
      → (ask c client is_complex is_simple str_of settings request choice s).0 ≡ served reply
      → Origin s reply
  unfolding ask
  chosen-Origin s reply none chosen h = cc h
  chosen-Origin s reply (some model) chosen h =
      ask-Origin s model reply
        (subnet c client is_complex is_simple str_of settings request
          (truth_of c client is_complex is_simple str_of request.stream) (model_chain model) s)
        chosen refl h

  -- Every reply that is served comes from a model of the chain that begins with the request's own
  -- model, from an attempt begun within the budget; or from the backstop, and then it has a key and no
  -- model of the chain gave a reply.
  pub query-Origin :
      (s : Side W) (reply : Reply)
      → (query c client is_complex is_simple str_of settings request s).0 ≡ served reply
      → Origin s reply
  unfolding query
  query-Origin s reply h = elim (Bool-cases (is_empty settings.chutes_api_key)) [
    | inl bare ↦ absurd (stub_from-ne-served (reverse request.messages) reply (rw bare at h))
    | inr keyed ↦ chosen-Origin s reply primary refl (rw keyed at h)
  ]
