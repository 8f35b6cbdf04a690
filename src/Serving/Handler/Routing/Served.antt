-- ===== src/Serving/Handler/Routing/Served.antt =====
-- Who is served and what a refusal gives away (sentinel/serving/handler.py).
use sentinel_subnet.Attestation.{Crypto}
use sentinel_subnet.Base.Json.{Fields, arr, end, field}
use sentinel_subnet.Enclave.{AttestedResponse}
use sentinel_subnet.Mcp.Server.{list_tools}
use sentinel_subnet.Serving.Handler.{
  Identity, MinerHandler, ServeError, auth_error, authenticate, bad_request, body_of, by_hotkey,
  by_key, guest_error, internal, serve_call, serve_challenge, tool_error,
}
use sentinel_subnet.Serving.Handler.Routing.{
  Arrival, Request, Response, Runtime, attempt, attested_reply, error_response, handle, in_scope,
  is_at, items_of, remember, route, settle,
}
use sentinel_subnet.Base.Result.{>>=-eq-ok, Result, err, ok, ok-injective, ◌>>=◌}
use sentinel_subnet.Base.Text.{Text, codes, member, text_eq_ne}
use sentinel_subnet.Base.Dict.{Dict}
use sentinel_subnet.Base.{Bool-cases, Option, ap, arith, inl, inr, refl, sym, ℕ, ◌∙◌, ◌≡◌, ◌≢◌}

-- The three routes, as answered to a caller.
pub data Answers (c : Crypto) (rt : Runtime) (h : MinerHandler) (r : Request) (caller : Identity)
    (response : Response) : Type 0 where
  tools :
      response.payload
        ≡ field
            (codes "tools")
            (arr (items_of (in_scope rt.str_of (list_tools h.mcp) caller.scopes)))
            end
      → Answers c rt h r caller response
  called :
      (body : Fields) (reply : Text × AttestedResponse)
      → serve_call c h rt.str_of body caller ≡ ok reply
      → response ≡ attested_reply reply
      → Answers c rt h r caller response
  challenged :
      (body : Fields) (reply : Text × AttestedResponse)
      → serve_challenge c h body ≡ ok reply
      → response ≡ attested_reply reply
      → Answers c rt h r caller response

module _ (c : Crypto) (rt : Runtime) where
  reply-Answers :
      (h : MinerHandler) (r : Request) (caller : Identity) (response : Response)
      (serve : Fields → Result ServeError (Text × AttestedResponse))
      → ((body : Fields) (reply : Text × AttestedResponse)
          → serve body ≡ ok reply
          → response ≡ attested_reply reply
          → Answers c rt h r caller response)
      → (body_of c rt.loads r.body
          >>= (λ body. serve body >>= (λ reply. ok (attested_reply reply))))
        ≡ ok response
      → Answers c rt h r caller response
  reply-Answers h r caller response serve make e =
      let (body, read, e₁) = >>=-eq-ok (body_of c rt.loads r.body) _ e in
      let (reply, served, e₂) = >>=-eq-ok (serve body) _ e₁ in
      make body reply served (sym (ok-injective e₂))

  route-Answers :
      (h : MinerHandler) (r : Request) (caller : Identity) (response : Response)
      → route c rt h r caller ≡ ok response
      → response.status ≡ 200
      → Answers c rt h r caller response
  unfolding route
  route-Answers h r caller response e good = elim (Bool-cases (is_at "GET" "/tools" r)) [
    | inl list ↦
        tools
          (sym (ap (λ (x : Response). x.payload) (ok-injective {E = ServeError} (rw list at e))))
    | inr other ↦ elim (Bool-cases (is_at "POST" "/call" r)) [
      | inl call ↦
          reply-Answers h r caller response (λ body. serve_call c h rt.str_of body caller)
            (λ body reply served same. called body reply served same) (rw (other, call) at e)
      | inr other' ↦ elim (Bool-cases (is_at "POST" "/challenge" r)) [
        | inl ask ↦
            reply-Answers h r caller response (λ body. serve_challenge c h body)
              (λ body reply served same. challenged body reply served same)
              (rw (other, other', ask) at e)
        | inr lost ↦
            let missing : ◌≡◌ {A = ℕ} 404 response.status =
              ap (λ (x : Response). x.status)
                (ok-injective {E = ServeError} (rw (other, other', lost) at e)) in
            absurd (omega arith)
      ]
    ]
  ]

  error-ne-200 : (e : ServeError) → (error_response c rt e).status ≢ 200
  unfolding error_response
  error-ne-200 auth_error h = omega arith
  error-ne-200 bad_request h = omega arith
  error-ne-200 internal h = omega arith
  error-ne-200 (guest_error m) h = omega arith
  error-ne-200 (tool_error e) h = omega arith

  settle-200 :
      (h : MinerHandler) (outcome : Result ServeError Response)
      → (settle c rt h outcome).0.status ≡ 200
      → (outcome ≡ ok (settle c rt h outcome).0) × ((settle c rt h outcome).1 ≡ h)
  unfolding settle
  settle-200 h (ok response) good = (refl, refl)
  settle-200 h (err e) good = absurd (error-ne-200 e good)

  elsewhere-attempt :
      (h : MinerHandler) (a : Arrival)
      → a.request.path ≢ codes "/health"
      → attempt c rt h a ≡ (
          authenticate c h a.request.headers a.drawn a.signed
          >>= (λ caller. route c rt h a.request caller))
  unfolding attempt member
  elsewhere-attempt h a elsewhere = rw (text_eq_ne a.request.path _ elsewhere) refl

  authenticate-err :
      (h : MinerHandler) (headers : Dict Text) (drawn : Text) (signed : Option (Text × Text))
      (e : ServeError)
      → authenticate c h headers drawn signed ≡ err e
      → e ≡ auth_error
  unfolding authenticate by_key by_hotkey
  authenticate-err h headers drawn signed e raised = ground arith

  -- Only `/health` is open: an answer with status 200 at another path goes to a caller that was
  -- authenticated, and is the list of the tools in its scopes, the attested reply to a call that was
  -- allowed, or the attested reply to a challenge; the handler stays as it was.
  pub handle-Answers :
      (h : MinerHandler) (a : Arrival)
      → a.request.path ≢ codes "/health"
      → (handle c rt h a).0.status ≡ 200
      → ((caller : Identity) × (authenticate c h a.request.headers a.drawn a.signed ≡ ok caller)
          × Answers c rt h a.request caller (handle c rt h a).0)
        × ((handle c rt h a).1 ≡ h)
  unfolding handle
  handle-Answers h a elsewhere good =
      let (answered, kept) = settle-200 h (attempt c rt h a) good in
      let (caller, known, e) =
        >>=-eq-ok (authenticate c h a.request.headers a.drawn a.signed) _
          (sym (elsewhere-attempt h a elsewhere) ∙ answered) in
      ((caller, known, route-Answers h a.request caller (handle c rt h a).0 e good), kept)

  -- A caller that is not known is told no more than the exception, with status 401, at every path
  -- but `/health` and whatever it asks for; and it leaves the handler as it was.
  pub handle-stranger :
      (h : MinerHandler) (a : Arrival) (e : ServeError)
      → a.request.path ≢ codes "/health"
      → authenticate c h a.request.headers a.drawn a.signed ≡ err e
      → handle c rt h a ≡ (error_response c rt auth_error, h)
  unfolding handle settle remember
  handle-stranger h a e elsewhere unknown =
      rw (elsewhere-attempt h a elsewhere, unknown, authenticate-err h _ _ _ e unknown) refl
