-- ===== src/Serving/Handler/Permission.antt =====
-- Who may call what (sentinel/serving/handler.py).
use sentinel_subnet.Attestation.{Crypto, bind_response}
use sentinel_subnet.Base.Json.{Fields, Json, arr, bool, dumps, end, float, int, null, obj, str}
use sentinel_subnet.Registry.{get}
use sentinel_subnet.Enclave.{AttestedResponse, run_attested}
use sentinel_subnet.Mcp.Server.{call_tool}
use sentinel_subnet.Serving.ApiKeys.{ApiKeyStore, label_for, label_for-digest, scopes_for}
use sentinel_subnet.Serving.Handler.{
  Identity, MinerHandler, arguments_of, auth_error, authenticate, bad_request, bearer, by_key,
  counts, request_id_of, required, serve_call, tool_allowed, tool_error,
}
use sentinel_subnet.Enclave.Respond.{run_attested-report, run_attested-result}
use sentinel_subnet.Base.Result.{
  >>=-eq-ok, err, map_err, map_err-ok, ok, ok-injective, or_raise, or_raise-ok, raise_if,
  raise_if-ok,
}
use sentinel_subnet.Base.Text.{Text, codes, text_eq, truthy}
use sentinel_subnet.Base.Dict.{Dict}
use sentinel_subnet.Base.{
  Bool-cases, Option, [], any, ap, arith, false, if◌then◌else◌, inl, inr, none, not, refl, some,
  subst, sym, true, ◌∷◌, ◌&&◌, ◌∙◌, ◌≡◌,
}

not_empty : (t s : Text) → truthy (some t) ≡ some s → t ≡ s
unfolding truthy
not_empty [] s e = cc e
not_empty (k ∷ t) s e = cc e

module _ (c : Crypto) where
  authenticate-token :
      (h : MinerHandler) (headers : Dict Text) (drawn token : Text) (signed : Option (Text × Text))
      → bearer headers ≡ some token
      → authenticate c h headers drawn signed ≡ by_key c h drawn token
  unfolding authenticate
  authenticate-token h headers drawn token signed b = ground (arith, b)

  by_key-ok :
      (h : MinerHandler) (drawn token : Text) (caller : Identity)
      → by_key c h drawn token ≡ ok caller
      → (store : ApiKeyStore) × (h.api_keys ≡ some store)
        × (label_for c store token ≡ some caller.name)
        × (caller.scopes ≡ scopes_for store caller.name)
  unfolding by_key
  by_key-ok h drawn token caller e =
      let (store, kept, e₁) = >>=-eq-ok (or_raise h.api_keys auth_error) _ e in
      let (label, found, made) = >>=-eq-ok (or_raise (label_for c store token) auth_error) _ e₁ in
      let same = ok-injective made in
      (
        store,
        or_raise-ok _ auth_error kept,
        or_raise-ok _ auth_error found ∙ ap (λ (i : Identity). some i.name) same,
        sym (ap (λ (i : Identity). i.scopes) same)
            ∙ ap (λ (i : Identity). scopes_for store i.name) same,
      )

  -- A caller that presents a key is known by it and by nothing else: it is let in only under a label
  -- whose digest is the key's, with the scopes of that label, whatever else the request is signed with.
  pub authenticate-key :
      (h : MinerHandler) (headers : Dict Text) (drawn token : Text) (signed : Option (Text × Text))
      (caller : Identity)
      → bearer headers ≡ some token
      → authenticate c h headers drawn signed ≡ ok caller
      → (store : ApiKeyStore) × (h.api_keys ≡ some store)
        × (any
              (λ (e : Text × Text). text_eq e.0 caller.name && text_eq (c.sha256 token) e.1)
              store.digests
            ≡ true)
        × (caller.scopes ≡ scopes_for store caller.name)
  authenticate-key h headers drawn token signed caller b a =
      let (store, kept, found, reach) =
        by_key-ok h drawn token caller
          (sym (authenticate-token h headers drawn token signed b) ∙ a) in
      (store, kept, label_for-digest c store token caller.name found, reach)

  -- The arguments of a request: its object, or none where it is left out or counts as false.
  pub data IsGiven : Option Json → Fields → Type 0 where
    left_out : IsGiven none end
    as_object : (fs : Fields) → IsGiven (some (obj fs)) fs
    as_false : (j : Json) → counts c j ≡ false → IsGiven (some j) end

  -- What a call answers, by the fields of its body.
  pub record Called (h : MinerHandler) (str_of : Json → Text) (body : Fields) (caller : Identity)
      (request_id : Text) (attested : AttestedResponse) : Type 0 where
    pub tool : Text
    pub asked : get (codes "tool") body ≡ some (str tool)
    pub permitted : tool_allowed tool caller.scopes ≡ true
    pub arguments : Fields
    pub arguments_given : IsGiven (get (codes "arguments") body) arguments
    pub answered : call_tool tool (some arguments) h.mcp ≡ ok attested.result
    pub nonce : Text
    pub nonce_given : get (codes "nonce") body ≡ some (str nonce)
    pub fresh : attested.attestation.nonce ≡ nonce
    pub named : request_id ≡ request_id_of c str_of (get (codes "request_id") body) caller.nonce_ns
    pub hashed : attested.response_hash ≡ c.sha384 (dumps attested.result)
    pub bound : attested.attestation.report_data ≡ bind_response c request_id attested.response_hash

  required-ok :
      (key s : Text) (body : Fields) → required c key body ≡ ok s → get key body ≡ some (str s)
  unfolding required
  required-ok key s body h = text_given (get key body) h
    where
      text_given :
          (j : Option Json)
          → elim j [ some (str t) ↦ or_raise (truthy (some t)) bad_request | _ ↦ err bad_request ]
            ≡ ok s
          → j ≡ some (str s)
      text_given (some (str t)) e =
          ap (λ r. some (str r)) (not_empty t s (or_raise-ok _ bad_request e))
      text_given _ e = cc e

  plain-IsGiven :
      (j : Json) (arguments : Fields)
      → (if counts c j then err bad_request else ok end) ≡ ok arguments
      → IsGiven (some j) arguments
  plain-IsGiven j arguments h = elim (Bool-cases (counts c j)) [
    | inl t ↦ cc (rw t at h)
    | inr f ↦ subst (IsGiven (some j)) (ok-injective (rw f at h)) (as_false j f)
  ]

  arguments_of-ok :
      (j : Option Json) (arguments : Fields) → arguments_of c j ≡ ok arguments → IsGiven j arguments
  unfolding arguments_of
  arguments_of-ok none arguments h = subst (IsGiven none) (ok-injective h) left_out
  arguments_of-ok (some (obj fs)) arguments h =
      subst (IsGiven (some (obj fs))) (ok-injective h) (as_object fs)
  arguments_of-ok (some null) arguments h = plain-IsGiven null arguments h
  arguments_of-ok (some (bool b)) arguments h = plain-IsGiven (bool b) arguments h
  arguments_of-ok (some (int n)) arguments h = plain-IsGiven (int n) arguments h
  arguments_of-ok (some (float t)) arguments h = plain-IsGiven (float t) arguments h
  arguments_of-ok (some (str t)) arguments h = plain-IsGiven (str t) arguments h
  arguments_of-ok (some (arr xs)) arguments h = plain-IsGiven (arr xs) arguments h

  -- A call is answered only for the tool that the body names, which the caller may reach, with the
  -- body's arguments; what is attested is that tool's own answer, under the body's nonce, and the
  -- report binds the request's name and the digest of the answer.
  pub serve_call-allowed :
      (h : MinerHandler) (str_of : Json → Text) (body : Fields) (caller : Identity)
      (request_id : Text) (attested : AttestedResponse)
      → serve_call c h str_of body caller ≡ ok (request_id, attested)
      → Called h str_of body caller request_id attested
  unfolding serve_call
  serve_call-allowed h str_of body caller request_id attested e =
      let (tool, named, e₁) = >>=-eq-ok (required c (codes "tool") body) _ e in
      let (arguments, given, e₂) = >>=-eq-ok (arguments_of c (get (codes "arguments") body)) _ e₁ in
      let (u, allowed, e₃) =
        >>=-eq-ok (raise_if (not (tool_allowed tool caller.scopes)) auth_error) _ e₂ in
      let (nonce, fresh, e₄) = >>=-eq-ok (required c (codes "nonce") body) _ e₃ in
      let id = request_id_of c str_of (get (codes "request_id") body) caller.nonce_ns in
      let (a, ran, made) =
        >>=-eq-ok
          (run_attested c id nonce (map_err tool_error (call_tool tool (some arguments) h.mcp))
            h.enclave)
          _ e₄ in
      let (worked, hashed) = run_attested-result c h.enclave id nonce _ a ran in
      let (over, bound) = run_attested-report c h.enclave id nonce _ a ran in
      subst (λ (r : Text × AttestedResponse). Called h str_of body caller r.0 r.1)
        (ok-injective made)
        (record {
          tool = tool;
          asked = required-ok (codes "tool") tool body named;
          permitted = ground (arith, raise_if-ok _ auth_error allowed);
          arguments = arguments;
          arguments_given = arguments_of-ok (get (codes "arguments") body) arguments given;
          answered = map_err-ok tool_error _ worked;
          nonce = nonce;
          nonce_given = required-ok (codes "nonce") nonce body fresh;
          fresh = over;
          named = refl;
          hashed = hashed;
          bound = bound;
        })
