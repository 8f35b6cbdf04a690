-- ===== src/Serving/Client/Served.antt =====
-- The client in front of the server, with the handler behind it.
use sentinel_subnet.Attestation.{Crypto}
use sentinel_subnet.Base.Json.{Fields, Json, obj, str}
use sentinel_subnet.Registry.{get}
use sentinel_subnet.Remote.Client.{ClientRuntime, detail_of, shown}
use sentinel_subnet.Serving.Handler.{MinerHandler}
use sentinel_subnet.Serving.Handler.Routing.{Arrival, Request, Response, Runtime, handle}
use sentinel_subnet.Serving.Server.{
  Sent, before_query, dispatch, max_body_bytes, read_body, write, written,
}
use sentinel_subnet.Serving.Client.{
  ClientError, ClientResponse, MinerClient, Reply, at_route, broken_off, client_error, failed_with,
  read_reply, received, request_body, request_full, request_headers,
}
use sentinel_subnet.Base.Result.{Result, err, ok}
use sentinel_subnet.Base.Text.{Text, codes, is_empty, truthy}
use sentinel_subnet.Base.Dict.{Dict}
use sentinel_subnet.Base.Int.{ltb_ℤ, pos}
use sentinel_subnet.Base.Decimal.{decimal}
use sentinel_subnet.Base.{
  Bool, Bool-cases, Option, [], ap, arith, drop, drop-append, false, given_or, if◌then◌else◌, inl,
  inr, leb, length, ltb, none, refl, some, take_all, ℕ, ◌&&◌, ◌++◌, ◌∙◌, ◌∷◌, ◌≡◌, ◌≤◌,
}

given_body : (body : Text) → given_or (truthy (some body)) [] ≡ body
unfolding truthy
given_body [] = refl
given_body (k ∷ s) = refl

within :
    (body : Text)
    → length body ≤ max_body_bytes
    → ltb_ℤ (pos max_body_bytes) (pos (length body)) ≡ false
unfolding ltb_ℤ
within body small = ground (arith, small)

-- What `urlopen` makes of a response that the server wrote, with the `Server` and `Date` that
-- `send_response` puts before its headers.
abbrev pub reply_of {ℓ} :
    {T : Type 0} {B : Type ℓ} (version date : Text) → T → Option Sent × B → Reply T × B
reply_of version date latency_ms (none, b) = (broken_off, b)
reply_of version date latency_ms (some sent, b) = (
  if leb 200 sent.status && ltb sent.status 300
      then received sent.body ((codes "Server", version) ∷ (codes "Date", date) ∷ sent.headers)
          latency_ms
      else failed_with sent.status sent.body,
  b,
)

module _ {T : Type 0} (c : Crypto) (server : Runtime) (rt : ClientRuntime) (to_bytes : Json → Text)
    (latency_ms : T) (version date drawn : Text) (verify : Request → Option (Text × Text))
    (chip_id : Result Text Text) (certificates : Result Text (Option (Dict Text)))
    (client : MinerClient) where
  -- The server of the handler, at the base of the client's addresses.
  abbrev pub network :
      (method url : Text) (headers : Dict Text) (content : Option Text)
      → MinerHandler
      → Reply T × MinerHandler
  network method url headers content h =
      let body = given_or content [] in
      reply_of version date latency_ms (
        dispatch to_bytes
          (λ (r : Request) (s : MinerHandler).
            let answered = handle c server s (record {
              request = r;
              drawn = drawn;
              signed = verify r;
              chip_id = chip_id;
              certificates = certificates;
            }) in
            (ok answered.0, answered.1))
          method (drop (length client.base_url) url) headers (pos (length body)) body h)

  -- The request that arrives.
  abbrev pub arrives : (method path : Text) (payload : Option Fields) (signed : Bool) → Arrival
  arrives method path payload signed =
      let r : Request = record {
        method = method;
        path = path;
        headers = request_headers client method path (request_body rt payload) signed;
        body = request_body rt payload;
      } in
      record {
        request = r;
        drawn = drawn;
        signed = verify r;
        chip_id = chip_id;
        certificates = certificates;
      }

  -- What a response is to the client.
  abbrev pub as_client : (method path : Text) → Response → Result ClientError (ClientResponse T)
  as_client method path r =
      if leb 200 r.status && ltb r.status 300
      then ok (record {
        payload = obj r.payload;
        headers =
            (codes "Server", version)
            ∷ (codes "Date", date)
            ∷ (codes "Content-Type", codes "application/json")
            ∷ (codes "Content-Length", decimal (length (to_bytes (obj r.payload))))
            ∷ (codes "Cache-Control", codes "no-store")
            ∷ [];
        latency_ms = latency_ms;
      })
      else err (
          client_error (
            at_route method path (
              codes "HTTP "
              ++ decimal r.status
              ++ (codes ": "
                  ++ shown rt.str_of (
                      given_or (get (codes "error") r.payload) (str (to_bytes (obj r.payload))))))))

  detail_reads :
      (payload : Fields)
      → rt.loads (to_bytes (obj payload)) ≡ some (obj payload)
      → detail_of rt (to_bytes (obj payload))
        ≡ ok (
            shown rt.str_of (given_or (get (codes "error") payload) (str (to_bytes (obj payload)))))
  unfolding detail_of
  detail_reads payload reads = ground (arith, reads)

  read_failed :
      (method path : Text) (code : ℕ) (body detail : Text)
      → detail_of rt body ≡ ok detail
      → ◌≡◌ {A = Result ClientError (ClientResponse T)}
          (read_reply rt method path (failed_with code body))
          (err (
            client_error
              (at_route method path (codes "HTTP " ++ decimal code ++ (codes ": " ++ detail)))))
  unfolding read_reply
  read_failed method path code body detail h = rw h refl

  read_back :
      (method path : Text) (r : Response) (h : MinerHandler)
      → rt.loads (to_bytes (obj r.payload)) ≡ some (obj r.payload)
      → is_empty (to_bytes (obj r.payload)) ≡ false
      → read_reply rt method path (reply_of version date latency_ms (written to_bytes (ok r, h))).0
        ≡ as_client method path r
  unfolding read_reply write written detail_of
  read_back method path r h reads written_out =
      elim (Bool-cases (leb 200 r.status && ltb r.status 300)) [
        | inl good ↦ rw (good, written_out, reads) refl
        | inr bad ↦ rw bad (
            read_failed method path r.status (to_bytes (obj r.payload))
              (shown rt.str_of
                (given_or (get (codes "error") r.payload) (str (to_bytes (obj r.payload)))))
              (detail_reads r.payload reads))
      ]

  network-handle :
      (method path body : Text) (headers : Dict Text) (h : MinerHandler)
      → length body ≤ max_body_bytes
      → before_query path ≡ path
      → network method (client.base_url ++ path) headers (truthy (some body)) h
        ≡ reply_of version date latency_ms (
            written to_bytes (
              let r : Request = record {
                method = method;
                path = path;
                headers = headers;
                body = body;
              } in
              let answered = handle c server h (record {
                request = r;
                drawn = drawn;
                signed = verify r;
                chip_id = chip_id;
                certificates = certificates;
              }) in
              (ok answered.0, answered.1)))
  unfolding dispatch read_body ltb_ℤ
  network-handle method path body headers h small plain =
      rw
        (
          given_body body,
          drop-append client.base_url path (length client.base_url) refl,
          plain,
          take_all body,
          within body small,
        )
        refl

  -- A request through the client is the handler's own answer to it, with the same handler after it:
  -- its payload where the status is one of success, under the headers that the server writes, among
  -- them its length and `no-store`, and otherwise a `MinerClientError` with the
  -- status and the handler's error; no other exception. For a body that fits, a path without a query, and
  -- JSON that is not empty and that the client reads as the server wrote it.
  pub request_full-handle :
      (method path : Text) (payload : Option Fields) (signed : Bool) (h : MinerHandler)
      → length (request_body rt payload) ≤ max_body_bytes
      → before_query path ≡ path
      → rt.loads (to_bytes (obj (handle c server h (arrives method path payload signed)).0.payload))
        ≡ some (obj (handle c server h (arrives method path payload signed)).0.payload)
      → is_empty (to_bytes (obj (handle c server h (arrives method path payload signed)).0.payload))
        ≡ false
      → request_full rt network client method path payload signed h ≡ (
        as_client method path (handle c server h (arrives method path payload signed)).0,
        (handle c server h (arrives method path payload signed)).1,
      )
  unfolding request_full write written
  request_full-handle method path payload signed h small plain reads written_out =
      let body = request_body rt payload in
      let answered = handle c server h (arrives method path payload signed) in
      ap (λ (n : Reply T × MinerHandler). (read_reply rt method path n.0, n.1))
        (network-handle method path body (request_headers client method path body signed) h small
          plain)
      ∙ ap (λ (r : Result ClientError (ClientResponse T)). (r, answered.1))
          (read_back method path answered.0 answered.1 reads written_out)
