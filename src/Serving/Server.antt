-- ===== src/Serving/Server.antt =====
-- sentinel/serving/server.py: from what the socket gave to a call of the handler, and back. `handle` may
-- raise, which ends the connection with no response. `S` is the handler's state.
use sentinel_subnet.Base.Json.{Json, dumps, obj}
use sentinel_subnet.Serving.Handler.{ServeError}
use sentinel_subnet.Serving.Handler.Routing.{Request, Response, handle}
use sentinel_subnet.Base.Result.{Result, err, ok}
use sentinel_subnet.Base.Text.{Text, codes}
use sentinel_subnet.Base.Dict.{Dict}
use sentinel_subnet.Base.Decimal.{decimal}
use sentinel_subnet.Base.Int.{ltb_ℤ, negsuc, pos, ℤ}
use sentinel_subnet.Base.{Option, [], if◌then◌else◌, length, none, some, take, ℕ, ◌==◌, ◌^◌, ◌∷◌}

abbrev pub max_body_bytes : ℕ
max_body_bytes = 2 ^ 20

-- `self.path.split("?", 1)[0]`
unfoldable pub before_query : Text → Text
before_query [] = []
before_query (k ∷ s) = let rest = k ∷ before_query s in if k == b'?' then [] else rest

-- `rfile.read(length) if length else b""`: a negative length reads to the end.
unfoldable pub read_body : ℤ → (stream : Text) → Text
read_body (pos n) stream = take n stream
read_body (negsuc n) stream = stream

-- What goes to the socket: `send_response` puts `Server` and `Date` before these headers.
pub record Sent : Type 0 where
  pub status : ℕ
  pub headers : Dict Text
  pub body : Text

-- `_write`
unfoldable pub write : (status : ℕ) (payload : Text) → Sent
write status payload = record {
  status = status;
  headers =
      (codes "Content-Type", codes "application/json")
      ∷ (codes "Content-Length", decimal (length payload))
      ∷ (codes "Cache-Control", codes "no-store")
      ∷ [];
  body = payload;
}

-- The end of `_dispatch`.
unfoldable pub written :
    {S : Type 0} → (dumps : Json → Text) → Result ServeError Response × S → Option Sent × S
unfolding write
written dumps (ok response, s) = (some (write response.status (dumps (obj response.payload))), s)
written dumps (err e, s) = (none, s)

-- `_dispatch`, with the number that `Content-Length` reads as: what is written.
unfoldable pub dispatch :
    {S : Type 0}
    → (dumps : Json → Text) → (handle : Request → S → Result ServeError Response × S)
    → (method path : Text) → (headers : Dict Text) → (length : ℤ) → (stream : Text) → S
    → Option Sent × S
unfolding before_query read_body write written
dispatch dumps handle method path headers length stream s =
    if ltb_ℤ (pos max_body_bytes) length
    then (some (write 413 (codes "{\"error\":\"body too large\"}")), s)
    else written dumps (
        handle
          (record {
            method = method;
            path = before_query path;
            headers = headers;
            body = read_body length stream;
          })
          s)
