-- ===== src/Serving/Handler/Routing/Health.antt =====
-- What `/health` says of the chip after a run of requests (sentinel/serving/handler.py).
use sentinel_subnet.Attestation.{Crypto}
use sentinel_subnet.Serving.Handler.{MinerHandler, ServeError, guest_error}
use sentinel_subnet.Serving.Handler.Routing.{Arrival, Response, Runtime, attempt, handle}
use sentinel_subnet.Base.Result.{Result, err, ok}
use sentinel_subnet.Base.{Bool, List, [], false, none, some, true, ◌&&◌, ◌||◌, ◌∷◌}

abbrev pub is_guest_error : Result ServeError Response → Bool
is_guest_error (err (guest_error m)) = true
is_guest_error _ = false

abbrev pub is_okay : {E A : Type 0} → Result E A → Bool
is_okay (ok x) = true
is_okay (err e) = false

module _ (c : Crypto) (rt : Runtime) where
  -- The handler after a run of requests, in their order.
  abbrev pub after_run : List Arrival → MinerHandler → MinerHandler
  after_run [] h = h
  after_run (a ∷ run) h = after_run run (handle c rt h a).1

  -- Whether the request made the chip raise.
  abbrev pub chip_raised : MinerHandler → Arrival → Bool
  chip_raised h a = is_guest_error (attempt c rt h a)

  -- Whether some request of the run did, each on the handler as it then was.
  abbrev pub raised_in : List Arrival → MinerHandler → Bool
  raised_in [] h = false
  raised_in (a ∷ run) h = chip_raised h a || raised_in run (handle c rt h a).1

  -- Whether this request's `/health` can read the chip's identity, and the certificates or the key.
  abbrev pub readable : Arrival → Bool
  readable a = is_okay a.chip_id && (elim a.certificates [
    | err e ↦ false
    | ok none ↦ is_okay rt.public_key_hex
    | ok (some []) ↦ is_okay rt.public_key_hex
    | ok (some (e ∷ certs)) ↦ true
  ])
