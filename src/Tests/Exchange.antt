-- ===== src/Tests/Exchange.antt =====
-- The theorem about a miner's client at a concrete call.
use sentinel_subnet.Base.Json.{Json, null, obj}
use sentinel_subnet.Remote.Client.{ClientRuntime}
use sentinel_subnet.Serving.Handler.Routing.{Arrival, Request, handle}
use sentinel_subnet.Serving.Server.{before_query}
use sentinel_subnet.Serving.Client.{
  MinerClient, request_body, request_full, request_headers, updated,
}
use sentinel_subnet.Serving.Client.Served.{arrives, as_client, network, request_full-handle}
use sentinel_subnet.Tests.Fixtures.{plain_crypto}
use sentinel_subnet.Tests.Callers.{handler, headers, rt, tool_call}
use sentinel_subnet.Base.Text.{Text, codes, text_eq}
use sentinel_subnet.Base.Result.{ok}
use sentinel_subnet.Base.Dict.{insert}
use sentinel_subnet.Base.{Option, [], ap, arith, none, refl, some, sym, true, ℕ, ◌∷◌, ◌≡◌}

abbrev client : MinerClient
client = record {
  base_url = codes "http://m";
  sign = λ method path body receiver. headers;
  miner_hotkey_ss58 = codes "5Miner";
}

abbrev called : Arrival
called = record {
  request = record {
    method = codes "POST";
    path = codes "/call";
    headers =
        (codes "Content-Type", codes "application/json")
        ∷ (codes "authorization", codes "Bearer  sk1 ")
        ∷ [];
    body = codes "{}";
  };
  drawn = codes "d1";
  signed = none;
  chip_id = ok (codes "chip");
  certificates = ok none;
}

-- The client reads back what the server wrote.
abbrev client_rt : ClientRuntime
client_rt = record {
  loads = λ body. some (obj (handle plain_crypto rt handler called).0.payload);
  dumps = λ j. codes "{}";
  b64encode = λ b. b;
  str_of = λ j. [];
}

abbrev unsigned_by_hotkey : Request → Option (Text × Text)
unsigned_by_hotkey r = none

abbrev written_as : Json → Text
written_as j = codes "{}"

abbrev elapsed : ℕ
elapsed = 7

abbrev arriving : Arrival
arriving =
    arrives plain_crypto rt client_rt written_as elapsed (codes "sentinel-miner") (codes "now")
      (codes "d1") unsigned_by_hotkey (ok (codes "chip")) (ok none) client (codes "POST")
      (codes "/call") (some tool_call) true

arrives_called : arriving ≡ called
unfolding request_headers updated insert text_eq request_body
arrives_called = refl

reads_back :
    client_rt.loads (written_as null)
    ≡ some (obj (handle plain_crypto rt handler arriving).0.payload)
reads_back = ap (λ a. some (obj (handle plain_crypto rt handler a).0.payload)) (sym arrives_called)

request_full-handle_example :
    request_full client_rt
      (network plain_crypto rt client_rt written_as elapsed
        (codes "sentinel-miner")
        (codes "now")
        (codes "d1")
        unsigned_by_hotkey
        (ok (codes "chip"))
        (ok none)
        client)
      client
      (codes "POST")
      (codes "/call")
      (some tool_call)
      true
      handler
    ≡ (
      as_client plain_crypto rt client_rt written_as elapsed
          (codes "sentinel-miner")
          (codes "now")
          (codes "d1")
          unsigned_by_hotkey
          (ok (codes "chip"))
          (ok none)
          client
          (codes "POST")
          (codes "/call")
          (handle plain_crypto rt handler arriving).0,
      (handle plain_crypto rt handler arriving).1,
    )
unfolding request_body before_query
request_full-handle_example =
    request_full-handle plain_crypto rt client_rt written_as elapsed (codes "sentinel-miner")
      (codes "now") (codes "d1") unsigned_by_hotkey (ok (codes "chip")) (ok none) client
      (codes "POST") (codes "/call") (some tool_call) true handler (omega arith) refl reads_back
      refl
