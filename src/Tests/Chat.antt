-- ===== src/Tests/Chat.antt =====
-- The sidecar's theorems at concrete inputs: the world is a clock, and one model answers.
use sentinel_subnet.Base.Json.{bool, end}
use sentinel_subnet.Sidecar.Upstream.{
  ChatRequest, Client, Settings, Side, chunk, no_answer, opened, slow, stream_body, streaming,
}
use sentinel_subnet.Sidecar.Routing.Connections.{Contains}
use sentinel_subnet.Sidecar.Query.{Answered, answer_holds, query, query-Contains, served}
use sentinel_subnet.Sidecar.Query.Origin.{Origin, query-Origin}
use sentinel_subnet.Tests.Fixtures.{plain_crypto}
use sentinel_subnet.Base.Text.{Text, codes, text_eq}
use sentinel_subnet.Base.{
  List, [], false, given_or, if◌then◌else◌, leb, none, refl, some, true, ℕ, ◌+◌, ◌∷◌, ◌≡◌,
}

abbrev client : Client ℕ
client = record {
  clock = λ now. (now, now + 3000);
  post = λ url key request timeout now. (no_answer slow, now + timeout);
  send = λ url key request ttft now.
      if text_eq (given_or request.model []) (codes "google/gemma-4-31B-turbo-TEE")
      then (opened 7 200, now + 100)
      else (opened 6 503, now + 100);
  first = λ connection ttft now. (chunk (codes "data: hi"), now + 50);
  close = λ connection now. now;
  renew = λ now. now;
  raises = λ status. leb 400 status;
}

abbrev settings : Settings
settings = record {
  chutes_api_url = codes "https://llm";
  chutes_api_key = codes "k";
  default_model = codes "auto";
  groq_api_key = [];
  groq_model = codes "llama";
}

abbrev request : ChatRequest
request = record {
  model = some (codes "gpt-4o");
  stream = some (bool true);
  stream_options = none;
  messages = [];
  others = end;
}

abbrev idle : Side ℕ
idle = record { world = 0; open_connections = 3 ∷ [] }

abbrev asked : Answered ℕ × Side ℕ
asked = query plain_crypto client (λ t. false) (λ t. false) (λ j. []) settings request idle

streamed_reply :
    asked.0
    ≡ served (streaming 7 (codes "data: hi") (codes "SN64-Chutes/google/gemma-4-31B-turbo-TEE"))
unfolding query
streamed_reply = refl

query-Contains_example :
    Contains
      (answer_holds plain_crypto client (λ t. false) (λ t. false) (λ j. []) asked.0)
      idle
      asked.1
    × ((connection : ℕ) (first routed : Text) (rest : List Text) (taken : ℕ)
        → asked.0 ≡ served (streaming connection first routed)
        → Contains (λ d. false) idle (stream_body client connection first rest taken asked.1).1)
query-Contains_example =
    query-Contains plain_crypto client (λ t. false) (λ t. false) (λ j. []) settings request idle

query-Origin_example :
    Origin plain_crypto client
      (λ t. false)
      (λ t. false)
      (λ j. [])
      settings
      request
      idle
      (streaming 7 (codes "data: hi") (codes "SN64-Chutes/google/gemma-4-31B-turbo-TEE"))
query-Origin_example =
    query-Origin plain_crypto client (λ t. false) (λ t. false) (λ j. []) settings request idle
      (streaming 7 (codes "data: hi") (codes "SN64-Chutes/google/gemma-4-31B-turbo-TEE"))
      streamed_reply
