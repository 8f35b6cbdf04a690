-- ===== src/Lib.antt =====
-- Sentinel: a Bittensor subnet whose miners answer tool calls inside confidential virtual machines and
-- prove it, whose validators probe and weigh them, and whose key broker hands a database credential to
-- an enclave that proved itself.
--
-- The parts, and the files that model them:
--   * Attestation: sentinel/attestation.py. Reports, the bytes that are signed, the agent, `verify`.
--   * Kbs: sentinel/kbs.py. The broker's state and its methods; each returns its result and the broker
--     after it. It calls Attestation's `verify` for registered keys and a hardware verifier otherwise.
--   * SevSnp: sentinel/sevsnp. Report (report.py) parses the 1184 bytes, Certs (certs.py) checks AMD's
--     chain and, in Cache, fetches it, Verifier (verifier.py) puts both together with the policy,
--     CertTable (certtable.py) and Guest (guest.py) are the enclave's side: the certificate table, the
--     device, in Cached what a miner keeps of it, and in Exclusive the locks around it.
--   * Validating: sentinel/validating. Scoring (scoring.py), Evaluator and Probe (the per-miner part of
--     evaluator.py), Round (evaluate_round), Weights (weights_from and weights.py, with
--     the SDK's `execute`). A probe verifies by way of Attestation or SevSnp.
--   * Registry: sentinel/registry.py (Registry, Manifest) and sentinel/registry_source.py (Source,
--     and in Rounds what a validator makes of it round by round), the lists of measurements that a validator approves, which are the evaluator's `approved_measurement`.
--   * Enclave: sentinel/enclave.py. Unlock attests to a broker and keeps what it releases; Respond attests
--     a result.
--   * Mcp: sentinel/mcp. Server (server.py) dispatches to tools; Query and Keyword
--     (tools/postgres.py) are the query tool, over the queries that a database answers.
--   * Database: sentinel/database.py, the clients that a tool may have behind it, over a driver.
--   * Serving: sentinel/serving. ApiKeys (apikeys.py), Handler (handler.py), which knows the caller,
--     calls the Mcp server's tools inside the Enclave and attests the answer, with Routing (its
--     `handle`), Server (server.py), which carries a handler over HTTP, and Client (client.py), which a
--     validator calls it with.
--   * Remote: sentinel/kbs_remote.py, the broker across a network. Client is what the enclave uses in
--     place of the Kbs broker, Broker is the Kbs broker behind Serving's requests, Factory builds SevSnp's
--     verifier around the certificates of a report.
--   * Chain: sentinel/chain.py. Discovery of miners and validators, Commitment for Registry's manifest.
--   * Scripts: scripts/run_broker.py, scripts/run_miner.py and scripts/run_validator.py, which put the
--     parts together. Validator is the validator's round, from Chain's miners over Registry's list and
--     Validating's scores to the weights that are submitted, and the loop around it. Scopes are
--     the credentials that an operator names, Broker is how the broker is set up, Silicon the miner's
--     chip and verifier, Tools the databases behind its scopes, Allowlist who may call it, and Miner
--     `build_miner`, with the Kbs broker in the process or the Remote one, and in Main its `main`.
--   * Sidecar: sidecar/main.py, the chat proxy. Prompt is the scrubbing, the token estimate and the
--     model chain, Upstream the requests to one model, Routing the chain over a time budget with the
--     backstop behind it, Query the endpoint.
--   * Base: Python's texts, dictionaries, JSON printer, bytes and results.
--   * Tests: the theorems at concrete inputs.
--
-- What stands for code outside the repository: `Crypto` (hashlib, Ed25519), `Pki` (x509 and key
-- objects), `Kds` (AMD's key service, as the verifier meets it), `Decoders` (base64, DER), `Readers`
-- (the JSON reader, `int` on its values, UTF-8), `Device` (the ioctl calls), `Floats` (floating-point
-- numbers, with the monotonicity that IEEE arithmetic has on finite values, and an instance in fixed
-- point), the chain's answers and the SDK's `execute`, the drivers of databases, and for the sidecar
-- the HTTP client, the clock and two regular expressions. Each is an argument, instantiated in Tests.
--
-- Interleavings are explicit: callers of the chip take the steps of a relation in any order.
--
-- A text is the list of its code points, case and white space are those of ASCII. The clock and
-- the nonces drawn are arguments. A loop is structural recursion, but for three that run on fuel: the
-- certificate table's scan, on the number of entries that the blob has room for, which is the number of
-- iterations of the `range` it models; the query tool's loop over comments, on the length of the
-- statement; and the printing of decimals, on the number plus one.
--
-- Not modelled: the other scripts, which are mostly input and output around the parts above; chat.py, an
-- interactive client; threads, signals and the waiting between rounds; the start-up and /health of the
-- sidecar; the report builder of the tests (sevsnp/testing.py); the Go gateway, which is in another
-- language; and logging.
pub mod Base
pub mod Attestation
pub mod Kbs
pub mod SevSnp
pub mod Validating
pub mod Registry
pub mod Enclave
pub mod Mcp
pub mod Serving
pub mod Remote
pub mod Chain
pub mod Database
pub mod Scripts
pub mod Sidecar
pub mod Tests
