-- ===== src/Remote.antt =====
-- sentinel/kbs_remote.py: the broker across a network. Broker is the customer's side, Client the
-- enclave's, Factory the verifier that is built around the certificates of a report.
pub mod Broker
pub mod Client
pub mod Factory
pub mod Refines
pub mod Unlock
