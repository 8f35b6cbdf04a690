-- ===== src/Serving.antt =====
-- sentinel/serving: the keys of callers that are not on Bittensor (apikeys.py), and the handling of a
-- miner's requests (handler.py).
pub mod ApiKeys
pub mod Handler
pub mod Server
pub mod Client
