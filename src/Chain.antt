-- ===== src/Chain.antt =====
-- sentinel/chain.py: what is read from the chain. The SDK's answers are arguments: the neurons of a
-- metagraph, the fields of a commitment.
pub mod Discovery
pub mod Commitment
