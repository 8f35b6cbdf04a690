-- ===== src/Validating.antt =====
-- sentinel/validating: how a validator scores miners and what it submits.
pub mod Floats
pub mod Scoring
pub mod Evaluator
pub mod Probe
pub mod Round
pub mod Weights
