-- ===== src/Tests.antt =====
-- The theorems at concrete inputs, over small concrete packages, chips and miners.
mod Fixtures
mod Hardware
mod Proofs
mod Broker
mod Miners
mod Rounds
mod Measurements
mod Tools
mod Callers
mod Exchange
mod Network
mod Start
mod Operator
mod Chain
mod Chat
