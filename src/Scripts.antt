-- ===== src/Scripts.antt =====
-- scripts: what the operators' programs put together. Scopes (`parse_scopes` of run_broker.py and
-- run_miner.py), Broker (`build_broker`), Allowlist, Silicon, Tools and Miner (run_miner.py), Validator
-- (run_validator.py).
pub mod Scopes
pub mod Allowlist
pub mod Broker
pub mod Silicon
pub mod Tools
pub mod Miner
pub mod Validator
