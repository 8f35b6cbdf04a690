-- ===== src/Sidecar.antt =====
-- sidecar/main.py: the service that sends chat requests to models on a subnet, and to a backstop.
-- Prompt picks the model, Upstream is one attempt, Routing the chain of attempts, Query the endpoint.
pub mod Prompt
pub mod Upstream
pub mod Routing
pub mod Query
