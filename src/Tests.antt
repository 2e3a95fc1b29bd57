-- ===== src/Tests.antt =====
-- Concrete runs of the modelled code, and the theorems at inputs that meet their hypotheses.
pub mod Outbox
pub mod Proposals
pub mod Observing
pub mod Hosts
pub mod Polling
pub mod Spools
