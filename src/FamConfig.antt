-- ===== src/FamConfig.antt =====
-- internal/famconfig: the harness that an agent runs under (harness.go), and the names derived from
-- the registry of a fam (derive.go, famconfig.go and resolve.go).
pub mod Harness
pub mod Fam
