-- ===== src/Forge.antt =====
-- internal/forge/scope.go: the references of an issue's body and the scopes of issues.
pub mod Closure
pub mod Scope
