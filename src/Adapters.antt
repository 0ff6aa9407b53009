-- ===== src/Adapters.antt =====
-- packages/core/src/adapter-derive.ts and artifact-validate.ts: the reviewed adapters, and the check
-- of a received artifact against them. The registry of adapters is generated, so it is a parameter.
pub mod Scopes
pub mod Cover
pub mod Enough
pub mod Validate
pub mod Consent
pub mod Reviewed
mod Tests
