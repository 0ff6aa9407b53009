-- ===== src/Decision.antt =====
-- packages/core/src/decision.ts and types.ts: the allow or deny boundary of a tool call.
pub mod Walk
pub mod Guard
pub mod Call
pub mod Occurs
pub mod Depth
pub mod Meaning
pub mod Rules
pub mod Verdict
mod Tests
