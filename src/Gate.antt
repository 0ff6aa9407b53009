-- ===== src/Gate.antt =====
-- src/gate.ts: the policy gate that the Gateway and the Broker each run.
pub mod State
pub mod Encode
pub mod Availability
pub mod Bindings
pub mod Keys
pub mod Receipts
pub mod ReceiptText
pub mod Chain
pub mod Migrate
pub mod Install
pub mod Evaluate
pub mod Changes
pub mod Selection
pub mod Shown
pub mod Effects
pub mod Concluded
pub mod Grant
pub mod Environment
pub mod Identity
pub mod Access
pub mod Frame
pub mod Object
pub mod Reach
pub mod Stable
mod Tests
mod ChainTests
mod ViewTests
