-- ===== src/Management.antt =====
-- src/management.ts: the control plane of an Account's Angels.
pub mod State
pub mod World
pub mod Paths
pub mod Lookup
pub mod Encode
pub mod Views
pub mod Mutate
pub mod Keys
pub mod Ensure
pub mod Publish
pub mod PublishVersion
pub mod Bindings
pub mod Refs
pub mod Target
pub mod Deploy
pub mod Promote
pub mod Availability
pub mod ChangeAvailability
pub mod Delete
pub mod Load
pub mod Commands
pub mod Runs
pub mod Writes
pub mod Phase
pub mod KeyRule
pub mod Steps
pub mod Keep
pub mod History
pub mod Replay
pub mod Repeat
pub mod Once
pub mod Agree
pub mod Usable
pub mod Reaches
pub mod Converge
pub mod Resume
pub mod Leads
pub mod Gone
mod Samples
mod Tests
mod RepeatTests
