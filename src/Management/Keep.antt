-- ===== src/Management/Keep.antt =====
-- What each operation of the control plane keeps true of its environments.
pub mod Mutations
pub mod Keys
pub mod Deployments
pub mod Changes
pub mod Angels
pub mod Loading
