-- ===== src/Budget/Group.antt =====
-- packages/quota/src/group-budget.service.ts: the ledger of the usage groups.
pub mod Rules
pub mod Reserve
pub mod Admin
pub mod Reconcile
pub mod Keeps
pub mod History
pub mod Funds
pub mod Retry
mod Examples
