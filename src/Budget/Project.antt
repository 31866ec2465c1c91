-- ===== src/Budget/Project.antt =====
-- packages/quota/src/project-budget.service.ts: the ledger of the projects. The operations on a
-- reservation are the same code as the group ledger's, on the project's tables, with the rules of
-- Project.Rules.
pub mod Rules
pub mod Reserve
pub mod Requests
pub mod Applications
pub mod Keeps
pub mod History
pub mod Funds
pub mod Retry
mod Examples
