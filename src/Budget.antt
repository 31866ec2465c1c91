-- ===== src/Budget.antt =====
-- packages/quota/src
pub mod Result
pub mod Ensures
pub mod Money
pub mod Ledger
pub mod Group
pub mod Project
