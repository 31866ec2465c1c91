-- ===== src/Quota.antt =====
-- packages/quota/src/redis-quota.ts and quota-ledger.ts.
pub mod Ledger
pub mod Redis
