-- ===== src/Wallet/Service.antt =====
-- The wallet service (internal/application/o2ul_wallet_service.go): notes, spend transactions and
-- the record of what was submitted. JSON, the hash and the clock are parameters. Byte slices are
-- the texts that they encode.
pub mod Payloads
pub mod Notes
pub mod Transactions
pub mod Scan
pub mod Spent
pub mod Owner
pub mod Budget
pub mod Signing
pub mod Lifecycle
pub mod Prove
