-- ===== src/Tests.antt =====
-- Tests, and instances of the theorems at concrete inputs.
pub mod OneRow
pub mod Accounts
pub mod Roles
pub mod Wallet
pub mod Codec
pub mod Spends
pub mod Sessions
pub mod Payments
pub mod Profiles
pub mod Portal
pub mod Backfill
pub mod Instances
pub mod Defaults
pub mod Admin
pub mod Wallets
pub mod Startup
pub mod Registrations
pub mod Config
