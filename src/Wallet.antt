-- ===== src/Wallet.antt =====
-- The wallet: its guard, light client, prover client and service.
pub mod Guard
pub mod LightClient
pub mod Prover
pub mod HeaderRpc
pub mod Defaults
pub mod Service
