-- ===== src/Chain.antt =====
-- core/chains: the shapes of blocks, the confirmation buffer and the pool of RPC endpoints.
pub mod Types
pub mod Buffer
pub mod Pool
pub mod Evm
mod Solana
