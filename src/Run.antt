-- ===== src/Run.antt =====
-- apps/worker/chain_runner.py: the pipeline of one chain.
pub mod Logs
pub mod Catchup
pub mod Process
pub mod Solana
pub mod Replay
