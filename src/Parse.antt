-- ===== src/Parse.antt =====
-- core/parser: the events that are read from the transactions, logs and traces of a block.
pub mod Value
pub mod Event
pub mod Hex
pub mod Bytes
pub mod Native
pub mod Erc20
pub mod Solana
pub mod Internal
pub mod Abi
pub mod Anchor
pub mod Pipeline
