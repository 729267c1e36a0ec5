-- ===== src/Abi.antt =====
-- core/abi: the registry of ABIs, and the decoders of events, calls and Anchor data.
pub mod Registry
pub mod Signature
pub mod Decoder
pub mod Borsh
pub mod Tests
