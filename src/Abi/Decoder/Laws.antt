-- ===== src/Abi/Decoder/Laws.antt =====
-- core/abi/decoder.py: what the decoders of events and of calls give.
pub mod Names
pub mod Calls
