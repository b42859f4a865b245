-- ===== src/Parser.antt =====
-- Package parser (parser/): gRPC paths and the framing of gRPC messages.
pub mod Path
pub mod Packet
