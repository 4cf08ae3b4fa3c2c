-- ===== src/Decode.antt =====
-- src/slidko/decode: decoded events, hypotheses, and the decoders.
pub mod Events
pub mod Backend
pub mod NativeUart
pub mod FromMeasure
pub mod DecoderPin
pub mod Sigrok
pub mod Schema
