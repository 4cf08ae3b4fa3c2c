-- ===== src/Decode/NativeUart/Auto.antt =====
-- A line whose baud nobody states: src/slidko/measure/uart.py infers it, and the decoder reads the bytes.
pub mod Intervals
pub mod Period
pub mod Baud
pub mod Bytes
