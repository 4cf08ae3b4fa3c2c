-- ===== src/Decode/NativeUart/Transmit.antt =====
-- A whole line, sent and decoded.
use slidko.Prelude.{
  ℕ, ◌*◌, ◌<◌, ◌≡◌, ap, Bool, true, false, none, List, [], ◌∷◌, ◌++◌, arith, ◌==◌, replicate, Float,
}
use slidko.Result.{◌>>=◌, ok}
use slidko.Capture.{Capture}
use slidko.Measure.Edges.{Channel}
use slidko.Decode.Backend.{Value, ProtocolHypothesis}
use slidko.Decode.NativeUart.{in_range_of, center_offset, frame_samples, decode, is_8n1, bit_period}
use slidko.Decode.NativeUart.Frame.{IsCentered}
use slidko.Decode.NativeUart.Scan.{transmit, received, AreBytes, decode_loop-line}

-- What is said of a line and a rate: a whole number of samples for each bit, sample points inside
-- their bits.
abbrev pub Fits : (F : Type 0) ⦃fl : Float F⦄ → ℕ → ℕ → ℕ → Type 0
Fits F ⦃fl⦄ samplerate_hz baud period =
    let bit_period_samples = fl.div (fl.of_ℕ samplerate_hz) (fl.of_ℕ baud) in
    (fl.lt bit_period_samples (fl.of_ℕ 1) ≡ false)
    × IsCentered period (center_offset bit_period_samples) 10
    × (frame_samples bit_period_samples 8 ≡ 10 * period)

abbrev pub uart_on : {F : Type 0} → ℕ → ProtocolHypothesis F
uart_on baud = record {
  protocol = "uart";
  parameters = ("baud", Value.int baud) ∷ [];
  channel_assignments = ("rx", "RX") ∷ [];
}

abbrev pub capture_of : {F : Type 0} → ℕ → Channel → Capture F
capture_of samplerate_hz channel = record {
  channels = ("RX", channel) ∷ [];
  samplerate_hz = samplerate_hz;
  instrument = none;
  threshold_v = none;
}

-- On a line that is idle for at least one sample and then carries bytes, as lists of 8 bits, in 8N1
-- frames with nothing between them, the decoder gives exactly one event for each byte, in order,
-- with the byte's value, no framing error, and the first and last samples of its frame. The
-- conditions are a baud that is not 0, with the other parameters left out, a whole number of samples
-- for each bit, a computed bit period not below 1, sample points that are rounded into the bits they
-- read, and a frame's length that is rounded to 10 bits.
pub decode-transmit :
    (F : Type 0) ⦃fl : Float F⦄ (samplerate_hz baud period idle : ℕ) (bytes : List (List Bool))
    → AreBytes bytes
    → 0 < idle
    → 0 < baud
    → Fits F samplerate_hz baud period
    → decode
        (capture_of {F = F} samplerate_hz (replicate idle true ++ transmit period bytes))
        (uart_on baud)
      ≡ ok (received period idle bytes)
unfolding decode is_8n1 bit_period
decode-transmit F samplerate_hz baud period idle bytes octets some_idle some_baud fits =
    let nonzero : (baud == 0) ≡ false = ground (arith, some_baud) in
    rw (nonzero, fits.0)
      (ap (λ r. r >>= in_range_of {F = F} none)
        (decode_loop-line _ period fits.1 fits.2 idle bytes octets some_idle))
