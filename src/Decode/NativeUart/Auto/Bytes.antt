-- ===== src/Decode/NativeUart/Auto/Bytes.antt =====
-- Bytes on a line of which nobody states the baud, from the samples to the events.
use slidko.Prelude.{
  ℕ, suc, ◌<◌, ◌≡◌, refl, sym, ap, ◌∙◌, Bool, true, List, [], ◌∷◌, ◌++◌, arith, replicate, Float,
}
use slidko.Result.{ok}
use slidko.Numpy.{Numpy, NumpyLaws, Statistics}
use slidko.Measure.Best.{LtIsTransitive, LtIsIrreflexive}
use slidko.Measure.Edges.{Channel}
use slidko.Measure.Uart.{infer_uart}
use slidko.Decode.NativeUart.{decode}
use slidko.Decode.NativeUart.Frame.{wave, frame, ++-assoc_channel}
use slidko.Decode.NativeUart.Scan.{transmit, received, AreBytes}
use slidko.Decode.NativeUart.Transmit.{Fits, uart_on, capture_of, decode-transmit}
use slidko.Decode.NativeUart.Auto.Intervals.{bit_gaps}
use slidko.Decode.NativeUart.Auto.Period.{has_lone_bit, IsExact}
use slidko.Decode.NativeUart.Auto.Baud.{line_of, IsClear, infer_uart-line}

-- The bits of the frames, with nothing between them.
abbrev pub frames : List (List Bool) → List Bool
frames [] = []
frames (byte ∷ bytes) = frame byte ++ frames bytes

wave-append : (w : ℕ) (a b : List Bool) → wave w (a ++ b) ≡ wave w a ++ wave w b
unfolding wave
wave-append w [] b = refl
wave-append w (x ∷ a) b =
    ap (◌++◌ (replicate w x)) (wave-append w a b)
    ∙ sym (++-assoc_channel (replicate w x) (wave w a) (wave w b))

transmit-frames : (w : ℕ) (bytes : List (List Bool)) → transmit w bytes ≡ wave w (frames bytes)
unfolding transmit wave
transmit-frames w [] = refl
transmit-frames w (byte ∷ bytes) =
    ap (◌++◌ (wave w (frame byte))) (transmit-frames w bytes)
    ∙ sym (wave-append w (frame byte) (frames bytes))

-- A line that is high for some samples and then carries the bytes.
abbrev pub line_with : ℕ → ℕ → List (List Bool) → Channel
line_with idle v bytes = replicate (suc idle) true ++ transmit (suc v) bytes

line_with-line_of :
    (idle v : ℕ) (bytes : List (List Bool)) → line_with idle v bytes ≡ line_of idle v (frames bytes)
line_with-line_of idle v bytes =
    ap (λ s. true ∷ replicate idle true ++ s) (transmit-frames (suc v) bytes)

-- What is said of the bytes and the rates: bytes of 8 bits, among their bits one that stands alone, a line whose intervals
-- floats compute exactly, and a baud not 0 that is the candidate strictly nearest to the rate of the bits and that fits them.
pub record IsReadable (F : Type 0) ⦃fl : Float F⦄ ⦃st : Statistics F⦄ (samplerate_hz baud v : ℕ)
    (bytes : List (List Bool)) : Type 0 where
  pub octets : AreBytes bytes
  pub lone : has_lone_bit (bit_gaps true (frames bytes)) ≡ true
  pub exact : IsExact F (suc v) (bit_gaps true (frames bytes))
  pub clear : IsClear (fl.div (fl.of_ℕ samplerate_hz) (fl.of_ℕ (suc v))) baud
  pub nonzero : 0 < baud
  pub fits : Fits F samplerate_hz baud (suc v)

-- Where the bytes are readable, the decoder, at the baud that is inferred from the line, gives exactly one event for each byte
-- of the line, in order, with the byte's value and no framing error. The order of floats is transitive and irreflexive, and
-- the array operations have their laws.
pub decode-infer_uart :
    (F : Type 0) ⦃fl : Float F⦄ ⦃np : Numpy⦄ ⦃st : Statistics F⦄
    → LtIsTransitive F
    → LtIsIrreflexive F
    → NumpyLaws np
    → (samplerate_hz baud v idle : ℕ) (bytes : List (List Bool))
    → IsReadable F samplerate_hz baud v bytes
    → decode
        (capture_of {F = F} samplerate_hz (line_with idle v bytes))
        (uart_on (infer_uart {F = F} (line_with idle v bytes) samplerate_hz).baud)
      ≡ ok (received (suc v) (suc idle) bytes)
decode-infer_uart F trans irreflexive laws samplerate_hz baud v idle bytes readable =
    let inferred : (infer_uart {F = F} (line_with idle v bytes) samplerate_hz).baud ≡ baud =
      ap (λ line. (infer_uart {F = F} line samplerate_hz).baud) (line_with-line_of idle v bytes)
      ∙ infer_uart-line trans irreflexive laws idle v samplerate_hz baud (frames bytes)
          readable.lone readable.exact readable.clear in
    ap (λ b. decode (capture_of {F = F} samplerate_hz (line_with idle v bytes)) (uart_on b))
      inferred
    ∙ decode-transmit F samplerate_hz baud (suc v) (suc idle) bytes readable.octets (omega arith)
        readable.nonzero readable.fits
