-- ===== src/Examples/Decoding.antt =====
-- Concrete inputs for the UART decoder.
use slidko.Prelude.{
  ℕ, zero, suc, ◌<◌, ◌≡◌, refl, Bool, true, false, none, List, [], ◌∷◌, ◌++◌, arith, replicate,
}
use slidko.Prelude.Ratio.{Ratio, ratio, ratio_float}
use slidko.Result.{ok}
use slidko.Decode.Events.{Payload, DecodedEvent}
use slidko.Decode.NativeUart.{
  uart_byte, center_offset, frame_samples, bit_center, read_bits, decode_uart_byte, decode_at,
  decode_loop, is_8n1, bit_period, decode,
}
use slidko.Decode.NativeUart.Frame.{wave, frame, IsCentered}
use slidko.Decode.NativeUart.Scan.{transmit, received}
use slidko.Decode.NativeUart.Transmit.{capture_of, uart_on, decode-transmit}
use slidko.Decode.NativeUart.Stream.{IsStream, decode_loop-IsStream}

-- What holds of each number below a bound.
abbrev Below : (ℕ → Type 0) → ℕ → Type 0
Below P zero = Unit
Below P (suc n) = P 0 × Below (λ k. P (suc k)) n

below : (P : ℕ → Type 0) (n : ℕ) → Below P n → (k : ℕ) → k < n → P k
below P zero h k lt = let impossible : ⊥ = omega arith in absurd impossible
below P (suc n) h zero lt = h.0
below P (suc n) h (suc k) lt = below (λ j. P (suc j)) n h.1 k (omega arith)

-- Four samples for each bit.
abbrev four : Ratio
four = ratio 4 1

pub four-IsCentered : IsCentered 4 (center_offset four) 10
four-IsCentered = below _ 10 (
  (omega arith, omega arith),
  (
    (omega arith, omega arith),
    (
      (omega arith, omega arith),
      (
        (omega arith, omega arith),
        (
          (omega arith, omega arith),
          (
            (omega arith, omega arith),
            (
              (omega arith, omega arith),
              (
                (omega arith, omega arith),
                ((omega arith, omega arith), ((omega arith, omega arith), tt)),
              ),
            ),
          ),
        ),
      ),
    ),
  ),
)

abbrev pub five : List Bool
five = true ∷ false ∷ true ∷ false ∷ false ∷ false ∷ false ∷ false ∷ []

abbrev pub letter : List Bool
letter = true ∷ false ∷ false ∷ false ∷ false ∷ false ∷ true ∷ false ∷ []

decode-transmit_example :
    decode
      (capture_of {F = Ratio} 4 (replicate 3 true ++ transmit 4 (letter ∷ five ∷ [])))
      (uart_on 1)
    ≡ ok (received 4 3 (letter ∷ five ∷ []))
decode-transmit_example =
    decode-transmit Ratio 4 1 4 3 (letter ∷ five ∷ []) (refl, (refl, tt)) (omega arith)
      (omega arith) (refl, four-IsCentered, refl)

-- The letter A, as the library's user sees it.
decode-letter :
    decode (capture_of {F = Ratio} 4 (replicate 3 true ++ transmit 4 (letter ∷ []))) (uart_on 1)
    ≡ ok (
        record {
          kind = "uart.byte";
          start_sample = 3;
          end_sample = 42;
          payload =
              ("value", Payload.int 65)
              ∷ ("ascii", Payload.text "A")
              ∷ ("framing_error", Payload.flag false)
              ∷ [];
          channel = none;
        }
        ∷ [])
unfolding decode is_8n1 bit_period decode_loop decode_at decode_uart_byte bit_center read_bits
    transmit wave frame
decode-letter = refl

-- One sample for each bit, which the guard accepts: the sample points are rounded into the wrong
-- bits.
decode-one_sample :
    decode
      (capture_of {F = Ratio} 1
        (replicate 3 true ++ (transmit 1 (letter ∷ []) ++ replicate 3 true)))
      (uart_on 1)
    ≡ ok (uart_byte 3 0 12 true ∷ [])
unfolding decode is_8n1 bit_period decode_loop decode_at decode_uart_byte bit_center read_bits
    transmit wave frame
decode-one_sample = refl

decode_loop-IsStream_example :
    (events : List DecodedEvent) × (decode_loop (true ∷ false ∷ true ∷ []) four 8 3 1 ≡ ok events)
    × (decode_loop (true ∷ false ∷ true ∷ []) four 8 4 1 ≡ ok events)
    × IsStream (true ∷ false ∷ true ∷ []) (frame_samples four 8) 1 events
decode_loop-IsStream_example =
    decode_loop-IsStream (true ∷ false ∷ true ∷ []) four
      (below _ 9 (
        omega arith,
        (
          omega arith,
          (
            omega arith,
            (
              omega arith,
              (omega arith, (omega arith, (omega arith, (omega arith, (omega arith, tt))))),
            ),
          ),
        ),
      ))
      (omega arith) 3 1 (omega arith)
