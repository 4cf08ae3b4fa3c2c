-- ===== src/Measure/Single.antt =====
-- src/slidko/measure/classify.py, `_classify_single_channel`: the best protocol for one channel.
use slidko.Prelude.{
  ℕ, ◌+◌, String, Bool, ◌&&◌, Option, none, some, List, [], ◌∷◌, ◌++◌, ltb, if◌then◌else◌, Float,
}
use slidko.Numpy.{Numpy, Statistics}
use slidko.Decode.Backend.{Value, int, float, text}
use slidko.Measure.Best.{max_by}
use slidko.Measure.Edges.{Channel}
use slidko.Measure.Uart.{BaudEstimate, infer_uart}
use slidko.Measure.Dshot.{Rate, rate_number, recognize_rate}
use slidko.Measure.Recognize.{recognize_ws2812, recognize_pwm, recognize_can, recognize_video}
use slidko.Measure.Classify.{Claim}
pub mod Laws

module _ {F : Type 0} ⦃fl : Float F⦄ where
  abbrev single_channel_threshold : F
  single_channel_threshold = fl.decimal 5 1

  abbrev pub claim_of : String → String → String → F → List (String × Value F) → Claim F
  claim_of protocol role name confidence parameters = record {
    protocol = protocol;
    channels = (role, name) ∷ [];
    confidence = confidence;
    parameters = parameters;
  }

  abbrev pub claim_if : Bool → Claim F → List (Claim F)
  claim_if recognized claim = if recognized then claim ∷ [] else []

  abbrev pub uart_claim : String → BaudEstimate F → List (Claim F)
  uart_claim name estimate =
      claim_if (ltb 0 estimate.baud && fl.le single_channel_threshold estimate.confidence) (
        claim_of "UART" "rx" name estimate.confidence (
          ("baud", int estimate.baud)
          ∷ ("data_bits", int estimate.frame.data_bits)
          ∷ ("parity", text estimate.frame.parity)
          ∷ ("stop_bits", float estimate.frame.stop_bits)
          ∷ []))

  abbrev pub dshot_claim : String → Option Rate × F → List (Claim F)
  dshot_claim name (none, confidence) = []
  dshot_claim name (some rate, confidence) =
      claim_if (fl.le single_channel_threshold confidence)
        (claim_of "DShot" "dshot" name confidence (("rate", int (rate_number rate)) ∷ []))

  abbrev bitrate_value : Option ℕ → Value F
  bitrate_value none = Value.null
  bitrate_value (some bitrate) = int bitrate

  abbrev pub can_claim : String → Bool × F × Option ℕ → List (Claim F)
  can_claim name (recognized, confidence, bitrate) =
      claim_if recognized
        (claim_of "CAN" "can" name confidence (("bitrate", bitrate_value bitrate) ∷ []))

  -- A protocol that is recognised without parameters.
  abbrev pub plain_claim : String → String → String → Bool × F → List (Claim F)
  plain_claim protocol role name (recognized, confidence) =
      claim_if recognized (claim_of protocol role name confidence [])

  abbrev pub best_candidate : List (Claim F) → Option (Claim F)
  best_candidate [] = none
  best_candidate (c ∷ candidates) = some (max_by (λ (d : Claim F). d.confidence) c candidates)

  module _ ⦃np : Numpy⦄ ⦃st : Statistics F⦄ where
    unfoldable pub candidates : String → Channel → ℕ → List (Claim F)
    candidates name channel samplerate_hz =
        uart_claim name (infer_uart channel samplerate_hz)
        ++ (plain_claim "WS2812" "din" name (recognize_ws2812 channel samplerate_hz)
            ++ (plain_claim "PWM" "pwm" name (recognize_pwm channel samplerate_hz)
                ++ (dshot_claim name (recognize_rate channel samplerate_hz)
                    ++ (can_claim name (recognize_can channel samplerate_hz)
                        ++ plain_claim "AnalogVideo" "video" name
                            (recognize_video channel samplerate_hz)))))

    unfoldable pub classify_single_channel : ℕ → String → Channel → Option (Claim F)
    unfolding candidates
    classify_single_channel samplerate_hz name channel =
        best_candidate (candidates name channel samplerate_hz)
