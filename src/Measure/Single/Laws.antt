-- ===== src/Measure/Single/Laws.antt =====
-- What holds of every candidate for a channel.
use slidko.Prelude.{
  ℕ, String, ◌≡◌, Bool, Option, none, some, List, [], ◌∷◌, All, All-if, All-append, Float,
}
use slidko.Numpy.{Numpy, Statistics}
use slidko.Decode.Backend.{Value, int, float, text}
use slidko.Measure.Best.{max_by, max_by-All}
use slidko.Measure.Edges.{Channel}
use slidko.Measure.Uart.{BaudEstimate, infer_uart}
use slidko.Measure.Dshot.{Rate, recognize_rate}
use slidko.Measure.Recognize.{recognize_ws2812, recognize_pwm, recognize_can}
use slidko.Measure.Classify.{Claim}
use slidko.Measure.Single.{
  claim_of, claim_if, uart_claim, dshot_claim, can_claim, plain_claim, best_candidate, candidates,
  classify_single_channel,
}

module _ {F : Type 0} ⦃fl : Float F⦄ (P : Claim F → Type 0) where
  -- What must hold of each protocol's claim about the channel `name`.
  pub record IsKept (name : String) : Type 0 where
    pub uart :
        (c : F) (baud data_bits : ℕ) (parity : String) (stop_bits : F)
        → P (
            claim_of "UART" "rx" name c (
              ("baud", int baud)
              ∷ ("data_bits", int data_bits)
              ∷ ("parity", text parity)
              ∷ ("stop_bits", float stop_bits)
              ∷ []))
    pub ws2812 : (c : F) → P (claim_of "WS2812" "din" name c [])
    pub pwm : (c : F) → P (claim_of "PWM" "pwm" name c [])
    pub dshot : (c : F) (rate : Value F) → P (claim_of "DShot" "dshot" name c (("rate", rate) ∷ []))
    pub can :
        (c : F) (bitrate : Value F) → P (claim_of "CAN" "can" name c (("bitrate", bitrate) ∷ []))
    pub video : (c : F) → P (claim_of "AnalogVideo" "video" name c [])

  claim_if-All : (b : Bool) (claim : Claim F) → P claim → All P (claim_if b claim)
  claim_if-All b claim p = All-if P b (claim ∷ []) [] (p, tt) tt

  dshot_claim-All :
      (name : String) (found : Option Rate × F)
      → ((c : F) (rate : Value F) → P (claim_of "DShot" "dshot" name c (("rate", rate) ∷ [])))
      → All P (dshot_claim name found)
  dshot_claim-All name (none, c) h = tt
  dshot_claim-All name (some rate, c) h = claim_if-All _ _ (h c _)

  best_candidate-found :
      (cs : List (Claim F)) {claim : Claim F} → All P cs → best_candidate cs ≡ some claim → P claim
  best_candidate-found [] h e = cc
  best_candidate-found (c ∷ cs) {claim} (h, hs) e =
      let best = max_by-All (λ (d : Claim F). d.confidence) P c cs h hs in
      let same : max_by (λ (d : Claim F). d.confidence) c cs ≡ claim = cc in rw same at best

  module _ ⦃np : Numpy⦄ ⦃st : Statistics F⦄ where
    candidates-All :
        (name : String) (channel : Channel) (rate : ℕ)
        → IsKept name
        → All P (candidates name channel rate)
    unfolding candidates
    candidates-All name channel rate kept =
        let estimate : BaudEstimate F = infer_uart channel rate in
        All-append P (uart_claim name estimate) _
          (claim_if-All _ _ (kept.uart estimate.confidence _ _ _ _))
          (All-append P (plain_claim "WS2812" "din" name (recognize_ws2812 channel rate)) _
            (claim_if-All _ _ (kept.ws2812 _))
            (All-append P (plain_claim "PWM" "pwm" name (recognize_pwm channel rate)) _
              (claim_if-All _ _ (kept.pwm _))
              (All-append P (dshot_claim name (recognize_rate channel rate)) _
                (dshot_claim-All name (recognize_rate channel rate) kept.dshot)
                (All-append P (can_claim name (recognize_can channel rate)) _
                  (claim_if-All _ _ (kept.can _ _)) (claim_if-All _ _ (kept.video _))))))

    pub classify_single_channel-found :
        (rate : ℕ) (name : String) (channel : Channel) {claim : Claim F}
        → IsKept name
        → classify_single_channel rate name channel ≡ some claim
        → P claim
    unfolding classify_single_channel
    classify_single_channel-found rate name channel kept e =
        best_candidate-found _ (candidates-All name channel rate kept) e
