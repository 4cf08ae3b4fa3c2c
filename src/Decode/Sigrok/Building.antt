-- ===== src/Decode/Sigrok/Building.antt =====
-- From the samples to sigrok-cli: the claims of the classifier (src/slidko/measure/classify.py), as the hypotheses of
-- src/slidko/decode/from_measure.py, are decoded with no parameter missing.
use slidko.Prelude.{
  ℕ, String, ◌≡◌, refl, sym, ap, ◌∙◌, true, false, none, some, List, str_eq, if◌then◌else◌, All,
  lower, Float,
}
use slidko.Result.{Result, Holds, ok, err, ◌>>=◌, ok-injective}
use slidko.Numpy.{Numpy, Statistics}
use slidko.Capture.{Capture}
use slidko.Capture.SrFile.{Archive, write_sr}
use slidko.Decode.Backend.{ProtocolHypothesis}
use slidko.Decode.Events.{DecodedEvent}
use slidko.Decode.FromMeasure.{
  hypothesis_from_claim, uart_hypothesis, i2c_hypothesis, spi_hypothesis,
}
use slidko.Decode.Sigrok.{
  run_sigrok, build_uart_args, build_i2c_args, build_spi_args, format_stop_bits, decoded_lines,
  decode,
}
use slidko.Decode.Sigrok.Lines.{parse_uart_output, parse_i2c_output, parse_spi_output}
use slidko.Measure.Single.Laws.{IsKept}
use slidko.Measure.Classify.{Claim, Channels, SpiClaim, I2cClaim, triple_claim, pair_claim}
use slidko.Measure.Whole.{classify_capture}
use slidko.Measure.Whole.Adapts.{if-found, classify_capture-All}

-- The parser of a protocol's lines.
abbrev pub parser : String → List String → Result (List DecodedEvent)
parser protocol =
    if str_eq protocol "uart"
    then (λ lines. ok (parse_uart_output lines))
    else if str_eq protocol "i2c"
    then parse_i2c_output
    else (λ lines. ok (parse_spi_output lines))

module _ {F : Type 0} ⦃fl : Float F⦄ (run : Archive → List String → Result (List String))
    (sr_path : String) (capture : Capture F) (archive : Archive) where
  -- Decoding a hypothesis runs sigrok-cli on the capture with some arguments, and parses the lines of its protocol.
  unfoldable pub IsDecoded : ProtocolHypothesis F → Type 0
  IsDecoded h =
      (args : List String) × (decode run sr_path capture h
        ≡ (run_sigrok run archive args >>= parser h.protocol))

  -- The hypothesis of a claim, if it has one, is decoded so.
  unfoldable pub Decodes : Claim F → Type 0
  Decodes claim = (h : ProtocolHypothesis F) → hypothesis_from_claim claim ≡ ok h → IsDecoded h

  Decodes-from :
      (claim : Claim F) (r : Result (ProtocolHypothesis F))
      → hypothesis_from_claim claim ≡ r
      → Holds IsDecoded r
      → Decodes claim
  unfolding Decodes
  Decodes-from claim (err raised) is decoded h e = let no = sym is ∙ e in cc
  Decodes-from claim (ok g) is decoded h e =
      let same : g ≡ h = ok-injective g h (sym is ∙ e) in rw (← same) decoded

  module _ (written : write_sr capture none ≡ ok archive) where
    decoded_lines-ok :
        (build_args : String → ProtocolHypothesis F → Result (List String))
        (h : ProtocolHypothesis F) (args : List String)
        → build_args sr_path h ≡ ok args
        → decoded_lines run sr_path build_args capture h ≡ run_sigrok run archive args
    unfolding decoded_lines
    decoded_lines-ok build_args h args e = rw (written, e) refl

    uart-IsDecoded :
        (h : ProtocolHypothesis F) (args : List String)
        → str_eq h.protocol "uart" ≡ true
        → build_uart_args sr_path h ≡ ok args
        → IsDecoded h
    unfolding decode IsDecoded
    uart-IsDecoded h args uart e = (
      args,
      rw uart (
          ap (λ r. r >>= (λ lines. ok (parse_uart_output lines)))
            (decoded_lines-ok build_uart_args h args e)),
    )

    i2c-IsDecoded :
        (h : ProtocolHypothesis F) (args : List String)
        → str_eq h.protocol "uart" ≡ false
        → str_eq h.protocol "i2c" ≡ true
        → build_i2c_args sr_path h ≡ ok args
        → IsDecoded h
    unfolding decode IsDecoded
    i2c-IsDecoded h args uart i2c e = (
      args,
      rw (uart, i2c) (ap (λ r. r >>= parse_i2c_output) (decoded_lines-ok build_i2c_args h args e)),
    )

    spi-IsDecoded :
        (h : ProtocolHypothesis F) (args : List String)
        → str_eq h.protocol "uart" ≡ false
        → str_eq h.protocol "i2c" ≡ false
        → str_eq h.protocol "spi" ≡ true
        → build_spi_args sr_path h ≡ ok args
        → IsDecoded h
    unfolding decode IsDecoded
    spi-IsDecoded h args uart i2c spi e = (
      args,
      rw (uart, i2c, spi)
          (ap (λ r. r >>= (λ lines. ok (parse_spi_output lines)))
            (decoded_lines-ok build_spi_args h args e)),
    )

    Decodes-IsKept : (name : String) → IsKept {F = F} Decodes name
    unfolding hypothesis_from_claim uart_hypothesis lower build_uart_args format_stop_bits
    Decodes-IsKept name = record {
      uart =
          λ c baud data_bits parity stop_bits. Decodes-from _ _ refl (uart-IsDecoded _ _ refl refl);
      ws2812 = λ c. Decodes-from _ _ refl tt;
      pwm = λ c. Decodes-from _ _ refl tt;
      dshot = λ c rate. Decodes-from _ _ refl tt;
      can = λ c bitrate. Decodes-from _ _ refl tt;
      video = λ c. Decodes-from _ _ refl tt;
    }

    triple_Decodes :
        (s : SpiClaim F) (claim : Claim F) → triple_claim s ≡ some claim → Decodes claim
    unfolding triple_claim hypothesis_from_claim spi_hypothesis lower build_spi_args
    triple_Decodes s claim e =
        if-found Decodes _ _ claim e (Decodes-from _ _ refl (spi-IsDecoded _ _ refl refl refl refl))

    pair_Decodes : (s : I2cClaim F) (claim : Claim F) → pair_claim s ≡ some claim → Decodes claim
    unfolding pair_claim hypothesis_from_claim i2c_hypothesis lower build_i2c_args
    pair_Decodes s claim e =
        if-found Decodes _ _ claim e (Decodes-from _ _ refl (i2c-IsDecoded _ _ refl refl refl))

    -- The hypothesis of each claim of the classifier that has one is decoded: sigrok-cli is run on the written capture
    -- with arguments that are built without a missing key, and the result is what it prints, parsed by the protocol's
    -- parser, or its failure. The capture can be written.
    pub classify_capture-Decodes :
        ⦃np : Numpy⦄ ⦃st : Statistics F⦄ (channels : Channels) (samplerate_hz : ℕ)
        → All Decodes (classify_capture channels samplerate_hz)
    classify_capture-Decodes =
        classify_capture-All F Decodes triple_Decodes pair_Decodes Decodes-IsKept
