-- ===== src/Examples/Classifying.antt =====
-- Concrete inputs for the classifier.
use slidko.Prelude.{String, ◌≡◌, refl, Option, some, List, [], ◌∷◌, map, str_eq, if◌then◌else◌}
use slidko.Prelude.Ratio.{Ratio, ratio, ratio_float}
use slidko.Measure.Edges.{Channel}
use slidko.Measure.Classify.{
  Claim, I2cClaim, SpiClaim, Channels, classify, greedy, best_of, combinations, without, improve,
  triple_claim, pair_claim, singles,
}
use slidko.Measure.Classify.Refines.{IsClassification, classify-IsClassification}
use slidko.Examples.Discriminators.{ratio-LtIsTransitive, ratio-LtIsIrreflexive}

abbrev spi : String → String → String → SpiClaim Ratio
spi clk cs dat = record {
  clock_channel = clk;
  cs_channel = cs;
  data_channel = dat;
  cpol = 0;
  cpha = 1;
  confidence = ratio (if str_eq clk "D1" then 8 else 3) 10;
  cpha_confidence = ratio 1 1;
}

-- The first channel is the clock, if there are three.
abbrev classify_spi : Channels → SpiClaim Ratio
classify_spi (a ∷ b ∷ c ∷ []) = spi a.0 b.0 c.0
classify_spi _ = spi "" "" ""

abbrev i2c : String → String → I2cClaim Ratio
i2c scl sda = record {
  scl_channel = scl;
  sda_channel = sda;
  start_count = 1;
  stop_count = 1;
  confidence = ratio 9 10;
}

abbrev classify_i2c : Channels → I2cClaim Ratio
classify_i2c (a ∷ b ∷ []) = i2c a.0 b.0
classify_i2c _ = i2c "" ""

abbrev pwm : String → Claim Ratio
pwm name = record {
  protocol = "PWM";
  channels = ("pwm", name) ∷ [];
  confidence = ratio 1 1;
  parameters = [];
}

abbrev classify_single : String → Channel → Option (Claim Ratio)
classify_single name channel = some (pwm name)

abbrev six : Channels
six = ("D0", []) ∷ ("D1", []) ∷ ("D2", []) ∷ ("D3", []) ∷ ("D4", []) ∷ ("D5", []) ∷ []

-- The best group of three, then a pair, then the last channel alone.
classify_runs :
    map {B = String × List String}
      (λ c. (c.protocol, map (λ e. e.1) c.channels))
      (classify classify_spi classify_i2c classify_single six)
    ≡ ("SPI", "D1" ∷ "D2" ∷ "D3" ∷ []) ∷ ("I2C", "D0" ∷ "D4" ∷ []) ∷ ("PWM", "D5" ∷ []) ∷ []
unfolding classify greedy best_of combinations without improve triple_claim pair_claim singles
classify_runs = refl

classify-IsClassification_example :
    IsClassification
      (λ g. triple_claim (classify_spi g))
      (λ g. pair_claim (classify_i2c g))
      classify_single
      six
      (classify classify_spi classify_i2c classify_single six)
classify-IsClassification_example =
    classify-IsClassification ratio-LtIsTransitive ratio-LtIsIrreflexive classify_spi classify_i2c
      classify_single six
