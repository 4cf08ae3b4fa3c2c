-- ===== src/Measure/Whole.antt =====
-- src/slidko/measure/classify.py: `classify` with the discriminators of the other modules.
use slidko.Prelude.{ℕ, ◌-◌, String, ◌≡◌, refl, List, [], ◌∷◌, Float}
use slidko.Result.{Result, ok}
use slidko.Numpy.{Numpy, Statistics}
use slidko.Measure.Edges.{Channel}
use slidko.Measure.I2c.Roles.{assign_pair, structure_claim, classify_i2c}
use slidko.Measure.Spi.{assign_three, mode_claim, classify_spi}
use slidko.Measure.Single.{classify_single_channel}
use slidko.Measure.Classify.{Claim, I2cClaim, SpiClaim, Channels, classify}
pub mod Laws
pub mod Adapts

module _ {F : Type 0} ⦃fl : Float F⦄ where
  -- For a group of another size, of which `classify` makes none.
  abbrev no_spi : SpiClaim F
  no_spi = record {
    clock_channel = "";
    cs_channel = "";
    data_channel = "";
    cpol = 0;
    cpha = 0;
    confidence = fl.of_ℕ 0;
    cpha_confidence = fl.of_ℕ 0;
  }

  abbrev no_i2c : I2cClaim F
  no_i2c = record {
    scl_channel = "";
    sda_channel = "";
    start_count = 0;
    stop_count = 0;
    confidence = fl.of_ℕ 0;
  }

  module _ ⦃np : Numpy⦄ ⦃st : Statistics F⦄ where
    abbrev pub spi_of : Channels → SpiClaim F
    spi_of (a ∷ b ∷ c ∷ []) = mode_claim (assign_three a b c)
    spi_of _ = no_spi

    abbrev pub i2c_of : Channels → I2cClaim F
    i2c_of (a ∷ b ∷ []) = structure_claim (assign_pair a b)
    i2c_of _ = no_i2c

    -- For the groups that `classify` makes, these are the discriminators, which do not raise.
    classify_spi-group :
        (a b c : String × Channel) → classify_spi (a ∷ b ∷ c ∷ []) ≡ ok (spi_of (a ∷ b ∷ c ∷ []))
    unfolding classify_spi
    classify_spi-group a b c = refl

    classify_i2c-group :
        (a b : String × Channel) → classify_i2c (a ∷ b ∷ []) ≡ ok (i2c_of (a ∷ b ∷ []))
    unfolding classify_i2c
    classify_i2c-group a b = refl

    unfoldable pub classify_capture : Channels → ℕ → List (Claim F)
    classify_capture channels samplerate_hz =
        classify spi_of i2c_of (classify_single_channel samplerate_hz) channels
