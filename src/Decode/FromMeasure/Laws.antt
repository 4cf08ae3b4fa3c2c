-- ===== src/Decode/FromMeasure/Laws.antt =====
-- What the smoke detector makes of an adapted claim.
use slidko.Prelude.{
  String, ◌≡◌, refl, true, Option, none, some, List, [], ◌∷◌, if◌then◌else◌, All, All-if, lower,
  is_empty, lookup, Float,
}
use slidko.Result.{
  key_error, Result, ok, err, require, Holds, Holds-bind, Holds-if, Holds-any, Holds-ok,
}
use slidko.Decode.Backend.{ProtocolHypothesis}
use slidko.Measure.Classify.{Claim}
use slidko.Measure.Smoke.Run.{chatter_eligible_channels}
use slidko.Decode.FromMeasure.{
  claims, uart_hypothesis, i2c_hypothesis, spi_hypothesis, hypothesis_from_claim,
}

-- A channel with the clock-like role of the claim's protocol.
pub data IsClock {F : Type 0} (claim : Claim F) (channel : String) : Type 0 where
  rx :
      claims "uart" claim ≡ true → lookup "rx" claim.channels ≡ some channel → IsClock claim channel
  scl :
      claims "i2c" claim ≡ true → lookup "scl" claim.channels ≡ some channel → IsClock claim channel
  clk :
      claims "spi" claim ≡ true → lookup "clk" claim.channels ≡ some channel → IsClock claim channel

require-Holds :
    {V : Type 0} (k : String) (d : List (String × V))
    → Holds (λ v. lookup k d ≡ some v) (require k d)
require-Holds {V = V} k d = found (lookup k d)
  where
    found :
        (o : Option V)
        → Holds
            (λ v. o ≡ some v)
            (elim o as (λ x. Result V) [ none ↦ err (key_error k) | some v ↦ ok v ])
    found none = tt
    found (some v) = refl

module _ {F : Type 0} ⦃fl : Float F⦄ (claim : Claim F) where
  abbrev Good : ProtocolHypothesis F → Type 0
  Good h = All (IsClock claim) (chatter_eligible_channels h)

  only :
      (channel : String)
      → IsClock claim channel
      → All (IsClock claim) (if is_empty channel then [] else channel ∷ [])
  only channel c = All-if _ (is_empty channel) _ _ tt (c, tt)

  uart-Good : claims "uart" claim ≡ true → Holds Good (uart_hypothesis claim)
  unfolding uart_hypothesis chatter_eligible_channels lower
  uart-Good is_uart = Holds-bind _ Good _ _ (require-Holds "rx" claim.channels) (λ name found.
      Holds-bind (λ _. Unit {0}) Good (require "baud" claim.parameters) _
        (Holds-any (require "baud" claim.parameters))
        (λ baud _. only name (IsClock.rx is_uart found)))

  i2c-Good : claims "i2c" claim ≡ true → Holds Good (i2c_hypothesis claim)
  unfolding i2c_hypothesis chatter_eligible_channels lower
  i2c-Good is_i2c = Holds-bind _ Good _ _ (require-Holds "scl" claim.channels) (λ name found.
      Holds-bind (λ _. Unit {0}) Good (require "sda" claim.channels) _
        (Holds-any (require "sda" claim.channels)) (λ sda _. only name (IsClock.scl is_i2c found)))

  spi-Good : claims "spi" claim ≡ true → Holds Good (spi_hypothesis claim)
  unfolding spi_hypothesis chatter_eligible_channels lower
  spi-Good is_spi =
      Holds-bind _ Good _ _ (require-Holds "clk" claim.channels)
        (λ name found. only name (IsClock.clk is_spi found))

  -- Where a claim is adapted to a hypothesis, the channels that the smoke detector checks for
  -- chatter have the clock-like role of the claim's protocol: RX for UART, SCL for I2C, CLK for SPI.
  pub hypothesis_from_claim-IsClock :
      {h : ProtocolHypothesis F}
      → hypothesis_from_claim claim ≡ ok h
      → All (IsClock claim) (chatter_eligible_channels h)
  unfolding hypothesis_from_claim
  hypothesis_from_claim-IsClock e = Holds-ok Good (hypothesis_from_claim claim) whole e
    where
      whole : Holds Good (hypothesis_from_claim claim)
      whole = Holds-if Good (claims "uart" claim) _ _ uart-Good (λ _.
          Holds-if Good (claims "i2c" claim) _ _ i2c-Good
            (λ _. Holds-if Good (claims "spi" claim) _ _ spi-Good (λ _. tt)))
