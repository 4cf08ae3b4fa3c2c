-- ===== src/Decode/FromMeasure.antt =====
-- src/slidko/decode/from_measure.py: from a claim of Measure to a hypothesis for Decode, with no
-- parameters given by hand.
use slidko.Prelude.{
  ℕ, ◌+◌, String, Bool, Option, none, some, List, [], ◌∷◌, ◌++◌, if◌then◌else◌, codes, codes_eq,
  lower, lookup, Float,
}
use slidko.Result.{Result, ok, err, ◌>>=◌, require, value_error}
use slidko.Decode.Backend.{Value, ProtocolHypothesis, null, int, float, text}
use slidko.Measure.Classify.{Claim}
pub mod Laws

abbrev pub claims : {F : Type 0} → String → Claim F → Bool
claims name claim = codes_eq (lower claim.protocol) (codes name)

-- `d.get(k, default)`
abbrev pub get {ℓ} : {V : Type ℓ} → String → V → List (String × V) → V
get k default d = elim (lookup k d) [ none ↦ default | some v ↦ v ]

-- A channel that may be `None`, as a value and as an entry.
abbrev channel_value : {F : Type 0} → Option String → Value F
channel_value none = null
channel_value (some name) = text name

abbrev entry_if : String → Option String → List (String × String)
entry_if role none = []
entry_if role (some name) = (role, name) ∷ []

abbrev spi_default_wordsize : ℕ
spi_default_wordsize = 8

module _ {F : Type 0} ⦃fl : Float F⦄ where
  unfoldable pub uart_hypothesis : Claim F → Result (ProtocolHypothesis F)
  uart_hypothesis claim = do
    rx_channel ← require "rx" claim.channels
    baud ← require "baud" claim.parameters
    ok (record {
      protocol = "uart";
      parameters =
          ("baud", baud)
          ∷ ("data_bits", get "data_bits" (int 8) claim.parameters)
          ∷ ("parity", get "parity" (text "none") claim.parameters)
          ∷ ("stop_bits", get "stop_bits" (float (fl.decimal 10 1)) claim.parameters)
          ∷ ("rx_channel", text rx_channel)
          ∷ [];
      channel_assignments = ("rx", rx_channel) ∷ [];
    })

  unfoldable pub i2c_hypothesis : Claim F → Result (ProtocolHypothesis F)
  i2c_hypothesis claim = do
    scl_channel ← require "scl" claim.channels
    sda_channel ← require "sda" claim.channels
    ok (record {
      protocol = "i2c";
      parameters = ("scl_channel", text scl_channel) ∷ ("sda_channel", text sda_channel) ∷ [];
      channel_assignments = ("scl", scl_channel) ∷ ("sda", sda_channel) ∷ [];
    })

  unfoldable pub spi_hypothesis : Claim F → Result (ProtocolHypothesis F)
  spi_hypothesis claim = do
    clk_channel ← require "clk" claim.channels
    let mosi_channel = lookup "data" claim.channels
    let cs_channel = lookup "cs" claim.channels
    ok (record {
      protocol = "spi";
      parameters =
          ("clk", text clk_channel)
          ∷ ("mosi", channel_value mosi_channel)
          ∷ ("miso", null)
          ∷ ("cs", channel_value cs_channel)
          ∷ ("cpol", get "cpol" (int 0) claim.parameters)
          ∷ ("cpha", get "cpha" (int 0) claim.parameters)
          ∷ ("wordsize", int spi_default_wordsize)
          ∷ [];
      channel_assignments =
          ("clk", clk_channel) ∷ (entry_if "mosi" mosi_channel ++ entry_if "cs" cs_channel);
    })

  unfoldable pub hypothesis_from_claim : Claim F → Result (ProtocolHypothesis F)
  hypothesis_from_claim claim =
      if claims "uart" claim
      then uart_hypothesis claim
      else if claims "i2c" claim
      then i2c_hypothesis claim
      else if claims "spi" claim
      then spi_hypothesis claim
      else err (value_error claim.protocol)
