-- ===== src/Measure/Classify.antt =====
-- src/slidko/measure/classify.py: which protocols the channels of a capture may carry. The
-- discriminators are arguments; Measure/Whole gives the ones of the source.
use slidko.Prelude.{
  ℕ, zero, suc, ◌+◌, String, Option, none, some, List, [], ◌∷◌, ◌++◌, map, ltb, if◌then◌else◌,
  length, text_mem, Float,
}
use slidko.Measure.Edges.{Channel}
use slidko.Decode.Backend.{Value, int, float}
pub mod Names
pub mod Laws
pub mod Disjoint
pub mod Finished
pub mod Choice
pub mod Refines

-- A role whose channel is `None` is not in `channels`.
pub record Claim (F : Type 0) : Type 0 where
  pub protocol : String
  pub channels : List (String × String)
  pub confidence : F
  pub parameters : List (String × Value F)

-- The fields of `i2c.I2CClaim` and `spi.SPIClaim` that are read here.
pub record I2cClaim (F : Type 0) : Type 0 where
  pub scl_channel : String
  pub sda_channel : String
  pub start_count : ℕ
  pub stop_count : ℕ
  pub confidence : F

pub record SpiClaim (F : Type 0) : Type 0 where
  pub clock_channel : String
  pub cs_channel : String
  pub data_channel : String
  pub cpol : ℕ
  pub cpha : ℕ
  pub confidence : F
  pub cpha_confidence : F

abbrev pub Channels : Type 0
Channels = List (String × Channel)

abbrev pub names : Channels → List String
names channels = map (λ e. e.0) channels

-- `itertools.combinations`, in its order.
unfoldable pub combinations : ℕ → Channels → List Channels
combinations zero channels = [] ∷ []
combinations (suc n) [] = []
combinations (suc n) (c ∷ channels) =
    map (λ group. c ∷ group) (combinations n channels) ++ combinations (suc n) channels

-- `del remaining[n]` for each name of a group.
unfoldable pub without : List String → Channels → Channels
without used [] = []
without used (c ∷ channels) =
    let rest = without used channels in if text_mem c.0 used then rest else c ∷ rest

abbrev pub add_found {ℓ} : {A : Type ℓ} → Option A → List A → List A
add_found none rest = rest
add_found (some a) rest = a ∷ rest

unfoldable pub singles :
    {F : Type 0} → (String → Channel → Option (Claim F)) → Channels → List (Claim F)
singles find [] = []
singles find ((name, channel) ∷ channels) = add_found (find name channel) (singles find channels)

module _ {F : Type 0} ⦃fl : Float F⦄ where
  -- 0.4
  abbrev multi_channel_threshold : F
  multi_channel_threshold = fl.decimal 4 1

  unfoldable pub pair_claim : I2cClaim F → Option (Claim F)
  pair_claim claim =
      if fl.lt claim.confidence multi_channel_threshold
      then none
      else some (record {
        protocol = "I2C";
        channels = ("scl", claim.scl_channel) ∷ ("sda", claim.sda_channel) ∷ [];
        confidence = claim.confidence;
        parameters =
            ("start_count", int claim.start_count) ∷ ("stop_count", int claim.stop_count) ∷ [];
      })

  unfoldable pub triple_claim : SpiClaim F → Option (Claim F)
  triple_claim claim =
      if fl.lt claim.confidence multi_channel_threshold
      then none
      else some (record {
        protocol = "SPI";
        channels =
            ("clk", claim.clock_channel)
            ∷ ("cs", claim.cs_channel)
            ∷ ("data", claim.data_channel)
            ∷ [];
        confidence = claim.confidence;
        parameters =
            ("cpol", int claim.cpol)
            ∷ ("cpha", int claim.cpha)
            ∷ ("cpha_confidence", float claim.cpha_confidence)
            ∷ [];
      })

  -- The `if` in the loop over the groups.
  unfoldable pub improve :
      Option (Claim F × Channels) → Option (Claim F) → Channels → Option (Claim F × Channels)
  improve best none group = best
  improve none (some claim) group = some (claim, group)
  improve (some (best, best_group)) (some claim) group =
      if fl.lt best.confidence claim.confidence
      then some (claim, group)
      else some (best, best_group)

  unfoldable pub best_of :
      (Channels → Option (Claim F))
      → Option (Claim F × Channels)
      → List Channels
      → Option (Claim F × Channels)
  best_of find best [] = best
  best_of find best (group ∷ groups) = best_of find (improve best (find group) group) groups

  -- A `while len(remaining) >= size`: each turn takes a group away, so that the number of channels
  -- is enough fuel.
  unfoldable pub greedy :
      (Channels → Option (Claim F)) → ℕ → ℕ → Channels → List (Claim F) × Channels
  greedy find size zero remaining = ([], remaining)
  greedy find size (suc fuel) remaining =
      if ltb (length remaining) size
      then ([], remaining)
      else elim (best_of find none (combinations size remaining)) [
        | none ↦ ([], remaining)
        | some (claim, group) ↦
            let (claims, left) = greedy find size fuel (without (names group) remaining) in
            (claim ∷ claims, left)
      ]

  unfoldable pub classify :
      (Channels → SpiClaim F)
      → (Channels → I2cClaim F)
      → (String → Channel → Option (Claim F))
      → Channels
      → List (Claim F)
  classify classify_spi classify_i2c classify_single channels =
      let (triples, after) =
        greedy (λ g. triple_claim (classify_spi g)) 3 (length channels) channels in
      let (pairs, left) = greedy (λ g. pair_claim (classify_i2c g)) 2 (length after) after in
      triples ++ (pairs ++ singles classify_single left)
