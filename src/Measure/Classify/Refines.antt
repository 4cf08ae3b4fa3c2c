-- ===== src/Measure/Classify/Refines.antt =====
-- What a classification is, without the loops that find it: groups of channels are taken one after the other, each with a
-- claim that no other group's claim is above, until no group that is left has a claim.
use slidko.Prelude.{
  ℕ, zero, suc, ◌≤◌, ◌<◌, String, ◌≡◌, refl, inl, inr, false, Option, none, some, List, [], ◌∷◌,
  ◌++◌, arith, ltb, tests, Bool-cases, length, All, Float,
}
use slidko.Measure.Best.{LtIsTransitive, LtIsIrreflexive}
use slidko.Measure.Edges.{Channel}
use slidko.Measure.Classify.{
  Claim, SpiClaim, I2cClaim, Channels, names, combinations, without, best_of, greedy, classify,
  singles, triple_claim, pair_claim,
}
use slidko.Measure.Classify.Names.{IsGroup, combinations-IsGroup}
use slidko.Measure.Classify.Choice.{
  IsMember, All-IsMember, IsNotUnder, IsAbove, IsFound, best_of-IsAbove, best_of-IsFound,
}
use slidko.Measure.Classify.Finished.{
  IsFinished, IsOneOf, best_of-IsOneOf, best_of-none, group_is_used,
}

module _ {F : Type 0} ⦃fl : Float F⦄ where
  module _ (find : Channels → Option (Claim F)) (size : ℕ) where
    -- The abstract run, from the channels to the claims and the channels that are left.
    pub data Takes : Channels → List (Claim F) → Channels → Type 0 where
      stops : {remaining : Channels} → IsFinished find size remaining → Takes remaining [] remaining
      takes :
          {remaining left : Channels} {claims : List (Claim F)} (group : Channels) (claim : Claim F)
          → IsMember group (combinations size remaining)
          → find group ≡ some claim
          → All (λ other. IsNotUnder claim (find other)) (combinations size remaining)
          → Takes (without (names group) remaining) claims left
          → Takes remaining (claim ∷ claims) left

module _ {F : Type 0} ⦃fl : Float F⦄ (find : Channels → Option (Claim F)) (size : ℕ) where
  -- A group of channels that is among the combinations of those that are left.
  abbrev IsChoice : Channels → Channels → Type 0
  IsChoice remaining group =
      IsMember group (combinations size remaining) × IsGroup size (names remaining) group

  both :
      (P Q : Channels → Type 0) (groups : List Channels)
      → All P groups
      → All Q groups
      → All (λ g. P g × Q g) groups
  both P Q [] p q = tt
  both P Q (g ∷ groups) (p, ps) (q, qs) = ((p, q), both P Q groups ps qs)

  turn-Takes :
      (fuel : ℕ) (remaining : Channels) (best : Option (Claim F × Channels))
      → 0 < size
      → length remaining ≤ suc fuel
      → ltb (length remaining) size ≡ false
      → best_of find none (combinations size remaining) ≡ best
      → IsOneOf find (IsChoice remaining) best
      → IsFound find best
      → All (λ other. IsAbove best (find other)) (combinations size remaining)
      → ((r : Channels)
          → length r ≤ fuel
          → let run = greedy find size fuel r in Takes find size r run.0 run.1)
      → let run = greedy find size (suc fuel) remaining in Takes find size remaining run.0 run.1
  unfolding greedy
  turn-Takes fuel remaining none some_size enough many e choice found above later =
      rw (many, e) (stops (inr (best_of-none find (combinations size remaining) e)))
  turn-Takes fuel remaining (some (claim, group)) some_size enough many e (member, is_group) found
        above later =
      let fewer = group_is_used size group remaining some_size is_group in
      rw (many, e)
        (takes group claim member found above
          (later (without (names group) remaining) (omega (arith, fewer, enough))))

  module _ (trans : LtIsTransitive F) (irreflexive : LtIsIrreflexive F) where
    pub greedy-Takes :
        (fuel : ℕ) (remaining : Channels)
        → 0 < size
        → length remaining ≤ fuel
        → let run = greedy find size fuel remaining in Takes find size remaining run.0 run.1
    unfolding greedy
    greedy-Takes zero remaining some_size enough = stops (inl (omega arith))
    greedy-Takes (suc fuel) remaining some_size enough =
        elim (Bool-cases (ltb (length remaining) size)) [
          | inl few ↦ rw few (stops (inl (omega tests)))
          | inr many ↦
              turn-Takes fuel remaining _ some_size enough many refl
                (best_of-IsOneOf find (IsChoice remaining) (combinations size remaining) none tt (
                  both _ _ _ (All-IsMember (combinations size remaining))
                    (combinations-IsGroup size remaining)))
                (best_of-IsFound find (combinations size remaining) none tt)
                (best_of-IsAbove trans irreflexive find (combinations size remaining) none)
                (λ r h. greedy-Takes fuel r some_size h)
        ]

-- What a classification is: claims of three channels are taken, then of two, and then one of each channel that is left.
pub record IsClassification {F : Type 0} ⦃fl : Float F⦄ (triple pair : Channels → Option (Claim F))
    (single : String → Channel → Option (Claim F)) (channels : Channels) (claims : List (Claim F))
    : Type 0 where
  pub triples : List (Claim F)
  pub pairs : List (Claim F)
  pub after : Channels
  pub left : Channels
  pub takes_triples : Takes triple 3 channels triples after
  pub takes_pairs : Takes pair 2 after pairs left
  pub all_claims : claims ≡ triples ++ (pairs ++ singles single left)

-- The loops refine that: with a `<` of floats that is transitive and irreflexive, what `classify` gives is a
-- classification of the channels, for all discriminators.
pub classify-IsClassification :
    {F : Type 0} ⦃fl : Float F⦄
    → LtIsTransitive F
    → LtIsIrreflexive F
    → (classify_spi : Channels → SpiClaim F) (classify_i2c : Channels → I2cClaim F)
      (classify_single : String → Channel → Option (Claim F)) (channels : Channels)
    → IsClassification
        (λ g. triple_claim (classify_spi g))
        (λ g. pair_claim (classify_i2c g))
        classify_single
        channels
        (classify classify_spi classify_i2c classify_single channels)
unfolding classify
classify-IsClassification trans irreflexive classify_spi classify_i2c classify_single channels =
    let triple = λ (g : Channels). triple_claim (classify_spi g) in
    let pair = λ (g : Channels). pair_claim (classify_i2c g) in
    let first = greedy triple 3 (length channels) channels in
    let second = greedy pair 2 (length first.1) first.1 in
    record {
      triples = first.0;
      pairs = second.0;
      after = first.1;
      left = second.1;
      takes_triples =
          greedy-Takes triple 3 trans irreflexive (length channels) channels (omega arith)
            (omega arith);
      takes_pairs =
          greedy-Takes pair 2 trans irreflexive (length first.1) first.1 (omega arith)
            (omega arith);
      all_claims = refl;
    }
