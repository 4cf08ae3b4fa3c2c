-- ===== src/Measure/Classify/Disjoint.antt =====
-- No channel in two claims, for the whole classifier.
use slidko.Prelude.{
  String, ◌≡◌, refl, ap, ◌∙◌, inl, inr, Bool, true, false, Option, none, some, List, [], ◌∷◌,
  str_eq, eq_iff, if◌then◌else◌, Bool-cases, length, All, All-map_imp, All-append, text_mem, Float,
}
use slidko.Measure.Edges.{Channel}
use slidko.Measure.Classify.{
  Claim, I2cClaim, SpiClaim, Channels, names, pair_claim, triple_claim, greedy, singles, add_found,
  classify,
}
use slidko.Measure.Classify.Names.{IsIn, IsSubset-later, IsSubset-both, AreDistinct}
use slidko.Measure.Classify.Laws.{
  IsWithin, Avoids, ArePairwiseApart, IsApart-All, ArePairwiseApart-append, IsWithin-IsSubset,
  IsLocal, greedy-IsShared,
}

-- A discriminator names channels of the group that it is given, which has the size that it asks for.
abbrev pub SpiIsLocal : {F : Type 0} → (Channels → SpiClaim F) → Type 0
SpiIsLocal classify_spi =
    (group : Channels)
    → length group ≡ 3
    → let claim = classify_spi group in
      IsIn (names group) claim.clock_channel
      × IsIn (names group) claim.cs_channel
      × IsIn (names group) claim.data_channel

abbrev pub I2cIsLocal : {F : Type 0} → (Channels → I2cClaim F) → Type 0
I2cIsLocal classify_i2c =
    (group : Channels)
    → length group ≡ 2
    → let claim = classify_i2c group in
      IsIn (names group) claim.scl_channel × IsIn (names group) claim.sda_channel

abbrev pub SingleIsLocal : {F : Type 0} → (String → Channel → Option (Claim F)) → Type 0
SingleIsLocal {F = F} find =
    (name : String) (channel : Channel) (claim : Claim F)
    → find name channel ≡ some claim
    → IsWithin (name ∷ []) claim

under_threshold :
    {F : Type 0} (ns : List String) (low : Bool) (c d : Claim F)
    → (if low then none else some c) ≡ some d
    → IsWithin ns c
    → IsWithin ns d
under_threshold ns true c d e w = cc
under_threshold ns false c d e w = let same : c ≡ d = cc in rw (← same) w

is_that : (n x : String) → IsIn (n ∷ []) x → n ≡ x
is_that n x i = elim (Bool-cases (str_eq n x)) [
  | inl same ↦ (eq_iff n x).0 same
  | inr other ↦ let no : false ≡ true = (rw other at i) in cc
]

module _ {F : Type 0} ⦃fl : Float F⦄ where
  triple_claim-IsLocal :
      (classify_spi : Channels → SpiClaim F)
      → SpiIsLocal classify_spi
      → IsLocal (λ g. triple_claim (classify_spi g)) 3
  unfolding triple_claim
  triple_claim-IsLocal classify_spi h group claim size e =
      let (clk, cs, data_line) = h group size in
      under_threshold (names group) _ _ claim e (clk, (cs, (data_line, tt)))

  pair_claim-IsLocal :
      (classify_i2c : Channels → I2cClaim F)
      → I2cIsLocal classify_i2c
      → IsLocal (λ g. pair_claim (classify_i2c g)) 2
  unfolding pair_claim
  pair_claim-IsLocal classify_i2c h group claim size e =
      let (scl, sda) = h group size in under_threshold (names group) _ _ claim e (scl, (sda, tt))

module _ {F : Type 0} (find : String → Channel → Option (Claim F))
    (local_find : SingleIsLocal find) where
  found-IsWithin :
      (n : String) (channel : Channel) (ns : List String) (o : Option (Claim F))
      (rest : List (Claim F))
      → find n channel ≡ o
      → All (IsWithin ns) rest
      → All (IsWithin (n ∷ ns)) (add_found o rest)
  found-IsWithin n channel ns none rest e within =
      IsWithin-IsSubset ns (n ∷ ns) rest (IsSubset-later n ns ns (λ x i. i)) within
  found-IsWithin n channel ns (some claim) rest e within = (
    All-map_imp _ _ (λ x i. IsSubset-both n [] ns (λ y k. cc) x.1 i) claim.channels
        (local_find n channel claim e),
    IsWithin-IsSubset ns (n ∷ ns) rest (IsSubset-later n ns ns (λ x i. i)) within,
  )

  found-ArePairwiseApart :
      (n : String) (channel : Channel) (ns : List String) (o : Option (Claim F))
      (rest : List (Claim F))
      → find n channel ≡ o
      → ¬ IsIn ns n
      → All (IsWithin ns) rest
      → ArePairwiseApart rest
      → ArePairwiseApart (add_found o rest)
  found-ArePairwiseApart n channel ns none rest e new within pairwise = pairwise
  found-ArePairwiseApart n channel ns (some claim) rest e new within pairwise =
      let avoids : Avoids ns claim =
        All-map_imp _ _ (λ x i j. new (ap (λ y. text_mem y ns) (is_that n x.1 i) ∙ j))
          claim.channels (local_find n channel claim e) in
      (IsApart-All ns claim rest avoids within, pairwise)

  singles-IsWithin : (channels : Channels) → All (IsWithin (names channels)) (singles find channels)
  unfolding singles
  singles-IsWithin [] = tt
  singles-IsWithin ((n, channel) ∷ channels) =
      found-IsWithin n channel (names channels) (find n channel) _ refl (singles-IsWithin channels)

  singles-ArePairwiseApart :
      (channels : Channels)
      → AreDistinct (names channels)
      → ArePairwiseApart (singles find channels)
  unfolding singles
  singles-ArePairwiseApart [] distinct = tt
  singles-ArePairwiseApart ((n, channel) ∷ channels) (new, distinct) =
      found-ArePairwiseApart n channel (names channels) (find n channel) _ refl new
        (singles-IsWithin channels) (singles-ArePairwiseApart channels distinct)

module _ {F : Type 0} ⦃fl : Float F⦄ (classify_spi : Channels → SpiClaim F)
    (classify_i2c : Channels → I2cClaim F)
    (classify_single : String → Channel → Option (Claim F)) where
  -- If the discriminators name channels of the group they are given, of three channels for SPI, two
  -- for I2C and one for the rest, and the names of the channels are distinct, no channel is in two
  -- of the claims of `classify`, and every claim is about channels of the capture.
  pub classify-ArePairwiseApart :
      (channels : Channels)
      → SpiIsLocal classify_spi
      → I2cIsLocal classify_i2c
      → SingleIsLocal classify_single
      → AreDistinct (names channels)
      → let claims = classify classify_spi classify_i2c classify_single channels in
        ArePairwiseApart claims × All (IsWithin (names channels)) claims
  unfolding classify
  classify-ArePairwiseApart channels spi i2c single distinct =
      let spi_find : Channels → Option (Claim F) = λ g. triple_claim (classify_spi g) in
      let i2c_find : Channels → Option (Claim F) = λ g. pair_claim (classify_i2c g) in
      let after = (greedy spi_find 3 (length channels) channels).1 in
      let triples =
        greedy-IsShared spi_find 3 (triple_claim-IsLocal classify_spi spi) (length channels)
          channels in
      let pairs =
        greedy-IsShared i2c_find 2 (pair_claim-IsLocal classify_i2c i2c) (length after) after in
      let left = (greedy i2c_find 2 (length after) after).1 in
      let alone = singles-IsWithin classify_single single left in
      let alone_apart =
        singles-ArePairwiseApart classify_single single left
          (pairs.distinct (triples.distinct distinct)) in
      let rest =
        All-append _ _ _ pairs.within
          (IsWithin-IsSubset (names left) (names after) _ pairs.fewer alone) in
      (
        ArePairwiseApart-append (names after) _ _ triples.apart triples.avoids
            (ArePairwiseApart-append (names left) _ _ pairs.apart pairs.avoids alone_apart alone)
            rest,
        All-append _ _ _ triples.within
            (IsWithin-IsSubset (names after) (names channels) _ triples.fewer rest),
      )
