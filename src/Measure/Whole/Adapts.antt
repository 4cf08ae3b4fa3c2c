-- ===== src/Measure/Whole/Adapts.antt =====
-- How Decode takes the claims of the classifier: src/slidko/decode/from_measure.py after
-- src/slidko/measure/classify.py.
use slidko.Prelude.{
  ℕ, zero, suc, String, ◌≡◌, refl, ◌⊎◌, inl, inr, Bool, true, false, Option, none, some, List, [],
  ◌∷◌, ltb, if◌then◌else◌, Bool-cases, length, All, All-append, lower, text_mem, Float,
}
use slidko.Result.{ok, err, value_error}
use slidko.Numpy.{Numpy, Statistics}
use slidko.Decode.Backend.{ProtocolHypothesis}
use slidko.Decode.FromMeasure.{
  hypothesis_from_claim, uart_hypothesis, i2c_hypothesis, spi_hypothesis,
}
use slidko.Measure.Edges.{Channel}
use slidko.Measure.Single.Laws.{IsKept, classify_single_channel-found}
use slidko.Measure.Classify.{
  Claim, Channels, SpiClaim, I2cClaim, triple_claim, pair_claim, add_found, singles, names, best_of,
  improve, combinations, without, greedy, classify,
}
use slidko.Measure.Whole.{spi_of, i2c_of, classify_capture}

-- What holds of all that a search finds holds of all the claims that are made of it.
module _ {F : Type 0} ⦃fl : Float F⦄ (P : Claim F → Type 0) where
  abbrev Found : {A : Type 0} → (A → Option (Claim F)) → Type 0
  Found {A = A} find = (a : A) (claim : Claim F) → find a ≡ some claim → P claim

  abbrev OfBest : Option (Claim F × Channels) → Type 0
  OfBest none = Unit
  OfBest (some (claim, group)) = P claim

  improve-OfBest :
      (best : Option (Claim F × Channels)) (found : Option (Claim F)) (group : Channels)
      → OfBest best
      → ((claim : Claim F) → found ≡ some claim → P claim)
      → OfBest (improve best found group)
  unfolding improve
  improve-OfBest best none group b h = b
  improve-OfBest none (some claim) group b h = h claim refl
  improve-OfBest (some (c, g)) (some claim) group b h =
      elim (Bool-cases (fl.lt c.confidence claim.confidence)) [
        | inl more ↦ rw more (h claim refl)
        | inr less ↦ rw less b
      ]

  module _ (find : Channels → Option (Claim F)) (h : Found find) (size : ℕ) where
    best_of-OfBest :
        (best : Option (Claim F × Channels)) (groups : List Channels)
        → OfBest best
        → OfBest (best_of find best groups)
    unfolding best_of
    best_of-OfBest best [] b = b
    best_of-OfBest best (group ∷ groups) b =
        best_of-OfBest (improve best (find group) group) groups
          (improve-OfBest best (find group) group b (h group))

    module _ (fuel : ℕ) (remaining : Channels)
        (later : (r : Channels) → All P (greedy find size fuel r).0) where
      turn-All :
          (best : Option (Claim F × Channels))
          → OfBest best
          → let found : List (Claim F) × Channels = elim best [
            | none ↦ ([], remaining)
            | some (claim, group) ↦
                let (claims, left) = greedy find size fuel (without (names group) remaining) in
                (claim ∷ claims, left)
          ] in
            All P found.0
      turn-All none b = tt
      turn-All (some (claim, group)) b = (b, later (without (names group) remaining))

    greedy-All : (fuel : ℕ) (remaining : Channels) → All P (greedy find size fuel remaining).0
    unfolding greedy
    greedy-All zero remaining = tt
    greedy-All (suc fuel) remaining = elim (Bool-cases (ltb (length remaining) size)) [
      | inl few ↦ rw few tt
      | inr enough ↦ rw enough (
          turn-All fuel remaining (greedy-All fuel)
            (best_of find none (combinations size remaining))
            (best_of-OfBest none (combinations size remaining) tt))
    ]

  add_found-All :
      (o : Option (Claim F)) (rest : List (Claim F))
      → ((claim : Claim F) → o ≡ some claim → P claim)
      → All P rest
      → All P (add_found o rest)
  add_found-All none rest h ps = ps
  add_found-All (some claim) rest h ps = (h claim refl, ps)

  module _ (find : String → Channel → Option (Claim F)) where
    singles-All :
        ((name : String) (channel : Channel) (claim : Claim F)
          → find name channel ≡ some claim
          → P claim)
        → (channels : Channels) → All P (singles find channels)
    unfolding singles
    singles-All h [] = tt
    singles-All h ((name, channel) ∷ channels) =
        add_found-All (find name channel) _ (h name channel) (singles-All h channels)

  pub if-found : (low : Bool) (c d : Claim F) → (if low then none else some c) ≡ some d → P c → P d
  if-found true c d e p = cc
  if-found false c d e p = let same : c ≡ d = cc in rw (← same) p

-- A claim of a protocol that Decode knows becomes a hypothesis of that protocol; any other is refused with a
-- `ValueError`. No key is missing.
abbrev pub Adapts : {F : Type 0} ⦃fl : Float F⦄ → Claim F → Type 0
Adapts {F = F} claim =
    ((h : ProtocolHypothesis F) × (hypothesis_from_claim claim ≡ ok h)
      × (text_mem claim.protocol ("UART" ∷ "I2C" ∷ "SPI" ∷ []) ≡ true))
    ⊎ ((hypothesis_from_claim claim ≡ err (value_error claim.protocol))
        × (text_mem claim.protocol ("WS2812" ∷ "PWM" ∷ "DShot" ∷ "CAN" ∷ "AnalogVideo" ∷ [])
            ≡ true))

module _ (F : Type 0) ⦃fl : Float F⦄ where
  Adapts-IsKept : (name : String) → IsKept {F = F} Adapts name
  unfolding hypothesis_from_claim uart_hypothesis lower
  Adapts-IsKept name = record {
    uart = λ c baud data_bits parity stop_bits. inl (_, refl, refl);
    ws2812 = λ c. inr (refl, refl);
    pwm = λ c. inr (refl, refl);
    dshot = λ c rate. inr (refl, refl);
    can = λ c bitrate. inr (refl, refl);
    video = λ c. inr (refl, refl);
  }

  triple_Adapts : (s : SpiClaim F) (claim : Claim F) → triple_claim s ≡ some claim → Adapts claim
  unfolding triple_claim hypothesis_from_claim spi_hypothesis lower
  triple_Adapts s claim e = if-found Adapts _ _ claim e (inl (_, refl, refl))

  pair_Adapts : (s : I2cClaim F) (claim : Claim F) → pair_claim s ≡ some claim → Adapts claim
  unfolding pair_claim hypothesis_from_claim i2c_hypothesis lower
  pair_Adapts s claim e = if-found Adapts _ _ claim e (inl (_, refl, refl))

  module _ ⦃np : Numpy⦄ ⦃st : Statistics F⦄ where
    -- What holds of every claim that a discriminator can make.
    pub classify_capture-All :
        (P : Claim F → Type 0)
        → ((s : SpiClaim F) (claim : Claim F) → triple_claim s ≡ some claim → P claim)
        → ((s : I2cClaim F) (claim : Claim F) → pair_claim s ≡ some claim → P claim)
        → ((name : String) → IsKept P name)
        → (channels : Channels) (samplerate_hz : ℕ)
        → All P (classify_capture channels samplerate_hz)
    unfolding classify_capture classify
    classify_capture-All P triple pair kept channels rate =
        All-append P _ _ (greedy-All P _ (λ g. triple (spi_of g)) 3 (length channels) channels) (
          All-append P _ _ (greedy-All P _ (λ g. pair (i2c_of g)) 2 _ _) (
            singles-All P _
              (λ name channel claim. classify_single_channel-found P rate name channel (kept name))
              _))

    -- Every claim of the classifier becomes a hypothesis, if its protocol is UART, I2C or SPI, and is otherwise one of
    -- the five protocols that are only recognised and is refused with a `ValueError` that names it. No claim makes the
    -- adapter miss a key.
    pub classify_capture-Adapts :
        (channels : Channels) (samplerate_hz : ℕ)
        → All Adapts (classify_capture {F = F} channels samplerate_hz)
    classify_capture-Adapts = classify_capture-All Adapts triple_Adapts pair_Adapts Adapts-IsKept
