-- ===== src/Measure/Whole/Laws.antt =====
-- No channel in two claims, with the discriminators that the program has.
use slidko.Prelude.{
  ℕ, String, refl, inl, inr, Bool, true, false, List, [], ◌∷◌, arith, str_eq, if◌then◌else◌,
  Bool-cases, All, str_eq_self, Float,
}
use slidko.Numpy.{Numpy, Statistics}
use slidko.Measure.Edges.{Channel}
use slidko.Measure.I2c.Roles.{I2cRoleAssignment, roles_of, assign_pair, structure_claim}
use slidko.Measure.Spi.{split_cs, SpiRoleAssignment, clock_and_data, assign_three, mode_claim}
use slidko.Measure.Single.{classify_single_channel}
use slidko.Measure.Single.Laws.{IsKept, classify_single_channel-found}
use slidko.Measure.Classify.{Claim, Channels, names}
use slidko.Measure.Classify.Names.{IsIn, AreDistinct}
use slidko.Measure.Classify.Laws.{IsWithin, ArePairwiseApart}
use slidko.Measure.Classify.Disjoint.{
  SpiIsLocal, I2cIsLocal, SingleIsLocal, classify-ArePairwiseApart,
}
use slidko.Measure.Whole.{spi_of, i2c_of, classify_capture}

IsIn-first : (x : String) (ns : List String) → IsIn (x ∷ ns) x
IsIn-first x ns = rw (str_eq_self x) refl

IsIn-later : (x n : String) (ns : List String) → IsIn ns x → IsIn (n ∷ ns) x
IsIn-later x n ns h = elim (Bool-cases (str_eq n x)) [ inl y ↦ rw y refl | inr other ↦ rw other h ]

module _ (a b c : String × Channel) where
  abbrev three : List String
  three = a.0 ∷ b.0 ∷ c.0 ∷ []

  AreOf : (String × Channel) × (String × Channel) × (String × Channel) → Type 0
  AreOf (cs, x, y) = IsIn three cs.0 × IsIn three x.0 × IsIn three y.0

  AreOf-if :
      (t : Bool) (p q : (String × Channel) × (String × Channel) × (String × Channel))
      → AreOf p
      → AreOf q
      → AreOf (if t then p else q)
  AreOf-if true p q h k = h
  AreOf-if false p q h k = k

  split_cs-AreOf : ⦃np : Numpy⦄ → AreOf (split_cs a b c)
  unfolding split_cs AreOf
  split_cs-AreOf =
      let first = IsIn-first a.0 (b.0 ∷ c.0 ∷ []) in
      let second = IsIn-later b.0 a.0 (b.0 ∷ c.0 ∷ []) (IsIn-first b.0 (c.0 ∷ [])) in
      let third =
        IsIn-later c.0 a.0 (b.0 ∷ c.0 ∷ []) (IsIn-later c.0 b.0 (c.0 ∷ []) (IsIn-first c.0 [])) in
      AreOf-if _ _ _ (AreOf-if _ _ _ (third, first, second) (second, first, third))
        (AreOf-if _ _ _ (third, first, second) (first, second, third))

module _ {F : Type 0} ⦃fl : Float F⦄ where
  SpiRolesAreIn : List String → SpiRoleAssignment F → Type 0
  SpiRolesAreIn ns roles =
      IsIn ns roles.clock_channel.0 × IsIn ns roles.cs_channel.0 × IsIn ns roles.data_channel.0

  clock_and_data-SpiRolesAreIn :
      (ns : List String) (cs x y : String × Channel) (s t : F)
      → IsIn ns cs.0
      → IsIn ns x.0
      → IsIn ns y.0
      → SpiRolesAreIn ns (clock_and_data cs x y s t)
  unfolding clock_and_data SpiRolesAreIn
  clock_and_data-SpiRolesAreIn ns cs x y s t h i j = elim (Bool-cases (fl.lt s t)) [
    | inl more ↦ rw more (j, h, i)
    | inr less ↦ rw less (i, h, j)
  ]

  I2cRolesAreIn : List String → I2cRoleAssignment F → Type 0
  I2cRolesAreIn ns roles = IsIn ns roles.scl_channel.0 × IsIn ns roles.sda_channel.0

  roles_of-I2cRolesAreIn :
      (a b : String × Channel) (s t : F) → I2cRolesAreIn (a.0 ∷ b.0 ∷ []) (roles_of a b s t)
  unfolding roles_of I2cRolesAreIn
  roles_of-I2cRolesAreIn a b s t =
      let first = IsIn-first a.0 (b.0 ∷ []) in
      let second = IsIn-later b.0 a.0 (b.0 ∷ []) (IsIn-first b.0 []) in
      elim (Bool-cases (fl.le t s)) [
        | inl more ↦ rw more (first, second)
        | inr less ↦ rw less (second, first)
      ]

module _ (F : Type 0) ⦃fl : Float F⦄ ⦃np : Numpy⦄ ⦃st : Statistics F⦄ where
  spi_of-SpiIsLocal : SpiIsLocal (spi_of {F = F})
  unfolding mode_claim SpiRolesAreIn assign_three AreOf
  spi_of-SpiIsLocal [] size = absurd (omega (arith, size))
  spi_of-SpiIsLocal (a ∷ []) size = absurd (omega (arith, size))
  spi_of-SpiIsLocal (a ∷ b ∷ []) size = absurd (omega (arith, size))
  spi_of-SpiIsLocal (a ∷ b ∷ c ∷ []) size =
      let (cs, x, y) = split_cs-AreOf a b c in
      clock_and_data-SpiRolesAreIn (a.0 ∷ b.0 ∷ c.0 ∷ []) _ _ _ _ _ cs x y
  spi_of-SpiIsLocal (a ∷ b ∷ c ∷ d ∷ rest) size = absurd (omega (arith, size))

  i2c_of-I2cIsLocal : I2cIsLocal (i2c_of {F = F})
  unfolding structure_claim I2cRolesAreIn assign_pair
  i2c_of-I2cIsLocal [] size = absurd (omega (arith, size))
  i2c_of-I2cIsLocal (a ∷ []) size = absurd (omega (arith, size))
  i2c_of-I2cIsLocal (a ∷ b ∷ []) size = roles_of-I2cRolesAreIn a b _ _
  i2c_of-I2cIsLocal (a ∷ b ∷ c ∷ rest) size = absurd (omega (arith, size))

  IsWithin-IsKept : (name : String) → IsKept {F = F} (IsWithin (name ∷ [])) name
  IsWithin-IsKept name =
      let here : All (λ x. IsIn (name ∷ []) x) (name ∷ []) = (IsIn-first name [], tt) in
      record {
        uart = λ c baud data_bits parity stop_bits. here;
        ws2812 = λ c. here;
        pwm = λ c. here;
        dshot = λ c rate. here;
        can = λ c bitrate. here;
        video = λ c. here;
      }

  single-SingleIsLocal : (rate : ℕ) → SingleIsLocal (classify_single_channel {F = F} rate)
  single-SingleIsLocal rate name channel claim e =
      classify_single_channel-found (IsWithin (name ∷ [])) rate name channel (IsWithin-IsKept name)
        e

  -- In a capture with distinct channel names, no channel is in two of the claims of the classifier with the
  -- program's own discriminators, and every claim is about channels of the capture.
  pub classify_capture-ArePairwiseApart :
      (channels : Channels) (samplerate_hz : ℕ)
      → AreDistinct (names channels)
      → let claims : List (Claim F) = classify_capture channels samplerate_hz in
        ArePairwiseApart claims × All (IsWithin (names channels)) claims
  unfolding classify_capture
  classify_capture-ArePairwiseApart channels samplerate_hz =
      classify-ArePairwiseApart spi_of i2c_of (classify_single_channel samplerate_hz) channels
        spi_of-SpiIsLocal i2c_of-I2cIsLocal (single-SingleIsLocal samplerate_hz)
