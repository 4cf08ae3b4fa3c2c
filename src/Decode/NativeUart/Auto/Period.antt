-- ===== src/Decode/NativeUart/Auto/Period.antt =====
-- The bit period that is estimated on a line is the number of samples of a bit.
use slidko.Prelude.{
  ℕ, zero, suc, ◌*◌, ◌≤◌, ◌<◌, min, max, ◌≡◌, refl, ap, ◌∙◌, ◌⊎◌, inl, inr, Bool, true, false,
  Option, none, some, List, [], ◌∷◌, map, arith, ◌==◌, if◌then◌else◌, Bool-cases, any, All, Float,
}
use slidko.Numpy.{Statistics}
use slidko.Measure.Edges.{minimum}
use slidko.Measure.Uart.{bit_of, period_of}
use slidko.Decode.NativeUart.Auto.Intervals.{IsWithin}

-- Whether some bit stands alone: an interval of one bit.
abbrev pub has_lone_bit : List ℕ → Bool
has_lone_bit ds = any (λ d. d == 1) ds

le_scaled : (w d : ℕ) → 0 < d → w ≤ w * d
le_scaled w zero h = let impossible : ⊥ = omega arith in absurd impossible
le_scaled w (suc d) h = omega arith

minimum-scaled :
    (n w m : ℕ) (ds : List ℕ)
    → w ≤ m
    → All (IsWithin n) ds
    → (m ≡ w) ⊎ (has_lone_bit ds ≡ true)
    → minimum m (map (λ d. w * d) ds) ≡ w
minimum-scaled n w m [] above within (inl e) = e
minimum-scaled n w m [] above within (inr e) = cc
minimum-scaled n w m (d ∷ ds) above (here, within) (inl e) =
    let more = le_scaled w d here.0 in
    minimum-scaled n w (min m (w * d)) ds (omega arith) within (inl (omega arith))
minimum-scaled n w m (d ∷ ds) above (here, within) (inr e) =
    let more = le_scaled w d here.0 in
    elim (Bool-cases (d == 1)) [
      | inl lone ↦
          let one : d ≡ 1 = ground (arith, lone) in
          let product : w * d ≡ w = rw one (omega arith) in
          minimum-scaled n w (min m (w * d)) ds (omega arith) within (inl (omega arith))
      | inr longer ↦
          minimum-scaled n w (min m (w * d)) ds (omega arith) within (inr (rw longer at e))
    ]

least_scaled :
    (n w d : ℕ) (ds : List ℕ)
    → All (IsWithin n) (d ∷ ds)
    → has_lone_bit (d ∷ ds) ≡ true
    → minimum (w * d) (map (λ d. w * d) ds) ≡ w
least_scaled n w d ds (here, within) lone = elim (Bool-cases (d == 1)) [
  | inl alone ↦
      let one : d ≡ 1 = ground (arith, alone) in
      let product : w * d ≡ w = rw one (omega arith) in
      minimum-scaled n w (w * d) ds (le_scaled w d here.0) within (inl product)
  | inr longer ↦
      minimum-scaled n w (w * d) ds (le_scaled w d here.0) within (inr (rw longer at lone))
]

-- Floats are exact on intervals of so many bits of `w` samples: the quotient of an interval by `w` rounds to the number of
-- its bits, its quotient by that number is `w`, and the mean of values that are all `w` is `w`.
pub record IsExact (F : Type 0) ⦃fl : Float F⦄ ⦃st : Statistics F⦄ (w : ℕ) (ds : List ℕ)
    : Type 0 where
  pub positive : fl.le (fl.of_ℕ w) (fl.of_ℕ 0) ≡ false
  pub multiples : All (λ d. fl.round (fl.div (fl.of_ℕ (w * d)) (fl.of_ℕ w)) ≡ d) ds
  pub widths : All (λ d. fl.div (fl.of_ℕ (w * d)) (fl.of_ℕ d) ≡ fl.of_ℕ w) ds
  pub mean : st.mean (map (λ d. fl.of_ℕ w) ds) ≡ fl.of_ℕ w

module _ {F : Type 0} ⦃fl : Float F⦄ where
  bits-width :
      (n w : ℕ) (ds : List ℕ)
      → All (IsWithin n) ds
      → All (λ d. fl.round (fl.div (fl.of_ℕ (w * d)) (fl.of_ℕ w)) ≡ d) ds
      → All (λ d. fl.div (fl.of_ℕ (w * d)) (fl.of_ℕ d) ≡ fl.of_ℕ w) ds
      → map (bit_of (fl.of_ℕ w)) (map (λ d. w * d) ds) ≡ map (λ d. fl.of_ℕ w) ds
  bits-width n w [] within multiples widths = refl
  bits-width n w (d ∷ ds) (here, within) (m, multiples) (q, widths) =
      let most : max 1 d ≡ d = omega (arith, here) in
      let one : bit_of (fl.of_ℕ w) (w * d) ≡ fl.of_ℕ w =
        ap (λ k. fl.div (fl.of_ℕ (w * d)) (fl.of_ℕ (max 1 k))) m
        ∙ ap (λ k. fl.div (fl.of_ℕ (w * d)) (fl.of_ℕ k)) most
        ∙ q in
      ap (λ x. x ∷ map (bit_of (fl.of_ℕ w)) (map (λ d. w * d) ds)) one
      ∙ ap (◌∷◌ (fl.of_ℕ w)) (bits-width n w ds within multiples widths)

  module _ ⦃st : Statistics F⦄ where
    -- What is estimated from the least of the intervals.
    from_least : ℕ → List ℕ → Option F
    from_least least intervals =
        if fl.le (fl.of_ℕ least) (fl.of_ℕ 0)
        then none
        else some (st.mean (map (bit_of (fl.of_ℕ least)) intervals))

    pub period_of-scaled :
        (n w : ℕ) (ds : List ℕ)
        → All (IsWithin n) ds
        → has_lone_bit ds ≡ true
        → IsExact F w ds
        → period_of (map (λ d. w * d) ds) ≡ some (fl.of_ℕ w)
    unfolding from_least
    period_of-scaled n w [] within lone exact = cc
    period_of-scaled n w (d ∷ ds) within lone exact =
        let intervals = map (λ d. w * d) (d ∷ ds) in
        ap (λ m. from_least m intervals) (least_scaled n w d ds within lone)
        ∙ ap (λ b. if b then none else some (st.mean (map (bit_of (fl.of_ℕ w)) intervals)))
            exact.positive
        ∙ ap (λ xs. some (st.mean xs)) (bits-width n w (d ∷ ds) within exact.multiples exact.widths)
        ∙ ap (λ x. some x) exact.mean
