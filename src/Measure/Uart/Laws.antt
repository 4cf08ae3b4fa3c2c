-- ===== src/Measure/Uart/Laws.antt =====
-- Which bauds are inferred.
use slidko.Prelude.{
  ℕ, ◌≡◌, refl, ◌⊎◌, inl, inr, Bool, true, false, Option, none, some, List, [], ◌∷◌, ◌++◌, map,
  arith, ◌==◌, Bool-cases, drop, any, all, All, Float,
}
use slidko.Numpy.{Numpy, Statistics}
use slidko.Measure.Best.{LtIsTransitive, LtIsIrreflexive, min_by-All, min_by-least}
use slidko.Measure.Edges.{Channel, extract_edges}
use slidko.Measure.Uart.{
  Frame, BaudEstimate, standard_bauds, sbus_baud, sbus_frame, default_frame, candidates,
  relative_error, snap_to_baud_table, estimate_bit_period, baud_of, infer_uart,
}

abbrev pub is_standard : ℕ → Bool
is_standard b = any (λ s. s == b) standard_bauds

all-All : {A : Type 0} (p : A → Bool) (xs : List A) → all p xs ≡ true → All (λ x. p x ≡ true) xs
all-All p [] e = tt
all-All p (x ∷ xs) e =
    let here : p x ≡ true = ground (arith, e) in (here, all-All p xs (rw here at e))

standard_bauds-are : all is_standard standard_bauds ≡ true
standard_bauds-are = refl

module _ {F : Type 0} ⦃fl : Float F⦄ where
  -- A row of the table with its frame, or the exception with its own.
  abbrev pub IsListed : ℕ × Frame F → Type 0
  IsListed (baud, frame) =
      ((is_standard baud ≡ true) × (frame ≡ default_frame))
      ⊎ ((baud ≡ sbus_baud) × (frame ≡ sbus_frame))

module _ (F : Type 0) ⦃fl : Float F⦄ where
  rows-IsListed :
      (bauds : List ℕ)
      → All (λ b. is_standard b ≡ true) bauds
      → All (IsListed {F = F}) (map (λ b. (b, default_frame)) bauds ++ (sbus_baud, sbus_frame) ∷ [])
  rows-IsListed [] h = (inr (refl, refl), tt)
  rows-IsListed (b ∷ bauds) (h, hs) = (inl (h, refl), rows-IsListed bauds hs)

  candidates-IsListed : All (IsListed {F = F}) candidates
  candidates-IsListed =
      rows-IsListed standard_bauds (all-All is_standard standard_bauds standard_bauds-are)

module _ {F : Type 0} ⦃fl : Float F⦄ where
  -- A listed choice, to which no other candidate is nearer.
  abbrev pub IsNearest : F → ℕ × Frame F → Type 0
  IsNearest raw_baud best =
      IsListed best
      × All (λ c. fl.lt (relative_error raw_baud c.0) (relative_error raw_baud best.0) ≡ false)
          (candidates {F = F})

  module _ (trans : LtIsTransitive F) (irreflexive : LtIsIrreflexive F) where
    snap_to_baud_table-IsNearest :
        (raw_baud : F) → IsNearest raw_baud (snap_to_baud_table raw_baud).0
    unfolding snap_to_baud_table
    snap_to_baud_table-IsNearest raw_baud =
        let (first, later) = candidates-IsListed F in
        let key : ℕ × Frame F → F = λ c. relative_error raw_baud c.0 in
        (
          min_by-All key IsListed _ _ first later,
          min_by-least key trans (λ c. irreflexive (key c)) (110, default_frame) (drop 1 candidates)
              refl,
        )

    module _ ⦃np : Numpy⦄ ⦃st : Statistics F⦄ where
      baud_of-IsNearest :
          (channel : Channel) (rate : ℕ) (idle : Bool) (period : Option F) {found : Option F}
          → found ≡ period
          → let estimate = baud_of channel rate idle period in
            ((estimate.baud ≡ 0) × (estimate.confidence ≡ fl.of_ℕ 0))
            ⊎ ((p : F) × (found ≡ some p)
                × IsNearest (fl.div (fl.of_ℕ rate) p) (estimate.baud, estimate.frame))
      unfolding baud_of
      baud_of-IsNearest channel rate idle none e = inl (refl, refl)
      baud_of-IsNearest channel rate idle (some p) e = elim (Bool-cases (fl.le p (fl.of_ℕ 0))) [
        | inl none_left ↦ rw none_left (inl (refl, refl))
        | inr positive ↦
            rw positive (inr (p, e, snap_to_baud_table-IsNearest (fl.div (fl.of_ℕ rate) p)))
      ]

      -- The baud that is inferred is 0 with no confidence, or a standard baud with the default frame or SBUS's with its
      -- own, and then no candidate is relatively nearer to the sample rate over the estimated bit period, if `<` on
      -- floats is transitive and irreflexive.
      pub infer_uart-IsNearest :
          (channel : Channel) (samplerate_hz : ℕ)
          → let estimate : BaudEstimate F = infer_uart channel samplerate_hz in
            ((estimate.baud ≡ 0) × (estimate.confidence ≡ fl.of_ℕ 0))
            ⊎ ((p : F) × (estimate_bit_period (extract_edges channel) ≡ some p)
                × IsNearest (fl.div (fl.of_ℕ samplerate_hz) p) (estimate.baud, estimate.frame))
      unfolding infer_uart
      infer_uart-IsNearest channel samplerate_hz = baud_of-IsNearest channel samplerate_hz _ _ refl
