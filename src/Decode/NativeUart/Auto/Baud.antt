-- ===== src/Decode/NativeUart/Auto/Baud.antt =====
-- The baud that is inferred from a line of bits.
use slidko.Prelude.{
  ℕ, suc, ◌+◌, ◌≡◌, refl, ap, ◌∙◌, ◌⊎◌, inl, inr, Bool, true, false, some, List, [], ◌∷◌, ◌++◌,
  arith, ◌==◌, Bool-cases, length, drop, replicate, any, All, Float,
}
use slidko.Numpy.{Numpy, NumpyLaws, Statistics}
use slidko.Measure.Best.{LtIsTransitive, LtIsIrreflexive, min_by, min_by-All, min_by-least}
use slidko.Measure.Edges.{Channel, extract_edges}
use slidko.Measure.Edges.Laws.{edge_scan-replicate, extract_edges-scan}
use slidko.Measure.Edges.Pulses.{inter_edge_intervals}
use slidko.Measure.Uart.{
  Frame, candidates, default_frame, relative_error, snap_to_baud_table, period_of,
  estimate_bit_period, baud_of, infer_uart, detect_idle_level,
}
use slidko.Decode.NativeUart.Frame.{wave}
use slidko.Decode.NativeUart.Auto.Intervals.{bit_gaps, bit_gaps-IsWithin, intervals-bit_gaps}
use slidko.Decode.NativeUart.Auto.Period.{has_lone_bit, IsExact, period_of-scaled}

-- A line that is high for a while and then has bits of `v + 1` samples.
abbrev pub line_of : ℕ → ℕ → List Bool → Channel
line_of idle v bits = true ∷ replicate idle true ++ wave (suc v) bits

abbrev pub is_candidate : {F : Type 0} → ℕ → List (ℕ × Frame F) → Bool
is_candidate baud cs = any (λ c. c.0 == baud) cs

module _ {F : Type 0} ⦃fl : Float F⦄ where
  -- The baud is a candidate, and every other one is relatively farther from the raw baud.
  abbrev pub IsClear : F → ℕ → Type 0
  IsClear raw_baud baud =
      (is_candidate baud (candidates {F = F}) ≡ true)
      × All
          (λ c.
            (c.0 ≡ baud)
            ⊎ (fl.lt (relative_error raw_baud baud) (relative_error raw_baud c.0) ≡ true))
          (candidates {F = F})

  at_candidate :
      (raw_baud least : F) (baud : ℕ) (cs : List (ℕ × Frame F))
      → is_candidate baud cs ≡ true
      → All (λ c. fl.lt (relative_error raw_baud c.0) least ≡ false) cs
      → fl.lt (relative_error raw_baud baud) least ≡ false
  at_candidate raw_baud least baud [] found h = cc
  at_candidate raw_baud least baud (c ∷ cs) found (here, later) = elim (Bool-cases (c.0 == baud)) [
    | inl same ↦ let e : c.0 ≡ baud = ground (arith, same) in rw e at here
    | inr other ↦ at_candidate raw_baud least baud cs (rw other at found) later
  ]

  module _ (trans : LtIsTransitive F) (irreflexive : LtIsIrreflexive F) where
    chosen :
        (raw_baud : F) (baud : ℕ) (choice : ℕ × Frame F)
        → (choice.0 ≡ baud)
          ⊎ (fl.lt (relative_error raw_baud baud) (relative_error raw_baud choice.0) ≡ true)
        → fl.lt (relative_error raw_baud baud) (relative_error raw_baud choice.0) ≡ false
        → choice.0 ≡ baud
    chosen raw_baud baud choice (inl e) h = e
    chosen raw_baud baud choice (inr e) h = cc

    snap_to_baud_table-IsClear :
        (raw_baud : F) (baud : ℕ) → IsClear raw_baud baud → (snap_to_baud_table raw_baud).0.0 ≡ baud
    unfolding snap_to_baud_table
    snap_to_baud_table-IsClear raw_baud baud (listed, (first, later)) =
        let key : ℕ × Frame F → F = λ c. relative_error raw_baud c.0 in
        let IsFarther : ℕ × Frame F → Type 0 = λ c.
          (c.0 ≡ baud)
          ⊎ (fl.lt (relative_error raw_baud baud) (relative_error raw_baud c.0) ≡ true) in
        let best = min_by key (110, default_frame) (drop 1 candidates) in
        chosen raw_baud baud best
          (min_by-All key IsFarther (110, default_frame) (drop 1 candidates) first later)
          (at_candidate raw_baud (key best) baud candidates listed (
            min_by-least key trans (λ c. irreflexive (key c)) (110, default_frame)
              (drop 1 candidates) refl))

    module _ ⦃np : Numpy⦄ ⦃st : Statistics F⦄ (laws : NumpyLaws np) where
      estimate-line :
          (idle v : ℕ) (bits : List Bool)
          → has_lone_bit (bit_gaps true bits) ≡ true
          → IsExact F (suc v) (bit_gaps true bits)
          → estimate_bit_period (extract_edges (line_of idle v bits)) ≡ some (fl.of_ℕ (suc v))
      unfolding estimate_bit_period
      estimate-line idle v bits lone exact =
          ap (λ e. period_of (inter_edge_intervals e))
            (extract_edges-scan laws true (replicate idle true ++ wave (suc v) bits)
              ∙ edge_scan-replicate 1 idle true (wave (suc v) bits))
          ∙ ap period_of (intervals-bit_gaps (1 + idle) v true bits)
          ∙ period_of-scaled (length bits) (suc v) (bit_gaps true bits)
              (bit_gaps-IsWithin true bits) lone exact

      baud_of-some :
          (channel : Channel) (rate : ℕ) (idle_high : Bool) (p : F)
          → fl.le p (fl.of_ℕ 0) ≡ false
          → (baud_of channel rate idle_high (some p)).baud
            ≡ (snap_to_baud_table (fl.div (fl.of_ℕ rate) p)).0.0
      unfolding baud_of
      baud_of-some channel rate idle_high p positive = rw positive refl

      -- On a line whose bits have a whole number of samples, some bit of which stands alone, the inferred baud is the
      -- candidate that is strictly nearest to the rate of the bits.
      pub infer_uart-line :
          (idle v samplerate_hz baud : ℕ) (bits : List Bool)
          → has_lone_bit (bit_gaps true bits) ≡ true
          → IsExact F (suc v) (bit_gaps true bits)
          → IsClear (fl.div (fl.of_ℕ samplerate_hz) (fl.of_ℕ (suc v))) baud
          → (infer_uart {F = F} (line_of idle v bits) samplerate_hz).baud ≡ baud
      unfolding infer_uart
      infer_uart-line idle v samplerate_hz baud bits lone exact clear =
          let line = line_of idle v bits in
          ap (λ p. (baud_of line samplerate_hz (detect_idle_level F line) p).baud)
            (estimate-line idle v bits lone exact)
          ∙ baud_of-some line samplerate_hz (detect_idle_level F line) (fl.of_ℕ (suc v))
              exact.positive
          ∙ snap_to_baud_table-IsClear (fl.div (fl.of_ℕ samplerate_hz) (fl.of_ℕ (suc v))) baud clear
