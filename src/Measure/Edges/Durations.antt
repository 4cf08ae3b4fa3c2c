-- ===== src/Measure/Edges/Durations.antt =====
-- How long the high pulses of a channel are.
use slidko.Prelude.{
  ℕ, zero, suc, ◌+◌, ◌-◌, ◌≡◌, refl, ap, ◌∙◌, Bool, true, false, List, [], ◌∷◌, map, arith, length,
  drop, Float,
}
use slidko.Numpy.{Numpy, NumpyLaws}
use slidko.Measure.Edges.{Channel, extract_edges, run_length}
use slidko.Measure.Edges.Laws.{edge_scan, extract_edges-scan}
use slidko.Measure.Edges.Pulses.{
  edges_to, cells_of, pulse_cells_ns, high_pulse_durations_ns, nanoseconds, next_index, high_pulses,
}

-- The run at the level before sample `i` ends at the next edge.
next_index-edge_scan :
    (n i : ℕ) (a : Bool) (c : Channel)
    → i + length c ≡ n
    → next_index n (edge_scan i a c) ≡ i + run_length a c
unfolding edge_scan run_length
next_index-edge_scan n i a [] e = omega arith
next_index-edge_scan n i true (true ∷ rest) e =
    omega (arith, next_index-edge_scan n (i + 1) true rest (omega arith))
next_index-edge_scan n i false (false ∷ rest) e =
    omega (arith, next_index-edge_scan n (i + 1) false rest (omega arith))
next_index-edge_scan n i true (false ∷ rest) e = omega arith
next_index-edge_scan n i false (true ∷ rest) e = omega arith

drop-tail :
    (i : ℕ) (c : Channel) {b : Bool} {rest : Channel} → drop i c ≡ b ∷ rest → drop (suc i) c ≡ rest
drop-tail zero [] e = cc
drop-tail (suc i) [] e = cc
drop-tail zero (x ∷ c) e = cc
drop-tail (suc i) (x ∷ c) e = drop-tail i c e

drop_next :
    (i : ℕ) (c : Channel) {b : Bool} {rest : Channel} → drop i c ≡ b ∷ rest → drop (i + 1) c ≡ rest
drop_next i c e = let next : i + 1 ≡ suc i = omega arith in rw next (drop-tail i c e)

-- The runs that are measured at the rising edges are the high pulses.
runs : Channel → List ℕ → List ℕ
runs c = map (λ start. run_length true (drop start c))

runs-high_pulses :
    (c : Channel) (n i : ℕ) (a : Bool) (rest : Channel)
    → drop i c ≡ rest
    → i + length rest ≡ n
    → runs c (edges_to true (edge_scan i a rest)) ≡ high_pulses n (edge_scan i a rest)
unfolding runs edge_scan edges_to high_pulses run_length
runs-high_pulses c n i a [] e size = refl
runs-high_pulses c n i true (true ∷ rest) e size =
    runs-high_pulses c n (i + 1) true rest (drop_next i c e) (omega arith)
runs-high_pulses c n i false (false ∷ rest) e size =
    runs-high_pulses c n (i + 1) false rest (drop_next i c e) (omega arith)
runs-high_pulses c n i true (false ∷ rest) e size =
    runs-high_pulses c n (i + 1) false rest (drop_next i c e) (omega arith)
runs-high_pulses c n i false (true ∷ rest) e size =
    let later = runs-high_pulses c n (i + 1) true rest (drop_next i c e) (omega arith) in
    let pulse : run_length true (true ∷ rest) ≡ next_index n (edge_scan (i + 1) true rest) - i =
      omega (arith, next_index-edge_scan n (i + 1) true rest (omega arith)) in
    rw (e, pulse, later) refl

module _ {F : Type 0} ⦃fl : Float F⦄ where
  durations-runs :
      (s : F) (c : Channel) (starts : List ℕ)
      → map (λ cell. cell.0) (cells_of s c starts) ≡ map (λ n. fl.mul (fl.of_ℕ n) s) (runs c starts)
  unfolding cells_of runs
  durations-runs s c [] = refl
  durations-runs s c (start ∷ starts) =
      ap (◌∷◌ (fl.mul (fl.of_ℕ (run_length true (drop start c))) s)) (durations-runs s c starts)

  module _ ⦃np : Numpy⦄ (laws : NumpyLaws np) where
    -- The high pulses of a channel with at least one sample are as long as it is from each rising edge to the edge
    -- after it, or to the end of the channel, in order.
    pub high_pulse_durations_ns-high_pulses :
        (a : Bool) (rest : Channel) (samplerate_hz : ℕ)
        → high_pulse_durations_ns (a ∷ rest) samplerate_hz
          ≡ map
              (λ n. fl.mul (fl.of_ℕ n) (nanoseconds samplerate_hz))
              (high_pulses (length (a ∷ rest)) (extract_edges (a ∷ rest)))
    unfolding high_pulse_durations_ns pulse_cells_ns
    high_pulse_durations_ns-high_pulses a rest samplerate_hz = rw (extract_edges-scan laws a rest) (
        durations-runs (nanoseconds samplerate_hz) (a ∷ rest) _
        ∙ ap (map (λ n. fl.mul (fl.of_ℕ n) (nanoseconds samplerate_hz)))
            (runs-high_pulses (a ∷ rest) _ 1 a rest refl (omega arith)))
