-- ===== src/Measure/Edges/Pulses.antt =====
-- src/slidko/measure/edges.py: intervals between edges, and the high pulses of a channel.
use slidko.Prelude.{
  ℕ, ◌-◌, Bool, true, false, Option, none, some, List, [], ◌∷◌, ◌++◌, map, ltb, if◌then◌else◌,
  bool_eq, length, drop, Float,
}
use slidko.Numpy.{Numpy, Statistics}
use slidko.Measure.Edges.{Edge, Channel, extract_edges, indices, gaps, run_length}

unfoldable pub inter_edge_intervals : List Edge → List ℕ
inter_edge_intervals edges = if ltb (length edges) 2 then [] else gaps (indices edges)

-- `[idx for idx, polarity in edges if polarity == level]`
unfoldable pub edges_to : Bool → List Edge → List ℕ
edges_to level [] = []
edges_to level ((idx, polarity) ∷ edges) =
    let rest = edges_to level edges in if bool_eq polarity level then idx ∷ rest else rest

unfoldable pub same_polarity_intervals : (F : Type 0) ⦃st : Statistics F⦄ → List Edge → List ℕ
same_polarity_intervals F ⦃st⦄ edges =
    if ltb (length edges) 2
    then []
    else st.sort (gaps (edges_to true edges) ++ gaps (edges_to false edges))

module _ {F : Type 0} ⦃fl : Float F⦄ where
  -- The period of a cell that starts at `start`: `nan`, here `none`, without a later start.
  abbrev pub period_ns : F → ℕ → List ℕ → Option F
  period_ns sample_ns start [] = none
  period_ns sample_ns start (next ∷ later) = some (fl.mul (fl.of_ℕ (next - start)) sample_ns)

  -- The loop of `pulse_cells_ns` over the rising edges.
  unfoldable pub cells_of : F → Channel → List ℕ → List (F × Option F)
  cells_of sample_ns channel [] = []
  cells_of sample_ns channel (start ∷ rising_idxs) =
      (
        fl.mul (fl.of_ℕ (run_length true (drop start channel))) sample_ns,
        period_ns sample_ns start rising_idxs,
      )
      ∷ cells_of sample_ns channel rising_idxs

  abbrev pub nanoseconds : ℕ → F
  nanoseconds samplerate_hz = fl.div (fl.of_ℕ 1000000000) (fl.of_ℕ samplerate_hz)

  module _ ⦃np : Numpy⦄ where
    unfoldable pub pulse_cells_ns : Channel → ℕ → List (F × Option F)
    unfolding cells_of
    pulse_cells_ns channel samplerate_hz =
        cells_of (nanoseconds samplerate_hz) channel (edges_to true (extract_edges channel))

    unfoldable pub high_pulse_durations_ns : Channel → ℕ → List F
    unfolding pulse_cells_ns
    high_pulse_durations_ns channel samplerate_hz =
        map (λ cell. cell.0) (pulse_cells_ns channel samplerate_hz)

-- An independent description: a high pulse goes from its rising edge to the next edge, or to the end of a
-- channel of `n` samples.
abbrev pub next_index : ℕ → List Edge → ℕ
next_index n [] = n
next_index n ((idx, polarity) ∷ edges) = idx

unfoldable pub high_pulses : ℕ → List Edge → List ℕ
high_pulses n [] = []
high_pulses n ((idx, true) ∷ edges) = (next_index n edges - idx) ∷ high_pulses n edges
high_pulses n ((idx, false) ∷ edges) = high_pulses n edges
