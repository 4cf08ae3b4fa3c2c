-- ===== src/Measure/Uart.antt =====
-- src/slidko/measure/uart.py: the baud of a serial line.
use slidko.Prelude.{
  ℕ, ◌+◌, max, String, Bool, not, ◌&&◌, Option, none, some, List, [], ◌∷◌, ◌++◌, map, ltb,
  if◌then◌else◌, bit, length, drop, count_if, Float, float_max, unit_clamp,
}
use slidko.Numpy.{Numpy, Statistics}
use slidko.Measure.Best.{min_by}
use slidko.Measure.Edges.{Edge, Channel, extract_edges, minimum, run_length}
use slidko.Measure.Edges.Pulses.{inter_edge_intervals, edges_to}
pub mod Laws

abbrev pub standard_bauds : List ℕ
standard_bauds =
    110 ∷ 300 ∷ 600 ∷ 1200 ∷ 2400 ∷ 4800 ∷ 9600 ∷ 14400 ∷ 19200 ∷ 28800 ∷ 38400 ∷ 57600 ∷ 76800
    ∷ 115200 ∷ 230400 ∷ 250000 ∷ 460800 ∷ 500000 ∷ 921600 ∷ 1000000 ∷ []

abbrev pub sbus_baud : ℕ
sbus_baud = 100000

pub record Frame (F : Type 0) : Type 0 where
  pub data_bits : ℕ
  pub parity : String
  pub stop_bits : F

pub record BaudEstimate (F : Type 0) : Type 0 where
  pub baud : ℕ
  pub frame : Frame F
  pub confidence : F
  pub idle_high : Bool

unfoldable pub detect_idle_level : (F : Type 0) ⦃fl : Float F⦄ ⦃st : Statistics F⦄ → Channel → Bool
detect_idle_level F ⦃fl⦄ ⦃st⦄ channel =
    fl.lt (fl.decimal 5 1) (st.mean (map (λ b. fl.of_ℕ (bit b)) channel))

module _ {F : Type 0} ⦃fl : Float F⦄ where
  abbrev pub sbus_frame : Frame F
  sbus_frame = record { data_bits = 8; parity = "even"; stop_bits = fl.decimal 20 1 }

  abbrev pub default_frame : Frame F
  default_frame = record { data_bits = 8; parity = "none"; stop_bits = fl.decimal 10 1 }

  abbrev baud_snap_tolerance : F
  baud_snap_tolerance = fl.decimal 3 2

  abbrev framing_error_tolerance : F
  framing_error_tolerance = fl.decimal 15 2

  -- An interval over the number of bit periods that it is nearest to.
  abbrev pub bit_of : F → ℕ → F
  bit_of candidate interval =
      let multiple = max 1 (fl.round (fl.div (fl.of_ℕ interval) candidate)) in
      fl.div (fl.of_ℕ interval) (fl.of_ℕ multiple)

  module _ ⦃st : Statistics F⦄ where
    abbrev pub period_of : List ℕ → Option F
    period_of [] = none
    period_of (i ∷ intervals) =
        let candidate = fl.of_ℕ (minimum i intervals) in
        if fl.le candidate (fl.of_ℕ 0)
        then none
        else some (st.mean (map (bit_of candidate) (i ∷ intervals)))

    unfoldable pub estimate_bit_period : List Edge → Option F
    estimate_bit_period edges = period_of (inter_edge_intervals edges)

  -- The candidates in order: the table, then the exception.
  abbrev pub candidates : List (ℕ × Frame F)
  candidates = map (λ b. (b, default_frame)) standard_bauds ++ (sbus_baud, sbus_frame) ∷ []

  abbrev pub relative_error : F → ℕ → F
  relative_error raw_baud baud = fl.div (fl.abs (fl.sub (fl.of_ℕ baud) raw_baud)) (fl.of_ℕ baud)

  unfoldable pub snap_to_baud_table : F → (ℕ × Frame F) × F
  snap_to_baud_table raw_baud =
      let best =
        min_by (λ c. relative_error raw_baud c.0) (110, default_frame) (drop 1 candidates) in
      (best, relative_error raw_baud best.0)

  -- Whether the run of `run_len` samples is nearly a whole number of bits.
  abbrev is_framed : F → ℕ → Bool
  is_framed bit_period run_len =
      let nearest_multiple = fl.round (fl.div (fl.of_ℕ run_len) bit_period) in
      let err =
        fl.div (fl.abs (fl.sub (fl.of_ℕ run_len) (fl.mul (fl.of_ℕ nearest_multiple) bit_period)))
          bit_period in
      not (ltb nearest_multiple 1) && fl.lt err framing_error_tolerance

  abbrev framing_score : F → Bool → Channel → List ℕ → F
  framing_score bit_period active_level channel [] = fl.of_ℕ 0
  framing_score bit_period active_level channel (d ∷ departures) =
      let scored =
        count_if (λ start. is_framed bit_period (run_length active_level (drop start channel)))
          (d ∷ departures) in
      fl.div (fl.of_ℕ scored) (fl.of_ℕ (length (d ∷ departures)))

  unfoldable pub check_start_bit_framing : Channel → List Edge → F → Bool → F
  check_start_bit_framing channel edges bit_period idle_high =
      let active_level = not idle_high in
      if fl.le bit_period (fl.of_ℕ 0)
      then fl.of_ℕ 0
      else framing_score bit_period active_level channel (edges_to active_level edges)

  abbrev no_baud : Bool → BaudEstimate F
  no_baud idle_high = record {
    baud = 0;
    frame = default_frame;
    confidence = fl.of_ℕ 0;
    idle_high = idle_high;
  }

  -- `max(0.0, 1.0 - rel_error / tolerance)`
  abbrev pub snap_confidence : F → F → F
  snap_confidence rel_error tolerance =
      float_max (fl.of_ℕ 0) (fl.sub (fl.of_ℕ 1) (fl.div rel_error tolerance))

  module _ ⦃np : Numpy⦄ ⦃st : Statistics F⦄ where
    -- What follows the estimate of the bit period.
    unfoldable pub baud_of : Channel → ℕ → Bool → Option F → BaudEstimate F
    baud_of channel samplerate_hz idle_high none = no_baud idle_high
    baud_of channel samplerate_hz idle_high (some bit_period) =
        let (best, rel_error) = snap_to_baud_table (fl.div (fl.of_ℕ samplerate_hz) bit_period) in
        let framing =
          check_start_bit_framing channel (extract_edges channel) bit_period idle_high in
        let half = fl.decimal 5 1 in
        if fl.le bit_period (fl.of_ℕ 0) then no_baud idle_high else record {
          baud = best.0;
          frame = best.1;
          confidence = unit_clamp (
              fl.mul (snap_confidence rel_error baud_snap_tolerance)
                (fl.add half (fl.mul half framing)));
          idle_high = idle_high;
        }

    unfoldable pub infer_uart : Channel → ℕ → BaudEstimate F
    unfolding baud_of
    infer_uart channel samplerate_hz =
        baud_of channel samplerate_hz (detect_idle_level F channel)
          (estimate_bit_period (extract_edges channel))
