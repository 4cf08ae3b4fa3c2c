-- ===== src/Measure/Recognize.antt =====
-- Signatures of one channel, recognised but not decoded: src/slidko/measure/ws2812.py, pwm.py, can.py and
-- analog_video.py.
use slidko.Prelude.{
  ℕ, ◌+◌, ◌-◌, Bool, false, ◌||◌, Option, none, some, List, [], ◌∷◌, ◌++◌, map, ltb, leb, ◌==◌,
  if◌then◌else◌, length, drop, count_if, Float, unit_clamp, is_between,
}
use slidko.Numpy.{Numpy, Statistics}
use slidko.Measure.Best.{min_by}
use slidko.Measure.Edges.{Channel, extract_edges, as_int, gaps}
use slidko.Measure.Edges.Pulses.{high_pulse_durations_ns, same_polarity_intervals}
use slidko.Measure.Intervals.{estimate_dominant_period}
use slidko.Measure.Smoke.Finding.{ws2812_t0h_ns, ws2812_t1h_ns, ws2812_window_ns}
use slidko.Measure.Uart.{estimate_bit_period, relative_error, snap_confidence}

abbrev pub standard_can_bitrates : List ℕ
standard_can_bitrates = 125000 ∷ 250000 ∷ 500000 ∷ 1000000 ∷ []

abbrev pub max_legal_run_bits : ℕ
max_legal_run_bits = 5

module _ {F : Type 0} ⦃fl : Float F⦄ where
  abbrev nothing : Bool × F
  nothing = (false, fl.of_ℕ 0)

  abbrev verdict : F → F → Bool × F
  verdict threshold confidence = (fl.le threshold confidence, confidence)

  -- The share of a list that passes a test.
  abbrev share : (F → Bool) → List F → F
  share p xs = fl.div (fl.of_ℕ (count_if p xs)) (fl.of_ℕ (length xs))

  -- `WS2812_T0H_NS - WS2812_WINDOW_NS <= d <= WS2812_T0H_NS + WS2812_WINDOW_NS`, or about T1H.
  unfoldable pub is_ws2812_pulse : F → Bool
  is_ws2812_pulse d =
      is_between (fl.of_ℕ (ws2812_t0h_ns - ws2812_window_ns))
        (fl.of_ℕ (ws2812_t0h_ns + ws2812_window_ns)) d
      || is_between (fl.of_ℕ (ws2812_t1h_ns - ws2812_window_ns))
          (fl.of_ℕ (ws2812_t1h_ns + ws2812_window_ns)) d

  abbrev ws2812_of : List F → Bool × F
  ws2812_of [] = nothing
  ws2812_of (d ∷ durations_ns) = verdict (fl.decimal 9 1) (share is_ws2812_pulse (d ∷ durations_ns))

  unfoldable pub is_servo_pulse : F → Bool
  is_servo_pulse d =
      is_between (fl.decimal 7000 1) (fl.decimal 23000 1) (fl.div d (fl.decimal 10000 1))

  unfoldable pub is_servo_rate : F → Bool
  is_servo_rate freq_hz = is_between (fl.decimal 400 1) (fl.decimal 5000 1) freq_hz

  abbrev pwm_of : F → List F → Bool × F
  pwm_of freq_hz durations_ns =
      if is_servo_rate freq_hz
      then verdict (fl.decimal 9 1) (share is_servo_pulse durations_ns)
      else nothing

  -- The bitrate that is relatively nearest.
  unfoldable pub nearest_bitrate : F → ℕ
  nearest_bitrate raw_bitrate =
      min_by (relative_error raw_bitrate) 125000 (drop 1 standard_can_bitrates)

  -- `round((end - start) / bit_period)` of neighbouring boundaries.
  abbrev run_lengths : F → List ℕ → List ℕ
  run_lengths bit_period boundaries =
      map (λ n. fl.round (fl.div (fl.of_ℕ n) bit_period)) (gaps boundaries)

  abbrev stuffing_confidence : List ℕ → F
  stuffing_confidence [] = fl.of_ℕ 0
  stuffing_confidence (r ∷ runs) =
      let legal = count_if (λ n. leb n max_legal_run_bits) (r ∷ runs) in
      fl.div (fl.of_ℕ legal) (fl.of_ℕ (length (r ∷ runs)))

  module _ ⦃np : Numpy⦄ where
    unfoldable pub run_lengths_in_bits : Channel → F → List ℕ
    run_lengths_in_bits channel bit_period =
        let change_idx = map (λ i. i + 1) (np.flatnonzero (np.diff (as_int channel))) in
        if length channel == 0 || fl.le bit_period (fl.of_ℕ 0)
        then []
        else run_lengths bit_period (0 ∷ (change_idx ++ length channel ∷ []))

    abbrev can_of : Channel → ℕ → Option F → Bool × F × Option ℕ
    can_of channel samplerate_hz none = (false, fl.of_ℕ 0, none)
    can_of channel samplerate_hz (some bit_period) =
        let raw_bitrate = fl.div (fl.of_ℕ samplerate_hz) bit_period in
        let bitrate = nearest_bitrate raw_bitrate in
        let confidence = unit_clamp (
          fl.mul (snap_confidence (relative_error raw_bitrate bitrate) (fl.decimal 5 2))
            (stuffing_confidence (run_lengths_in_bits channel bit_period))) in
        if fl.le bit_period (fl.of_ℕ 0)
        then (false, fl.of_ℕ 0, none)
        else (fl.le (fl.decimal 7 1) confidence, confidence, some bitrate)

  -- `abs(f - freq_hz) / f`
  abbrev line_error : F → F → F
  line_error freq_hz f = fl.div (fl.abs (fl.sub f freq_hz)) f

  -- A line rate of NTSC or PAL, for a period and its strength.
  abbrev video_of : ℕ → F × F → Bool × F
  video_of samplerate_hz (period_samples, strength) =
      let freq_hz = fl.div (fl.of_ℕ samplerate_hz) period_samples in
      let nearest = min_by (line_error freq_hz) (fl.decimal 1573426 2) (fl.decimal 156250 1 ∷ []) in
      let rel_error = line_error freq_hz nearest in
      let tolerance = fl.decimal 2 2 in
      let confidence =
        unit_clamp (fl.mul strength (fl.sub (fl.of_ℕ 1) (fl.div rel_error tolerance))) in
      if fl.le period_samples (fl.of_ℕ 0) || fl.le strength (fl.of_ℕ 0)
      then nothing
      else if fl.lt tolerance rel_error
      then nothing
      else verdict (fl.decimal 5 1) confidence

  module _ ⦃np : Numpy⦄ ⦃st : Statistics F⦄ where
    unfoldable pub recognize_ws2812 : Channel → ℕ → Bool × F
    recognize_ws2812 channel samplerate_hz =
        ws2812_of (high_pulse_durations_ns channel samplerate_hz)

    unfoldable pub recognize_pwm : Channel → ℕ → Bool × F
    recognize_pwm channel samplerate_hz =
        let edges = extract_edges channel in
        let periods = same_polarity_intervals F edges in
        let durations_ns : List F = high_pulse_durations_ns channel samplerate_hz in
        let freq_hz = fl.div (fl.of_ℕ samplerate_hz) (st.median (map (λ n. fl.of_ℕ n) periods)) in
        if ltb (length edges) 2
        then nothing
        else if length periods == 0 || length durations_ns == 0
        then nothing
        else pwm_of freq_hz durations_ns

    -- The body of `can.estimate_bit_period` is that of `uart.estimate_bit_period`.
    unfoldable pub recognize_can : Channel → ℕ → Bool × F × Option ℕ
    recognize_can channel samplerate_hz =
        can_of channel samplerate_hz (estimate_bit_period (extract_edges channel))

    unfoldable pub recognize_video : Channel → ℕ → Bool × F
    recognize_video channel samplerate_hz =
        video_of samplerate_hz (estimate_dominant_period channel none)
