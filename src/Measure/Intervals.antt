-- ===== src/Measure/Intervals.antt =====
-- src/slidko/measure/intervals.py: histograms of intervals, and the period of a channel by
-- autocorrelation. Edge positions increase. The operations on arrays of floats are `Statistics`.
use slidko.Prelude.{
  ℕ, zero, suc, ◌+◌, ◌-◌, ◌/◌, min, max, Option, none, some, List, [], ◌∷◌, map, ltb, ◌==◌,
  if◌then◌else◌, bit, length, get_or, take, drop, replicate, Float, pos,
}
use slidko.Numpy.{Numpy, Statistics}
use mathlib.Core.List.{reverse}
use slidko.Measure.Edges.{Channel, gaps, minimum, maximum}
pub mod Laws

-- `np.arange(start, stop, step)`, with as much fuel as the values may need.
unfoldable pub arange : ℕ → ℕ → ℕ → ℕ → List ℕ
arange zero start stop step = []
arange (suc fuel) start stop step =
    let rest = arange fuel (start + step) stop step in if ltb start stop then start ∷ rest else []

-- `bin_edges[:-1]`
abbrev pub but_last : List ℕ → List ℕ
but_last [] = []
but_last (x ∷ []) = []
but_last (x ∷ y ∷ xs) = x ∷ but_last (y ∷ xs)

-- The histogram of intervals with `np.histogram` as `count`.
abbrev histogram_of : (List ℕ → List ℕ → List ℕ) → List ℕ → ℕ → List ℕ × List ℕ
histogram_of count [] bin_width = ([], [])
histogram_of count (i ∷ intervals) bin_width =
    let lo = minimum i intervals in
    let hi = maximum i intervals in
    let bin_edges = arange (hi + bin_width) lo (hi + bin_width) bin_width in
    if lo == hi
    then (lo ∷ [], length (i ∷ intervals) ∷ [])
    else (but_last bin_edges, count (i ∷ intervals) bin_edges)

-- `max(1, min(max_lag, n - 1))`, with its default of half the signal.
abbrev pub lag_limit : ℕ → Option ℕ → ℕ
lag_limit n none = max 1 (min (n / 2) (n - 1))
lag_limit n (some max_lag) = max 1 (min max_lag (n - 1))

unfoldable pub compute_interval_histogram :
    (F : Type 0) ⦃st : Statistics F⦄ → List ℕ → ℕ → List ℕ × List ℕ
unfolding arange
compute_interval_histogram F ⦃st⦄ edges bin_width = histogram_of st.histogram (gaps edges) bin_width

module _ {F : Type 0} ⦃fl : Float F⦄ ⦃st : Statistics F⦄ where
  abbrev nothing : F × F
  nothing = (fl.of_ℕ 0, fl.of_ℕ 0)

  abbrev floats : List ℕ → List F
  floats = map (λ n. fl.of_ℕ n)

  abbrev peak_of : ℕ → ℕ → List ℕ × List ℕ → F × F
  peak_of bin_width count (bin_edges, []) = nothing
  peak_of bin_width count (bin_edges, (c ∷ counts)) =
      let peak_idx = st.argmax (floats (c ∷ counts)) in
      (
        fl.add (fl.of_ℕ (get_or bin_edges peak_idx 0)) (fl.div (fl.of_ℕ bin_width) (fl.of_ℕ 2)),
        fl.div (fl.of_ℕ (get_or (c ∷ counts) peak_idx 0)) (fl.of_ℕ count),
      )

  unfoldable pub dominant_interval : List ℕ → ℕ → F × F
  unfolding compute_interval_histogram
  dominant_interval edges bin_width =
      if ltb (length edges) 2
      then nothing
      else peak_of bin_width (length (gaps edges)) (compute_interval_histogram F edges bin_width)

  unfoldable pub estimate_period_from_intervals : List ℕ → Option F
  estimate_period_from_intervals edges =
      if ltb (length edges) 3 then none else some (st.median (floats (gaps edges)))

  unfoldable pub detect_square_wave_frequency : List ℕ → ℕ → Option F
  unfolding estimate_period_from_intervals
  detect_square_wave_frequency edges sample_rate_hz = elim (estimate_period_from_intervals edges) [
    | none ↦ none
    | some period ↦ some (fl.div (fl.of_ℕ sample_rate_hz) period)
  ]

  unfoldable pub normalized : ℕ → List F → List F
  normalized max_lag full =
      let zero_idx = length full / 2 in
      let ac0 = get_or full zero_idx (fl.of_ℕ 0) in
      if fl.le ac0 (fl.of_ℕ 0)
      then replicate (max_lag + 1) (fl.of_ℕ 0)
      else map (λ v. fl.div v ac0) (take (max_lag + 1) (drop zero_idx full))

  unfoldable pub compute_autocorrelation : Channel → Option ℕ → List F
  compute_autocorrelation signal max_lag =
      let n = length signal in
      let samples = map (λ b. fl.of_ℕ (bit b)) signal in
      let x = map (λ v. fl.sub v (st.mean samples)) samples in
      if ltb n 2 then [] else normalized (lag_limit n max_lag) (st.fftconvolve x (reverse x))

  module _ ⦃np : Numpy⦄ where
    abbrev pub peak_after : List F → ℕ → Option ℕ
    peak_after ac search_start =
        let search_region = drop search_start ac in
        if length search_region == 0 then none else some (search_start + st.argmax search_region)

    unfoldable pub first_peak : List F → List ℕ → Option ℕ
    first_peak ac [] = none
    first_peak ac (i ∷ recovering) = peak_after ac (i + 1)

    -- The lag of the peak after the first trough.
    unfoldable pub peak_lag : List F → Option ℕ
    peak_lag ac =
        let deriv = st.diff ac in
        if ltb (length ac) 3
        then none
        else first_peak ac (np.flatnonzero (map (λ d. pos (bit (fl.lt (fl.of_ℕ 0) d))) deriv))

    abbrev pub period_at : List F → Option ℕ → F × F
    period_at ac none = nothing
    period_at ac (some lag) =
        (fl.of_ℕ lag, st.clip (get_or ac lag (fl.of_ℕ 0)) (fl.of_ℕ 0) (fl.of_ℕ 1))

    unfoldable pub estimate_dominant_period : Channel → Option ℕ → F × F
    estimate_dominant_period signal max_lag =
        let ac = compute_autocorrelation signal max_lag in period_at ac (peak_lag ac)

    unfoldable pub periodicity_strength : Channel → Option ℕ → F
    periodicity_strength signal max_lag = (estimate_dominant_period signal max_lag).1
