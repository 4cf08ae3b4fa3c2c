-- ===== src/Examples/Discriminators.antt =====
-- Concrete inputs for the discriminators.
use slidko.Prelude.{
  ℕ, zero, suc, ◌*◌, ◌<◌, ◌≡◌, refl, ◌⊎◌, Bool, true, false, some, List, [], ◌∷◌, ◌++◌, map, arith,
  if◌then◌else◌, ltb→lt, lt→ltb, All,
}
use slidko.Prelude.Ratio.{Ratio, ratio, ratio_float}
use slidko.Numpy.{plain_numpy, plain_numpy-laws}
use slidko.Examples.Arrays.{plain_statistics}
use native.Mathlib.Nat.{lt_of_mul-lt-mul_left, mul-le-mul_right}
use slidko.Measure.Best.{LtIsTransitive, LtIsIrreflexive}
use slidko.Measure.Edges.{Channel, extract_edges}
use slidko.Measure.Edges.Pulses.{high_pulse_durations_ns, high_pulses, nanoseconds}
use slidko.Measure.Edges.Durations.{high_pulse_durations_ns-high_pulses}
use slidko.Measure.Uart.{BaudEstimate, infer_uart, estimate_bit_period}
use slidko.Measure.Uart.Laws.{IsNearest, infer_uart-IsNearest}
use slidko.Measure.Dshot.{dshot600, decode_frame}
use slidko.Measure.Dshot.Wave.{Shape, IsTold, signal, decode_frame-signal}
use slidko.Measure.Dshot.Laws.{frame_bits}
use slidko.Measure.Spi.{decode_bits}
use slidko.Measure.Spi.Laws.{Cycle, clock_wave, data_wave, decode_bits-wave}
use slidko.Measure.Classify.{Claim, Channels, names}
use slidko.Measure.Classify.Laws.{IsWithin, ArePairwiseApart}
use slidko.Measure.Whole.{classify_capture}
use slidko.Measure.Whole.Laws.{classify_capture-ArePairwiseApart}
use slidko.Measure.Whole.Adapts.{Adapts, classify_capture-Adapts}

pub ratio-LtIsIrreflexive : LtIsIrreflexive Ratio
ratio-LtIsIrreflexive a = ground arith

positive_factor : (m n k : ℕ) → m < n * k → 0 < k
positive_factor m n zero h = omega (arith, h)
positive_factor m n (suc k) h = omega arith

pub ratio-LtIsTransitive : LtIsTransitive Ratio
ratio-LtIsTransitive a b c h k =
    let ab = ltb→lt (a.num * b.den) (b.num * a.den) h in
    let bc = ltb→lt (b.num * c.den) (c.num * b.den) k in
    let positive = positive_factor (a.num * b.den) b.num a.den ab in
    let left = mul-le-mul_right c.den ab in
    let right = mul-le-mul_right a.den bc in
    let product : b.den * (a.num * c.den) < b.den * (c.num * a.den) = omega arith in
    lt→ltb (a.num * c.den) (c.num * a.den) (lt_of_mul-lt-mul_left b.den product)

abbrev line : Channel
line = true ∷ true ∷ false ∷ false ∷ true ∷ true ∷ true ∷ false ∷ true ∷ []

high_pulse_durations_ns-high_pulses_example :
    high_pulse_durations_ns {F = Ratio} (true ∷ line) 1000
    ≡ map
        (λ n. ratio_float.mul (ratio n 1) (nanoseconds 1000))
        (high_pulses 10 (extract_edges (true ∷ line)))
high_pulse_durations_ns-high_pulses_example =
    high_pulse_durations_ns-high_pulses plain_numpy-laws true line 1000

-- The pulse of three samples, and the one that the channel ends in.
high_pulses_runs : high_pulses 10 (extract_edges (true ∷ line)) ≡ 3 ∷ 1 ∷ []
unfolding high_pulses extract_edges
high_pulses_runs = refl

infer_uart-IsNearest_example :
    let estimate : BaudEstimate Ratio = infer_uart line 19200 in
    ((estimate.baud ≡ 0) × (estimate.confidence ≡ ratio 0 1))
    ⊎ ((p : Ratio) × (estimate_bit_period (extract_edges line) ≡ some p)
        × IsNearest (ratio_float.div (ratio 19200 1) p) (estimate.baud, estimate.frame))
infer_uart-IsNearest_example =
    infer_uart-IsNearest ratio-LtIsTransitive ratio-LtIsIrreflexive line 19200

abbrev cycles : List Cycle
cycles = ((true, true ∷ []), (false, [])) ∷ ((false, []), (true, false ∷ false ∷ [])) ∷ []

decode_bits-wave_example :
    decode_bits (true ∷ clock_wave true cycles) (false ∷ data_wave cycles) 1 1 ≡ false ∷ true ∷ []
decode_bits-wave_example = decode_bits-wave 1 1 false cycles

abbrev lines : Channels
lines = ("D0", line) ∷ ("D1", true ∷ false ∷ true ∷ false ∷ []) ∷ []

classify_capture-ArePairwiseApart_example :
    let claims : List (Claim Ratio) = classify_capture lines 19200 in
    ArePairwiseApart claims × All (IsWithin (names lines)) claims
classify_capture-ArePairwiseApart_example =
    classify_capture-ArePairwiseApart Ratio lines 19200 ((λ i. cc), ((λ i. cc), tt))

classify_capture-Adapts_example : All Adapts (classify_capture {F = Ratio} lines 19200)
classify_capture-Adapts_example = classify_capture-Adapts Ratio lines 19200

-- At 6 MHz and DSHOT600: a one is high for 7 of 10 samples, a zero for 3.
abbrev dshot_shape : Shape
dshot_shape = record { high = λ b. if b then 6 else 2; low = λ b. if b then 2 else 6 }

dshot_shape-IsTold : (b : Bool) → IsTold Ratio dshot600 dshot_shape 6000000 b
dshot_shape-IsTold true = refl
dshot_shape-IsTold false = refl

decode_frame-signal_example :
    decode_frame Ratio (signal dshot_shape 20 (frame_bits 1046 true ++ true ∷ [])) 6000000 dshot600
    ≡ (some 1046, true, true)
decode_frame-signal_example =
    decode_frame-signal Ratio plain_numpy-laws dshot600 dshot_shape 20 6000000 1046 true (true ∷ [])
      (omega arith) dshot_shape-IsTold
