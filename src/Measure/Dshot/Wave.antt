-- ===== src/Measure/Dshot/Wave.antt =====
-- A frame on the line is read back: from the samples of its pulses to its value.
use slidko.Prelude.{
  ℕ, zero, suc, ◌+◌, ◌-◌, ◌/◌, ◌%◌, ◌<◌, ◌≡◌, refl, sym, ap, ◌∙◌, Bool, true, false, some, List, [],
  ◌∷◌, ◌++◌, map, arith, ltb, ◌==◌, length, take, replicate, length-append, length-map, Float,
}
use slidko.Measure.Edges.Pulses.{nanoseconds, high_pulses, high_pulse_durations_ns}
use slidko.Measure.Dshot.{Rate, is_long_pulse, frame_at, frame_of, decode_frame}
use slidko.Measure.Dshot.Laws.{high_first, frame_bits, frame_of-frame_bits}
use slidko.Numpy.{Numpy, NumpyLaws}
use slidko.Measure.Edges.{Channel}
use slidko.Measure.Edges.Laws.{edge_scan-replicate, edge_scan, extract_edges-scan}
use slidko.Measure.Edges.Durations.{high_pulse_durations_ns-high_pulses}

-- The samples of a pulse, beyond the first, and those of the gap after it.
pub record Shape : Type 0 where
  pub high : Bool → ℕ
  pub low : Bool → ℕ

module _ (shape : Shape) where
  -- A bit is a pulse and a gap, each of at least one sample.
  unfoldable pub pulses : List Bool → Channel
  pulses [] = []
  pulses (b ∷ bits) =
      true ∷ replicate (shape.high b) true ++ (false ∷ replicate (shape.low b) false ++ pulses bits)

high_pulses-pulses :
    (shape : Shape) (n i : ℕ) (bits : List Bool)
    → high_pulses n (edge_scan i false (pulses shape bits)) ≡ map (λ b. shape.high b + 1) bits
unfolding high_pulses edge_scan pulses
high_pulses-pulses shape n i [] = refl
high_pulses-pulses shape n i (b ∷ bits) =
    let gap =
      edge_scan-replicate (i + 1 + shape.high b + 1) (shape.low b) false (pulses shape bits) in
    let long : i + 1 + shape.high b - i ≡ shape.high b + 1 = omega arith in
    rw
      (
        edge_scan-replicate (i + 1) (shape.high b) true
            (false ∷ replicate (shape.low b) false ++ pulses shape bits),
        gap,
        long,
        high_pulses-pulses shape n (i + 1 + shape.high b + 1 + shape.low b) bits,
      )
      refl

length-high_first : (k n : ℕ) → length (high_first k n) ≡ k
unfolding high_first
length-high_first zero n = refl
length-high_first (suc k) n =
    length-append (high_first k (n / 2)) ((n % 2 == 1) ∷ [])
    ∙ let h = length-high_first k (n / 2) in omega arith

length-frame_bits : (value : ℕ) (telemetry : Bool) → length (frame_bits value telemetry) ≡ 16
unfolding frame_bits
length-frame_bits value telemetry = length-high_first 16 _

-- The first of two lists, when as many are taken and each is turned into itself.
take-told :
    {A : Type 0} (told : A → Bool) (as_sent : Bool → A) (bits more : List Bool)
    → ((b : Bool) → told (as_sent b) ≡ b)
    → map told (take (length bits) (map as_sent (bits ++ more))) ≡ bits
take-told told as_sent [] more h = refl
take-told told as_sent (b ∷ bits) more h = rw (h b, take-told told as_sent bits more h) refl

map-map :
    {A B C : Type 0} (f : A → B) (g : B → C) (xs : List A)
    → map g (map f xs) ≡ map (λ x. g (f x)) xs
map-map f g [] = refl
map-map f g (x ∷ xs) = ap (◌∷◌ (g (f x))) (map-map f g xs)

-- The signal: a low level, and then the pulses of the bits.
abbrev pub signal : Shape → ℕ → List Bool → Channel
signal shape idle bits = false ∷ replicate idle false ++ pulses shape bits

module _ (F : Type 0) ⦃fl : Float F⦄ ⦃np : Numpy⦄ where
  -- The pulse of a bit is long exactly for a one, at this rate.
  abbrev pub IsTold : Rate → Shape → ℕ → Bool → Type 0
  IsTold rate shape samplerate_hz b =
      is_long_pulse rate (fl.mul (fl.of_ℕ (shape.high b + 1)) (nanoseconds samplerate_hz)) ≡ b

  signal-durations :
      NumpyLaws np
      → (shape : Shape) (idle samplerate_hz : ℕ) (bits : List Bool)
      → high_pulse_durations_ns (signal shape idle bits) samplerate_hz
        ≡ map (λ b. fl.mul (fl.of_ℕ (shape.high b + 1)) (nanoseconds samplerate_hz)) bits
  signal-durations laws shape idle samplerate_hz bits =
      let n = length (signal shape idle bits) in
      let edges = extract_edges-scan laws false (replicate idle false ++ pulses shape bits) in
      let after_idle = edge_scan-replicate 1 idle false (pulses shape bits) in
      let ns = λ (n : ℕ). fl.mul (fl.of_ℕ n) (nanoseconds samplerate_hz) in
      high_pulse_durations_ns-high_pulses laws false (replicate idle false ++ pulses shape bits)
        samplerate_hz
      ∙ ap (λ e. map ns (high_pulses n e)) (edges ∙ after_idle)
      ∙ ap (map ns) (high_pulses-pulses shape n (1 + idle) bits)
      ∙ map-map (λ b. shape.high b + 1) ns bits

  frame_at-frame_of :
      (rate : Rate) (as_sent : Bool → F) (bits more : List Bool)
      → length bits ≡ 16
      → ((b : Bool) → is_long_pulse rate (as_sent b) ≡ b)
      → frame_at rate (map as_sent (bits ++ more)) ≡ frame_of bits
  frame_at-frame_of rate as_sent bits more size told =
      let enough : ltb (length (map as_sent (bits ++ more))) 16 ≡ false =
        let all = length-map as_sent (bits ++ more) in
        let both = length-append bits more in ground arith in
      let firsts : map (is_long_pulse rate) (take 16 (map as_sent (bits ++ more))) ≡ bits =
        ap (λ n. map (is_long_pulse rate) (take n (map as_sent (bits ++ more)))) (sym size)
        ∙ take-told (is_long_pulse rate) as_sent bits more told in
      rw (enough, firsts) refl

  -- A frame that is sent after a low level, with a value below 2048, a telemetry bit and the checksum of both, is decoded
  -- from the samples to that value and that bit, and its checksum is accepted, whatever bits follow it. Each bit is a
  -- pulse and a gap; the pulses of ones and of zeros are on their sides of the rate's threshold.
  pub decode_frame-signal :
      NumpyLaws np
      → (rate : Rate) (shape : Shape) (idle samplerate_hz value : ℕ) (telemetry : Bool)
        (more : List Bool)
      → value < 2048
      → ((b : Bool) → IsTold rate shape samplerate_hz b)
      → decode_frame F (signal shape idle (frame_bits value telemetry ++ more)) samplerate_hz rate
        ≡ (some value, telemetry, true)
  unfolding decode_frame
  decode_frame-signal laws rate shape idle samplerate_hz value telemetry more small told =
      let bits = frame_bits value telemetry in
      let as_sent = λ (b : Bool). fl.mul (fl.of_ℕ (shape.high b + 1)) (nanoseconds samplerate_hz) in
      ap (frame_at rate) (signal-durations laws shape idle samplerate_hz (bits ++ more))
      ∙ frame_at-frame_of rate as_sent bits more (length-frame_bits value telemetry) told
      ∙ frame_of-frame_bits value telemetry small
