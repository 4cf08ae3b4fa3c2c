-- ===== src/Measure/Smoke/Timing.antt =====
-- `detect_ws2812_timing`: times between two edges that are outside both datasheet windows.
use slidko.Prelude.{
  ℕ, ◌+◌, ◌-◌, String, concat, ◌≡◌, refl, ap, inl, inr, Bool, false, not, ◌&&◌, ◌||◌, List, [], ◌∷◌,
  map, arith, ltb, if◌then◌else◌, Bool-cases, length, select, show, Float,
}
use slidko.Decode.Backend.{Value, int, float}
use slidko.Measure.Edges.{Edge, indices}
use slidko.Measure.Smoke.Finding.{SmokeFinding, ws2812_t0h_ns, ws2812_t1h_ns, ws2812_window_ns}

module _ {F : Type 0} ⦃fl : Float F⦄ where
  -- 1e9 / samplerate_hz
  abbrev pub sample_ns : F → F
  sample_ns samplerate_hz = fl.div (fl.of_ℕ 1_000_000_000) samplerate_hz

  -- `nominal - window <= high <= nominal + window`, in samples.
  unfoldable pub in_window : F → ℕ → ℕ → Bool
  in_window samplerate_hz nominal_ns high =
      let nominal = fl.div (fl.of_ℕ nominal_ns) (sample_ns samplerate_hz) in
      let window = fl.div (fl.of_ℕ ws2812_window_ns) (sample_ns samplerate_hz) in
      fl.le (fl.sub nominal window) (fl.of_ℕ high) && fl.le (fl.of_ℕ high) (fl.add nominal window)

  unfoldable pub is_valid_bit : F → ℕ → Bool
  unfolding in_window
  is_valid_bit samplerate_hz high =
      in_window samplerate_hz ws2812_t0h_ns high || in_window samplerate_hz ws2812_t1h_ns high

  unfoldable pub timing_finding : F → String → ℕ → ℕ → ℕ → SmokeFinding F
  timing_finding samplerate_hz channel bit_index rise_idx fall_idx =
      let high = fall_idx - rise_idx in
      let high_ns = fl.mul (fl.of_ℕ high) (sample_ns samplerate_hz) in
      record {
        check = "timing_violation";
        channel = channel;
        start_sample = rise_idx;
        end_sample = fall_idx;
        severity = "smoke";
        summary = concat "WS2812 bit " (
            concat (show bit_index) (
              concat ": high time " (
                concat (fl.fixed 0 high_ns) (
                  concat " ns outside T0H/T1H +/-"
                    (concat (show ws2812_window_ns) " ns windows")))));
        escalation =
            "smoke → scope: capture this line with an oscilloscope; expect a marginal WS2812 timing/level issue";
        evidence =
            ("bit_index", int bit_index)
            ∷ ("high_samples", int high)
            ∷ ("high_ns", float high_ns)
            ∷ [];
      }

  -- The `for` over the bits: each is two indices, and an odd one at the end is left over.
  unfoldable pub timing_scan : F → String → ℕ → List ℕ → List (SmokeFinding F)
  timing_scan samplerate_hz channel bit_index [] = []
  timing_scan samplerate_hz channel bit_index (a ∷ []) = []
  timing_scan samplerate_hz channel bit_index (rise_idx ∷ fall_idx ∷ idxs) =
      let rest = timing_scan samplerate_hz channel (bit_index + 1) idxs in
      if is_valid_bit samplerate_hz (fall_idx - rise_idx)
      then rest
      else timing_finding samplerate_hz channel bit_index rise_idx fall_idx ∷ rest

  unfoldable pub detect_ws2812_timing : List Edge → F → String → List (SmokeFinding F)
  unfolding timing_scan is_valid_bit timing_finding
  detect_ws2812_timing edges samplerate_hz channel =
      if ltb (length edges) 2 then [] else timing_scan samplerate_hz channel 0 (indices edges)

-- The bits of a list of edges: an index, and the positions of two edges.
abbrev pub bits_from : ℕ → List ℕ → List (ℕ × ℕ × ℕ)
bits_from bit_index [] = []
bits_from bit_index (a ∷ []) = []
bits_from bit_index (a ∷ b ∷ idxs) = (bit_index, a, b) ∷ bits_from (bit_index + 1) idxs

-- Where a finding is, and what it reports.
abbrev pub report_of : {F : Type 0} → SmokeFinding F → ℕ × ℕ × List (String × Value F)
report_of f = (f.start_sample, f.end_sample, f.evidence)

module _ {F : Type 0} ⦃fl : Float F⦄ (samplerate_hz : F) where
  -- At most 150 ns from a nominal time, all in samples.
  abbrev pub is_close_to : ℕ → ℕ → Bool
  is_close_to nominal_ns high =
      let ns = fl.div (fl.of_ℕ 1_000_000_000) samplerate_hz in
      let tolerance = fl.div (fl.of_ℕ 150) ns in
      fl.le (fl.sub (fl.div (fl.of_ℕ nominal_ns) ns) tolerance) (fl.of_ℕ high)
      && fl.le (fl.of_ℕ high) (fl.add (fl.div (fl.of_ℕ nominal_ns) ns) tolerance)

  -- Neither a 0 of 400 ns nor a 1 of 800 ns.
  abbrev pub is_violation : ℕ × ℕ × ℕ → Bool
  is_violation (bit_index, a, b) = not (is_close_to 400 (b - a) || is_close_to 800 (b - a))

  -- The report on a bit: its two edges, its index, and the time between them in samples and in nanoseconds.
  abbrev pub bit_report : ℕ × ℕ × ℕ → ℕ × ℕ × List (String × Value F)
  bit_report (bit_index, a, b) = (
    a,
    b,
    ("bit_index", int bit_index)
        ∷ ("high_samples", int (b - a))
        ∷ (
          "high_ns",
          float (fl.mul (fl.of_ℕ (b - a)) (fl.div (fl.of_ℕ 1_000_000_000) samplerate_hz)),
        )
        ∷ [],
  )

  timing_scan-violations :
      (channel : String) (bit_index : ℕ) (idxs : List ℕ)
      → map report_of (timing_scan samplerate_hz channel bit_index idxs)
        ≡ map bit_report (select is_violation (bits_from bit_index idxs))
  unfolding timing_scan timing_finding is_valid_bit in_window
  timing_scan-violations channel bit_index [] = refl
  timing_scan-violations channel bit_index (a ∷ []) = refl
  timing_scan-violations channel bit_index (a ∷ b ∷ idxs) =
      let rest = timing_scan-violations channel (bit_index + 1) idxs in
      elim (Bool-cases (is_close_to 400 (b - a) || is_close_to 800 (b - a))) [
        | inl y ↦ rw y rest
        | inr n ↦ rw n (ap (◌∷◌ (bit_report (bit_index, a, b))) rest)
      ]

  -- Taken two by two from the first one on, the edges are bits. The WS2812 check reports, in order, exactly the bits whose two
  -- edges are neither 400 ns nor 800 ns apart, to 150 ns, with the positions of the edges, the index of the bit and the time
  -- between the edges as the evidence.
  pub detect_ws2812_timing-violations :
      (edges : List Edge) (channel : String)
      → map report_of (detect_ws2812_timing edges samplerate_hz channel)
        ≡ map bit_report (select is_violation (bits_from 0 (indices edges)))
  unfolding detect_ws2812_timing
  detect_ws2812_timing-violations [] channel = refl
  detect_ws2812_timing-violations (e ∷ []) channel = refl
  detect_ws2812_timing-violations (e ∷ e' ∷ edges) channel =
      rw long (timing_scan-violations channel 0 (indices (e ∷ e' ∷ edges)))
    where
      long : ltb (length (e ∷ e' ∷ edges)) 2 ≡ false
      long = ground arith
