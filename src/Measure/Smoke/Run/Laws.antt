-- ===== src/Measure/Smoke/Run/Laws.antt =====
-- Why each finding of `run_smoke` may be there.
use slidko.Prelude.{
  ℕ, zero, suc, ◌+◌, ◌-◌, String, ◌≡◌, refl, inl, inr, Bool, true, false, not, ◌&&◌, ◌||◌, Option,
  none, some, List, [], ◌∷◌, ◌++◌, map, ltb, leb, ◌==◌, if◌then◌else◌, Bool-cases, length, drop,
  select, All, All-if, All-append, text_mem, Float,
}
use slidko.Numpy.{Numpy, Statistics}
use slidko.Result.{ok, ◌>>=◌, require, Holds, Holds-bind, Holds-if, Holds-any, Holds-ok}
use slidko.Capture.{Capture}
use slidko.Decode.Events.{DecodedEvent, kind_is}
use slidko.Decode.Backend.{ProtocolHypothesis}
use slidko.Measure.Edges.{Edge, Channel, extract_edges, indices, gaps}
use slidko.Measure.Smoke.Finding.{
  SmokeFinding, chatter_fraction, chatter_min_edges, runt_max_samples, incoherence_frame_err_rate,
}
use slidko.Measure.Smoke.Chatter.{
  is_short, short_run, chatter_loop, chatter_finding, detect_edge_chatter,
}
use slidko.Measure.Smoke.Runt.{runt_finding, runt_scan, detect_runt_pulses}
use slidko.Measure.Smoke.Timing.{is_valid_bit, timing_scan, timing_finding, detect_ws2812_timing}
use slidko.Measure.Smoke.Incoherence.{
  get_channel, is_bad_frame, needs_address, orphan_finding, orphan_scan, framing_finding,
  detect_i2c_orphan_incoherence, detect_uart_framing_incoherence, detect_incoherence,
}
use slidko.Measure.Smoke.Run.Lines.{
  IsChatterLine, IsDecodedLine, captured_names, eligible-IsChatterLine, text_mem-All,
}
use slidko.Measure.Smoke.Run.{
  protocol_is, chatter_eligible_channels, channel_t_bit, smoke_channels, smoke_timing,
  decoded_findings, run_smoke,
}

-- The checks that may give a finding: a runt on a channel of the capture, chatter on a channel of the capture whose rate is
-- known, a timing violation for WS2812 on an assigned channel, incoherence on a decoded line if there are decoded events.
pub data IsJustified {F : Type 0} (capture : Capture F) (h : ProtocolHypothesis F)
    (events : Option (List DecodedEvent)) (f : SmokeFinding F) : Type 0 where
  runt :
      f.check ≡ "runt_pulse"
      → text_mem f.channel (captured_names capture) ≡ true
      → IsJustified capture h events f
  chatter :
      f.check ≡ "edge_chatter"
      → text_mem f.channel (captured_names capture) ≡ true
      → IsChatterLine h f.channel
      → IsJustified capture h events f
  timing :
      f.check ≡ "timing_violation"
      → protocol_is "ws2812" h ≡ true
      → text_mem f.channel (map (λ a. a.1) h.channel_assignments) ≡ true
      → IsJustified capture h events f
  incoherence :
      (es : List DecodedEvent)
      → f.check ≡ "protocol_incoherence"
      → events ≡ some es
      → IsDecodedLine h f.channel
      → IsJustified capture h events f

chatter_loop-All {ℓ κ} :
    {A : Type ℓ} (P : A → Type κ) (short : ℕ → Bool) (report : ℕ → ℕ → A)
    → ((i c : ℕ) → P (report i c))
    → (fuel i : ℕ) (rest : List ℕ) → All P (chatter_loop short report fuel i rest)
unfolding chatter_loop
chatter_loop-All P short report p zero i rest = tt
chatter_loop-All P short report p (suc fuel) i [] = tt
chatter_loop-All P short report p (suc fuel) i (x ∷ xs) =
    let count = suc (short_run short xs) in
    let skipped = chatter_loop-All P short report p fuel (i + count) (drop count (x ∷ xs)) in
    All-if P (short x) _ _ (All-if P (leb chatter_min_edges count) _ _ (p i count, skipped) skipped)
      (chatter_loop-All P short report p fuel (i + 1) xs)

module _ {F : Type 0} ⦃fl : Float F⦄ (capture : Capture F) (h : ProtocolHypothesis F)
    (events : Option (List DecodedEvent)) where
  abbrev Justified : List (SmokeFinding F) → Type 0
  Justified = All (IsJustified capture h events)

  runts-Justified :
      (name : String) (idxs : List ℕ)
      → text_mem name (captured_names capture) ≡ true
      → Justified (runt_scan name idxs)
  unfolding runt_scan runt_finding
  runts-Justified name [] m = tt
  runts-Justified name (a ∷ []) m = tt
  runts-Justified name (a ∷ b ∷ idxs) m =
      let rest = runts-Justified name (b ∷ idxs) m in
      All-if _ (leb (b - a) runt_max_samples) _ _ (IsJustified.runt refl m, rest) rest

  detect_runt_pulses-Justified :
      (edges : List Edge) (name : String)
      → text_mem name (captured_names capture) ≡ true
      → Justified (detect_runt_pulses edges name)
  unfolding detect_runt_pulses
  detect_runt_pulses-Justified edges name m =
      All-if _ (ltb (length edges) 2) _ _ tt (runts-Justified name (indices edges) m)

  detect_edge_chatter-Justified :
      (edges : List Edge) (t_bit : F) (name : String)
      → text_mem name (captured_names capture) ≡ true
      → IsChatterLine h name
      → Justified (detect_edge_chatter edges t_bit name)
  unfolding detect_edge_chatter
  detect_edge_chatter-Justified edges t_bit name m line =
      All-if _ (ltb (length edges) 2 || fl.le t_bit (fl.of_ℕ 0)) _ _ tt (
        chatter_loop-All (IsJustified capture h events) (is_short threshold)
          (chatter_finding name threshold (indices edges) intervals)
          (λ i c. unfold chatter_finding in IsJustified.chatter refl m line) (length intervals) 0
          intervals)
    where
      threshold : F
      threshold = fl.mul chatter_fraction t_bit

      intervals : List ℕ
      intervals = gaps (indices edges)

  timing-Justified :
      (rate : F) (name : String) (i : ℕ) (idxs : List ℕ)
      → protocol_is "ws2812" h ≡ true
      → text_mem name (map (λ a. a.1) h.channel_assignments) ≡ true
      → Justified (timing_scan rate name i idxs)
  unfolding timing_scan timing_finding
  timing-Justified rate name i [] p m = tt
  timing-Justified rate name i (a ∷ []) p m = tt
  timing-Justified rate name i (a ∷ b ∷ idxs) p m =
      let rest = timing-Justified rate name (i + 1) idxs p m in
      All-if _ (is_valid_bit rate (b - a)) _ _ rest (IsJustified.timing refl p m, rest)

  detect_ws2812_timing-Justified :
      (edges : List Edge) (rate : F) (name : String)
      → protocol_is "ws2812" h ≡ true
      → text_mem name (map (λ a. a.1) h.channel_assignments) ≡ true
      → Justified (detect_ws2812_timing edges rate name)
  unfolding detect_ws2812_timing
  detect_ws2812_timing-Justified edges rate name p m =
      All-if _ (ltb (length edges) 2) _ _ tt (timing-Justified rate name 0 (indices edges) p m)

  module _ (es : List DecodedEvent) (given : events ≡ some es) where
    orphans-Justified :
        (name : String) (addressed : Bool) (rest : List DecodedEvent)
        → IsDecodedLine h name
        → Justified (orphan_scan name addressed rest)
    unfolding orphan_scan orphan_finding
    orphans-Justified name addressed [] line = tt
    orphans-Justified name addressed (e ∷ rest) line =
        let tail =
          orphans-Justified name
            (if kind_is "i2c.start" e
              then false
              else if kind_is "i2c.address" e
              then true
              else if kind_is "i2c.stop" e
              then false
              else addressed)
            rest line in
        All-if _ (kind_is "i2c.start" e) _ _ tail (
          All-if _ (kind_is "i2c.address" e) _ _ tail (
            All-if _ (kind_is "i2c.stop" e) _ _ tail (
              All-if _ (needs_address e && not addressed) _ _
                (IsJustified.incoherence es refl given line, tail) tail)))

    framing-Justified :
        (rest : List DecodedEvent)
        → protocol_is "uart" h ≡ true
        → Justified (detect_uart_framing_incoherence rest h)
    unfolding detect_uart_framing_incoherence framing_finding
    framing-Justified rest uart =
        let us = select (kind_is "uart.byte") rest in
        All-if _ (length us == 0) _ _ tt (
          All-if _
            (fl.le (fl.div (fl.of_ℕ (length (select is_bad_frame us))) (fl.of_ℕ (length us)))
              incoherence_frame_err_rate)
            _ _ tt (IsJustified.incoherence es refl given (inl (uart, refl)), tt))

    detect_incoherence-Justified :
        (rest : List DecodedEvent) → Justified (detect_incoherence rest h)
    unfolding detect_incoherence detect_i2c_orphan_incoherence
    detect_incoherence-Justified rest = elim (Bool-cases (protocol_is "uart" h)) [
      | inl uart ↦ rw uart (framing-Justified rest uart)
      | inr no_uart ↦ elim (Bool-cases (protocol_is "i2c" h)) [
        | inl i2c ↦
            rw (no_uart, i2c)
              (orphans-Justified (get_channel "sda" h.channel_assignments) false rest
                (inr (i2c, refl)))
        | inr no_i2c ↦ rw (no_uart, no_i2c) tt
      ]
    ]

  module _ ⦃np : Numpy⦄ ⦃st : Statistics F⦄ where
    smoke_channels-Justified :
        (rate : ℕ) (channels : List (String × Channel))
        → All (λ n. text_mem n (captured_names capture) ≡ true) (map (λ c. c.0) channels)
        → Holds Justified (smoke_channels rate h (chatter_eligible_channels h) channels)
    unfolding smoke_channels
    smoke_channels-Justified rate [] known = tt
    smoke_channels-Justified rate ((name, signal) ∷ channels) (here, known) =
        Holds-bind Justified Justified _ _ chatter λ cs cs-ok.
          Holds-bind Justified Justified _ _ (smoke_channels-Justified rate channels known)
            λ rest rest-ok.
              All-append _ (detect_runt_pulses (extract_edges signal) name) (cs ++ rest)
                (detect_runt_pulses-Justified (extract_edges signal) name here)
                (All-append _ cs rest cs-ok rest-ok)
      where
        chatter : Holds Justified (
            if text_mem name (chatter_eligible_channels h)
            then (do
              t_bit ← channel_t_bit name signal rate h
              ok (detect_edge_chatter (extract_edges signal) t_bit name))
            else ok [])
        chatter =
            Holds-if Justified (text_mem name (chatter_eligible_channels h)) _ _
              (λ m.
                Holds-bind (λ _. Unit {0}) Justified _ _
                  (Holds-any (channel_t_bit name signal rate h))
                  λ t_bit _.
                    detect_edge_chatter-Justified (extract_edges signal) t_bit name here
                      (eligible-IsChatterLine h name m))
              λ _. tt

    smoke_timing-Justified :
        (names : List String)
        → protocol_is "ws2812" h ≡ true
        → All (λ n. text_mem n (map (λ a. a.1) h.channel_assignments) ≡ true) names
        → Holds Justified (smoke_timing capture names)
    unfolding smoke_timing
    smoke_timing-Justified [] p known = tt
    smoke_timing-Justified (name ∷ names) p (here, known) =
        Holds-bind (λ _. Unit {0}) Justified _ _ (Holds-any (require name capture.channels))
          λ signal _.
            Holds-bind Justified Justified _ _ (smoke_timing-Justified names p known)
              λ rest rest-ok.
                All-append _ _ rest
                  (detect_ws2812_timing-Justified (extract_edges signal)
                    (fl.of_ℕ capture.samplerate_hz) name p here)
                  rest-ok

    decoded-Justified :
        (given : Option (List DecodedEvent)) → events ≡ given → Justified (decoded_findings h given)
    decoded-Justified none e = tt
    decoded-Justified (some es) e = detect_incoherence-Justified es e es

    -- Every finding that `run_smoke` returns is a runt on a channel of the capture; or chatter on a channel of the capture that
    -- is the line "rx" of a UART, "scl" of an I2C or "clk" of an SPI hypothesis or, under another protocol, any assigned
    -- channel; or a timing violation on an assigned channel under a WS2812 hypothesis; or, given decoded events, an
    -- incoherence on the line "rx" of a UART or "sda" of an I2C hypothesis.
    pub run_smoke-IsJustified :
        {fs : List (SmokeFinding F)}
        → run_smoke capture h events ≡ ok fs
        → All (IsJustified capture h events) fs
    unfolding run_smoke
    run_smoke-IsJustified e = Holds-ok Justified _ whole e
      where
        whole : Holds Justified (run_smoke capture h events)
        whole =
            Holds-bind Justified Justified _ _
              (smoke_channels-Justified capture.samplerate_hz capture.channels
                (text_mem-All (captured_names capture) _ (λ n m. m)))
              λ cs cs-ok.
                Holds-bind Justified Justified _ _
                  (Holds-if Justified (protocol_is "ws2812" h) _ _
                    (λ p. smoke_timing-Justified _ p (text_mem-All _ _ (λ n m. m))) λ _. tt)
                  λ ts ts-ok.
                    All-append _ cs _ cs-ok
                      (All-append _ ts _ ts-ok (decoded-Justified events refl))
