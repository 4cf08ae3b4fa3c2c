-- ===== src/Examples/Smoke.antt =====
-- Concrete inputs for the smoke detector.
use slidko.Prelude.{
  ℕ, String, ◌≡◌, refl, true, false, none, some, List, [], ◌∷◌, map, arith, length, any, select,
  All, lower, is_empty,
}
use slidko.Prelude.Ratio.{Ratio, ratio, ratio_float}
use slidko.Numpy.{plain_numpy}
use slidko.Examples.Arrays.{plain_statistics}
use slidko.Result.{ok}
use slidko.Capture.{Capture}
use slidko.Measure.Edges.{Edge, indices, gaps, extract_edges}
use slidko.Decode.Events.{Payload, DecodedEvent, kind_is}
use slidko.Decode.Backend.{Value, ProtocolHypothesis}
use slidko.Measure.Smoke.Finding.{SmokeFinding, chatter_fraction}
use slidko.Measure.Smoke.Chatter.{
  is_short, chatter_finding, detect_edge_chatter, bursts, is_reported, detect_edge_chatter-bursts,
}
use slidko.Measure.Smoke.Timing.{
  detect_ws2812_timing, report_of, bit_report, is_violation, bits_from,
  detect_ws2812_timing-violations,
}
use slidko.Measure.Smoke.Runt.{
  detect_runt_pulses, neighbours, is_narrow, window, IsRunt, detect_runt_pulses_lem,
}
use slidko.Measure.Smoke.Incoherence.{
  is_bad_frame, get_channel, orphan_finding, detect_i2c_orphan_incoherence,
  detect_uart_framing_incoherence,
}
use slidko.Measure.Smoke.Incoherence.Laws.{
  orphans, IsVerdict, detect_i2c_orphan_incoherence-orphans, detect_uart_framing_incoherence_lem,
}
use slidko.Measure.Smoke.Run.{run_smoke}
use slidko.Measure.Smoke.Run.Laws.{IsJustified, run_smoke-IsJustified}

abbrev pub event : String → ℕ → ℕ → List (String × Payload) → DecodedEvent
event kind start_sample end_sample payload = record {
  kind = kind;
  start_sample = start_sample;
  end_sample = end_sample;
  payload = payload;
  channel = some "D0";
}

-- Eight edges, three of them closer than a quarter of the bit time of 40 samples.
abbrev noisy : List Edge
noisy =
    (10, true)
    ∷ (50, false)
    ∷ (55, true)
    ∷ (57, false)
    ∷ (60, true)
    ∷ (100, false)
    ∷ (140, true)
    ∷ (180, false)
    ∷ []

abbrev bit_time : Ratio
bit_time = ratio 40 1

detect_edge_chatter-bursts_example :
    let idxs = indices noisy in
    let threshold = ratio_float.mul chatter_fraction bit_time in
    detect_edge_chatter noisy bit_time "D0"
    ≡ map
        (λ b. chatter_finding "D0" threshold idxs (gaps idxs) b.0 b.1)
        (select is_reported (bursts 0 0 (map (is_short threshold) (gaps idxs))))
detect_edge_chatter-bursts_example =
    detect_edge_chatter-bursts noisy bit_time "D0" (omega arith) refl

detect_runt_pulses_example :
    (map window (detect_runt_pulses {F = Ratio} noisy "D0")
      ≡ select is_narrow (neighbours (indices noisy)))
    × All (IsRunt {F = Ratio} "D0") (detect_runt_pulses noisy "D0")
detect_runt_pulses_example = detect_runt_pulses_lem Ratio noisy "D0"

-- Three bits at 20 MHz: high for 8 samples (400 ns), for 16 (800 ns) and for 30 (1500 ns).
abbrev led_edges : List Edge
led_edges = (10, true) ∷ (18, false) ∷ (35, true) ∷ (51, false) ∷ (60, true) ∷ (90, false) ∷ []

abbrev led_rate : Ratio
led_rate = ratio 20_000_000 1

detect_ws2812_timing-violations_example :
    map report_of (detect_ws2812_timing led_edges led_rate "D1")
    ≡ map (bit_report led_rate) (select (is_violation led_rate) (bits_from 0 (indices led_edges)))
detect_ws2812_timing-violations_example = detect_ws2812_timing-violations led_rate led_edges "D1"

-- The last of them is the violation.
third_bit : select (is_violation led_rate) (bits_from 0 (indices led_edges)) ≡ (2, 60, 90) ∷ []
third_bit = refl

abbrev bus : ProtocolHypothesis Ratio
bus = record {
  protocol = "i2c";
  parameters = [];
  channel_assignments = ("scl", "D0") ∷ ("sda", "D1") ∷ [];
}

abbrev bus_events : List DecodedEvent
bus_events =
    event "i2c.data" 5 9 []
    ∷ event "i2c.start" 10 12 []
    ∷ event "i2c.address" 13 30 []
    ∷ event "i2c.nak" 31 33 []
    ∷ event "i2c.stop" 40 42 []
    ∷ []

detect_i2c_orphan_incoherence-orphans_example :
    detect_i2c_orphan_incoherence bus_events bus
    ≡ map (orphan_finding (get_channel "sda" bus.channel_assignments)) (orphans [] bus_events)
detect_i2c_orphan_incoherence-orphans_example = detect_i2c_orphan_incoherence-orphans bus_events bus

abbrev serial : ProtocolHypothesis Ratio
serial = record {
  protocol = "uart";
  parameters = ("baud", Value.int 1) ∷ [];
  channel_assignments = ("rx", "D0") ∷ [];
}

abbrev serial_events : List DecodedEvent
serial_events =
    event "uart.byte" 3 42 (("framing_error", Payload.flag false) ∷ [])
    ∷ event "uart.byte" 43 82 (("framing_error", Payload.flag true) ∷ [])
    ∷ []

detect_uart_framing_incoherence_example :
    let uart_events = select (kind_is "uart.byte") serial_events in
    IsVerdict serial uart_events
      (any is_bad_frame uart_events)
      (detect_uart_framing_incoherence serial_events serial)
detect_uart_framing_incoherence_example =
    detect_uart_framing_incoherence_lem serial_events serial refl

abbrev pub glitch : Capture Ratio
glitch = record {
  channels = ("D0", true ∷ true ∷ false ∷ true ∷ true ∷ true ∷ []) ∷ [];
  samplerate_hz = 4;
  instrument = none;
  threshold_v = some (ratio 15 10);
}

-- The runt at sample 2 is found.
glitch_found :
    (fs : List (SmokeFinding Ratio)) × (run_smoke glitch serial none ≡ ok fs) × (length fs ≡ 1)
unfolding run_smoke lower is_empty detect_runt_pulses detect_edge_chatter extract_edges
glitch_found = (_, refl, refl)

run_smoke-IsJustified_example : All (IsJustified glitch serial none) glitch_found.0
run_smoke-IsJustified_example = run_smoke-IsJustified glitch serial none glitch_found.1
