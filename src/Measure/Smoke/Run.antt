-- ===== src/Measure/Smoke/Run.antt =====
-- `run_smoke`: which check runs on which channel.
use slidko.Prelude.{
  ℕ, ◌+◌, ◌-◌, String, Bool, false, ◌&&◌, Option, none, some, List, [], ◌∷◌, ◌++◌, map, str_eq,
  ◌==◌, if◌then◌else◌, codes, codes_eq, lower, is_empty, lookup, text_mem, Float,
}
use slidko.Numpy.{Numpy, Statistics}
use slidko.Measure.Intervals.{estimate_dominant_period}
use slidko.Result.{Result, ok, err, value_error, ◌>>=◌, require, >>=-eq-ok}
use slidko.Capture.{Capture}
use slidko.Decode.Events.{DecodedEvent, kind_is}
use slidko.Decode.Backend.{ProtocolHypothesis, Value, null, int, float, text}
use slidko.Measure.Edges.{Edge, Channel, extract_edges}
use slidko.Measure.Smoke.Finding.{SmokeFinding}
use slidko.Measure.Smoke.Chatter.{detect_edge_chatter}
use slidko.Measure.Smoke.Runt.{detect_runt_pulses}
use slidko.Measure.Smoke.Timing.{detect_ws2812_timing}
use slidko.Measure.Smoke.Incoherence.{detect_incoherence}
pub mod Lines
pub mod Laws

abbrev pub protocol_is : {F : Type 0} → String → ProtocolHypothesis F → Bool
protocol_is name hypothesis = codes_eq (lower hypothesis.protocol) (codes name)

-- `_CHATTER_CLOCK_ROLE.get(protocol)`
unfoldable pub chatter_clock_role : {F : Type 0} → ProtocolHypothesis F → Option String
chatter_clock_role hypothesis =
    if protocol_is "uart" hypothesis
    then some "rx"
    else if protocol_is "i2c" hypothesis
    then some "scl"
    else if protocol_is "spi" hypothesis
    then some "clk"
    else none

-- `{channel} if channel else set()`
abbrev pub singleton_of : Option String → List String
singleton_of none = []
singleton_of (some channel) = if is_empty channel then [] else channel ∷ []

abbrev channels_of_role : List (String × String) → Option String → List String
channels_of_role assignments (some role) = singleton_of (lookup role assignments)
channels_of_role assignments none = map (λ a. a.1) assignments

unfoldable pub chatter_eligible_channels : {F : Type 0} → ProtocolHypothesis F → List String
unfolding chatter_clock_role
chatter_eligible_channels hypothesis =
    channels_of_role hypothesis.channel_assignments (chatter_clock_role hypothesis)

abbrev assigned_to : String → Option String → Bool
assigned_to name none = false
assigned_to name (some channel) = str_eq channel name

module _ {F : Type 0} ⦃fl : Float F⦄ where
  -- `if baud:` and `float(samplerate_hz) / float(baud)`; `none` where the test fails. A text is an
  -- error, whatever it spells: no producer makes one.
  unfoldable pub baud_period : ℕ → Option (Value F) → Result (Option F)
  baud_period samplerate_hz none = ok none
  baud_period samplerate_hz (some null) = ok none
  baud_period samplerate_hz (some (int n)) =
      if n == 0 then ok none else ok (some (fl.div (fl.of_ℕ samplerate_hz) (fl.of_ℕ n)))
  baud_period samplerate_hz (some (float x)) =
      if fl.le x (fl.of_ℕ 0) && fl.le (fl.of_ℕ 0) x
      then ok none
      else ok (some (fl.div (fl.of_ℕ samplerate_hz) x))
  baud_period samplerate_hz (some (text s)) = if is_empty s then ok none else err (value_error s)

  abbrev or_estimate : F → Option F → F
  or_estimate estimate none = estimate
  or_estimate estimate (some period) = period

  module _ ⦃np : Numpy⦄ ⦃st : Statistics F⦄ where
    -- `period, _confidence = estimate_dominant_period(channel_signal)`
    abbrev dominant_period : Channel → F
    dominant_period signal = (estimate_dominant_period signal none).0

    unfoldable pub channel_t_bit : String → Channel → ℕ → ProtocolHypothesis F → Result F
    unfolding baud_period
    channel_t_bit name signal samplerate_hz hypothesis =
        if protocol_is "uart" hypothesis
          && assigned_to name (lookup "rx" hypothesis.channel_assignments)
        then (do
          period ← baud_period samplerate_hz (lookup "baud" hypothesis.parameters)
          ok (or_estimate (dominant_period signal) period))
        else ok (dominant_period signal)

    -- The first `for`: runts on every channel, chatter on the eligible ones.
    unfoldable pub smoke_channels :
        ℕ
        → ProtocolHypothesis F
        → List String
        → List (String × Channel)
        → Result (List (SmokeFinding F))
    smoke_channels samplerate_hz hypothesis eligible [] = ok []
    smoke_channels samplerate_hz hypothesis eligible ((name, signal) ∷ channels) = do
      let edges = extract_edges signal
      chatter ←
          (if text_mem name eligible
            then (do
              t_bit ← channel_t_bit name signal samplerate_hz hypothesis
              ok (detect_edge_chatter edges t_bit name))
            else ok [])
      rest ← smoke_channels samplerate_hz hypothesis eligible channels
      ok (detect_runt_pulses edges name ++ (chatter ++ rest))

    -- The second `for`: WS2812 timing on every assigned channel; one that the capture lacks raises.
    unfoldable pub smoke_timing : Capture F → List String → Result (List (SmokeFinding F))
    smoke_timing capture [] = ok []
    smoke_timing capture (name ∷ names) = do
      signal ← require name capture.channels
      rest ← smoke_timing capture names
      ok (detect_ws2812_timing (extract_edges signal) (fl.of_ℕ capture.samplerate_hz) name ++ rest)

    abbrev decoded_findings :
        ProtocolHypothesis F → Option (List DecodedEvent) → List (SmokeFinding F)
    decoded_findings hypothesis none = []
    decoded_findings hypothesis (some events) = detect_incoherence events hypothesis

    unfoldable pub run_smoke :
        Capture F
        → ProtocolHypothesis F
        → Option (List DecodedEvent)
        → Result (List (SmokeFinding F))
    unfolding smoke_channels smoke_timing chatter_eligible_channels channel_t_bit
    run_smoke capture hypothesis events = do
      channel_findings ←
          smoke_channels capture.samplerate_hz hypothesis (chatter_eligible_channels hypothesis)
            capture.channels
      timing_findings ←
          (if protocol_is "ws2812" hypothesis
            then smoke_timing capture (map (λ a. a.1) hypothesis.channel_assignments)
            else ok [])
      ok (channel_findings ++ (timing_findings ++ decoded_findings hypothesis events))
