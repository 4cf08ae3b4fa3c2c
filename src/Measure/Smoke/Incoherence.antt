-- ===== src/Measure/Smoke/Incoherence.antt =====
-- `detect_incoherence`: decoding that succeeds into garbage.
use slidko.Prelude.{
  ℕ, ◌-◌, ◌/◌, String, concat, Bool, true, false, not, ◌&&◌, ◌||◌, none, some, List, [], ◌∷◌, map,
  ◌==◌, if◌then◌else◌, length, select, codes, codes_eq, lower, show, lookup, Float,
}
pub mod Laws
use slidko.Decode.Events.{DecodedEvent, truthy, kind_is}
use slidko.Decode.Backend.{ProtocolHypothesis, Value, int, float, text}
use slidko.Measure.Edges.{minimum, maximum}
use slidko.Measure.Smoke.Finding.{SmokeFinding, incoherence_frame_err_rate}

abbrev pub is_bad_frame : DecodedEvent → Bool
is_bad_frame e = truthy (lookup "framing_error" e.payload)

-- `min(...)` and `max(...)` over a list; of an empty one Python raises, and the code does not ask.
abbrev pub min_of : List ℕ → ℕ
min_of [] = 0
min_of (x ∷ xs) = minimum x xs

abbrev pub max_of : List ℕ → ℕ
max_of [] = 0
max_of (x ∷ xs) = maximum x xs

-- `d.get(k, "")`
abbrev pub get_channel : String → List (String × String) → String
get_channel k d = elim (lookup k d) [ none ↦ "" | some c ↦ c ]

-- `event.kind in ("i2c.ack", "i2c.nak", "i2c.data")`
abbrev pub needs_address : DecodedEvent → Bool
needs_address e = kind_is "i2c.ack" e || kind_is "i2c.nak" e || kind_is "i2c.data" e

module _ {F : Type 0} where
  unfoldable pub orphan_finding : String → DecodedEvent → SmokeFinding F
  orphan_finding channel event = record {
    check = "protocol_incoherence";
    channel = channel;
    start_sample = event.start_sample;
    end_sample = event.end_sample;
    severity = "smoke";
    summary = concat "I2C " (concat event.kind " with no preceding addressed device");
    escalation =
        "smoke → scope: capture SCL/SDA with an oscilloscope; expect bus contention or a phantom device";
    evidence = ("kind", text event.kind) ∷ ("sample", int event.start_sample) ∷ [];
  }

  -- The `for` over the events, with the state `addressed`.
  unfoldable pub orphan_scan : String → Bool → List DecodedEvent → List (SmokeFinding F)
  orphan_scan channel addressed [] = []
  orphan_scan channel addressed (event ∷ events) =
      let next =
        if kind_is "i2c.start" event
        then false
        else if kind_is "i2c.address" event
        then true
        else if kind_is "i2c.stop" event
        then false
        else addressed in
      let rest = orphan_scan channel next events in
      if kind_is "i2c.start" event
      then rest
      else if kind_is "i2c.address" event
      then rest
      else if kind_is "i2c.stop" event
      then rest
      else if needs_address event && not addressed
      then orphan_finding channel event ∷ rest
      else rest

  unfoldable pub detect_i2c_orphan_incoherence :
      List DecodedEvent → ProtocolHypothesis F → List (SmokeFinding F)
  unfolding orphan_scan orphan_finding
  detect_i2c_orphan_incoherence events hypothesis =
      orphan_scan (get_channel "sda" hypothesis.channel_assignments) false events

module _ {F : Type 0} ⦃fl : Float F⦄ where
  unfoldable pub framing_finding : String → List DecodedEvent → List DecodedEvent → SmokeFinding F
  framing_finding channel uart_events bad =
      let rate = fl.div (fl.of_ℕ (length bad)) (fl.of_ℕ (length uart_events)) in
      record {
        check = "protocol_incoherence";
        channel = channel;
        start_sample = min_of (map (λ e. e.start_sample) bad);
        end_sample = max_of (map (λ e. e.end_sample) bad);
        severity = "smoke";
        summary = concat "UART framing-error rate " (
            concat (fl.percent 1 rate) (
              concat " (" (
                concat (show (length bad))
                  (concat "/" (concat (show (length uart_events)) " frames)")))));
        escalation =
            "smoke → scope: capture RX with an oscilloscope; expect a marginal baud/noise/level issue";
        evidence =
            ("framing_error_count", int (length bad))
            ∷ ("total_frames", int (length uart_events))
            ∷ ("rate", float rate)
            ∷ [];
      }

  unfoldable pub detect_uart_framing_incoherence :
      List DecodedEvent → ProtocolHypothesis F → List (SmokeFinding F)
  unfolding framing_finding
  detect_uart_framing_incoherence events hypothesis =
      let uart_events = select (kind_is "uart.byte") events in
      let bad = select is_bad_frame uart_events in
      let rate = fl.div (fl.of_ℕ (length bad)) (fl.of_ℕ (length uart_events)) in
      let channel = get_channel "rx" hypothesis.channel_assignments in
      if length uart_events == 0
      then []
      else if fl.le rate incoherence_frame_err_rate
      then []
      else framing_finding channel uart_events bad ∷ []

  unfoldable pub detect_incoherence :
      List DecodedEvent → ProtocolHypothesis F → List (SmokeFinding F)
  unfolding detect_uart_framing_incoherence detect_i2c_orphan_incoherence lower
  detect_incoherence events hypothesis =
      let protocol = lower hypothesis.protocol in
      if codes_eq protocol (codes "uart")
      then detect_uart_framing_incoherence events hypothesis
      else if codes_eq protocol (codes "i2c")
      then detect_i2c_orphan_incoherence events hypothesis
      else []
