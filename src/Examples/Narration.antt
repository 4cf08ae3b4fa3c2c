-- ===== src/Examples/Narration.antt =====
-- Concrete inputs for the narrator.
use slidko.Prelude.{◌≡◌, refl, true, false, none, List, [], ◌∷◌, map, arith, length, All}
use slidko.Narrate.Model.Serialize.{asdict, to_json, from_json, from_json-to_json_text}
use slidko.Result.{ok}
use slidko.Prelude.Ratio.{ratio, Ratio, ratio_float}
use slidko.Decode.Events.{Payload, DecodedEvent}
use slidko.Measure.Smoke.Finding.{SmokeFinding}
use slidko.Narrate.Model.{Assertion, IsTraceable}
use slidko.Narrate.TransactionSummary.{Transaction, split_spans, all_indices}
use slidko.Narrate.TransactionSummary.Spans.{inside, split_spans-partition}
use slidko.Narrate.Coincidence.{detect_coincidences}
use slidko.Narrate.Coincidence.Laws.{
  IsCoincidence, references, near_pairs, numbered, detect_coincidences_lem,
}
use slidko.Narrate.ReceiverRule.{verdict_of, receiver_rule_caveat}
use slidko.Narrate.ReceiverRule.Laws.{MustWarn, receiver_rule_caveat-MustWarn}
use slidko.Narrate.Compose.{narrate, narrate-IsTraceable}
use slidko.Examples.Smoke.{event, glitch}

abbrev bus_events : List DecodedEvent
bus_events =
    event "i2c.start" 10 12 []
    ∷ event "i2c.address" 13 30 (("address", Payload.int 104) ∷ [])
    ∷ event "i2c.nak" 31 33 []
    ∷ event "i2c.stop" 40 42 []
    ∷ event "i2c.data" 50 60 []
    ∷ []

abbrev runt : SmokeFinding Ratio
runt = record {
  check = "runt_pulse";
  channel = "D0";
  start_sample = 29;
  end_sample = 30;
  severity = "warning";
  summary = "";
  escalation = "";
  evidence = [];
}

split_spans-partition_example :
    all_indices (split_spans 0 none bus_events) ≡ inside 0 false bus_events
split_spans-partition_example = split_spans-partition bus_events

abbrev transactions : List Transaction
transactions = split_spans 0 none bus_events

detect_coincidences_example :
    All
      (IsCoincidence bus_events (runt ∷ []) 1_000_000)
      (detect_coincidences bus_events (runt ∷ []) 1_000_000)
    × (map references (detect_coincidences bus_events (runt ∷ []) 1_000_000)
        ≡ near_pairs 1_000_000 (numbered 0 bus_events) (numbered 0 (runt ∷ [])))
detect_coincidences_example = detect_coincidences_lem bus_events (runt ∷ []) 1_000_000

receiver_rule_caveat-MustWarn_example :
    (MustWarn glitch.threshold_v (verdict_of none) true
      → length (receiver_rule_caveat glitch none true) ≡ 1)
    × (¬ MustWarn glitch.threshold_v (verdict_of none) true
        → receiver_rule_caveat glitch none true ≡ [])
receiver_rule_caveat-MustWarn_example = receiver_rule_caveat-MustWarn glitch none true

narrate-IsTraceable_example :
    All (IsTraceable bus_events (runt ∷ []) 6) (narrate glitch bus_events (runt ∷ []) none)
narrate-IsTraceable_example = narrate-IsTraceable glitch bus_events (runt ∷ []) none (omega arith)

abbrev told : Assertion Ratio
told = record {
  kind = "coincidence";
  text = "NAK near runt";
  evidence = record {
    event_indices = 2 ∷ [];
    sample_ranges = (29, 33) ∷ [];
    finding_refs = 0 ∷ [];
  };
  confidence = ratio 3 4;
}

from_json-to_json_text_example :
    from_json (λ s. ok (asdict told)) (to_json (λ j. "{...}") told) ≡ ok told
from_json-to_json_text_example =
    from_json-to_json_text (λ j. "{...}") (λ s. ok (asdict told)) told refl
