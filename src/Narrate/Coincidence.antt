-- ===== src/Narrate/Coincidence.antt =====
-- src/slidko/narrate/coincidence.py: NAKs near a finding. The samplerate is positive; the window is
-- the source's whole-number division, and only the text needs a float.
use slidko.Prelude.{
  ℕ, ◌+◌, ◌*◌, ◌/◌, String, concat, Option, none, some, List, [], ◌∷◌, ◌++◌, ltb, if◌then◌else◌,
  distance, is_empty, Float,
}
pub mod Laws
use slidko.Decode.Events.{DecodedEvent, kind_is}
use slidko.Measure.Smoke.Finding.{SmokeFinding}
use slidko.Narrate.Model.{Evidence, Assertion, IsTraceable}

abbrev pub coincidence_window_us : ℕ
coincidence_window_us = 100

unfoldable pub window_samples : ℕ → ℕ
window_samples samplerate_hz = coincidence_window_us * samplerate_hz / 1_000_000

-- `event.channel or "the bus"`
abbrev channel_label : Option String → String
channel_label none = "the bus"
channel_label (some channel) = if is_empty channel then "the bus" else channel

unfoldable pub time_text : (F : Type 0) ⦃fl : Float F⦄ → ℕ → ℕ → String
time_text F ⦃fl⦄ samplerate_hz sample_delta =
    let seconds = fl.div (fl.of_ℕ sample_delta) (fl.of_ℕ samplerate_hz) in
    if fl.le (fl.decimal 1 6) seconds
    then concat (fl.fixed 0 (fl.mul seconds (fl.of_ℕ 1_000_000))) "μs"
    else concat (fl.fixed 0 (fl.mul seconds (fl.of_ℕ 1_000_000_000))) "ns"

module _ {F : Type 0} ⦃fl : Float F⦄ (samplerate_hz : ℕ) where
  unfoldable pub coincidence : ℕ → DecodedEvent → ℕ → SmokeFinding F → Assertion F
  unfolding time_text
  coincidence event_idx event finding_idx finding = record {
    kind = "coincidence";
    text = concat "Coincidence detected between NAK on channel " (
        concat (channel_label event.channel) (
          concat " and finding on channel " (
            concat finding.channel (
              concat " at "
                (time_text F samplerate_hz (distance event.start_sample finding.start_sample))))));
    evidence = record {
      event_indices = event_idx ∷ [];
      sample_ranges =
          (event.start_sample, event.end_sample) ∷ (finding.start_sample, finding.end_sample) ∷ [];
      finding_refs = finding_idx ∷ [];
    };
    confidence = fl.decimal 8 1;
  }

  -- The inner loop, at `finding_idx`.
  unfoldable pub near_findings : ℕ → DecodedEvent → ℕ → List (SmokeFinding F) → List (Assertion F)
  unfolding coincidence window_samples
  near_findings event_idx event finding_idx [] = []
  near_findings event_idx event finding_idx (finding ∷ findings) =
      let rest = near_findings event_idx event (finding_idx + 1) findings in
      if ltb (window_samples samplerate_hz) (distance event.start_sample finding.start_sample)
      then rest
      else coincidence event_idx event finding_idx finding ∷ rest

  -- The outer loop, at `event_idx`.
  unfoldable pub near_events : ℕ → List DecodedEvent → List (SmokeFinding F) → List (Assertion F)
  unfolding near_findings
  near_events event_idx [] findings = []
  near_events event_idx (event ∷ events) findings =
      let rest = near_events (event_idx + 1) events findings in
      if kind_is "i2c.nak" event then near_findings event_idx event 0 findings ++ rest else rest

-- Without events or findings the loops give nothing, as the early return does.
unfoldable pub detect_coincidences :
    {F : Type 0} ⦃fl : Float F⦄ → List DecodedEvent → List (SmokeFinding F) → ℕ → List (Assertion F)
unfolding near_events
detect_coincidences [] findings samplerate_hz = []
detect_coincidences (event ∷ events) [] samplerate_hz = []
detect_coincidences (event ∷ events) (finding ∷ findings) samplerate_hz =
    near_events samplerate_hz 0 (event ∷ events) (finding ∷ findings)
