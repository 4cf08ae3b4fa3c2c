-- ===== src/Narrate/Model.antt =====
-- src/slidko/narrate/model.py: an assertion with the evidence that it points at.
use slidko.Prelude.{ℕ, ◌+◌, ◌-◌, ◌<◌, String, ◌≡◌, some, List, [], length, get_elem?, All}
use slidko.Decode.Events.{DecodedEvent}
use slidko.Measure.Smoke.Finding.{SmokeFinding}
pub mod Serialize

pub record Evidence : Type 0 where
  pub event_indices : List ℕ
  pub sample_ranges : List (ℕ × ℕ)
  pub finding_refs : List ℕ

abbrev pub no_evidence : Evidence
no_evidence = record { event_indices = []; sample_ranges = []; finding_refs = [] }

pub record Assertion (F : Type 0) : Type 0 where
  pub kind : String
  pub text : String
  pub evidence : Evidence
  pub confidence : F

-- The samples of an event, of a finding, or of a whole channel that has so many.
pub data IsWindow {F : Type 0} (events : List DecodedEvent) (findings : List (SmokeFinding F))
    (samples : ℕ) (w : ℕ × ℕ) : Type 0 where
  of_event :
      (i : ℕ) (e : DecodedEvent)
      → get_elem? events i ≡ some e
      → w ≡ (e.start_sample, e.end_sample)
      → IsWindow events findings samples w
  of_finding :
      (i : ℕ) (f : SmokeFinding F)
      → get_elem? findings i ≡ some f
      → w ≡ (f.start_sample, f.end_sample)
      → IsWindow events findings samples w
  of_channel : 0 < samples → w ≡ (0, samples - 1) → IsWindow events findings samples w

-- An assertion that points at something, and only at events, findings and samples that exist.
pub record IsTraceable {F : Type 0} (events : List DecodedEvent) (findings : List (SmokeFinding F))
    (samples : ℕ) (a : Assertion F) : Type 0 where
  pub has_evidence : 0 < length a.evidence.event_indices + length a.evidence.sample_ranges
  pub events_exist : All (λ i. i < length events) a.evidence.event_indices
  pub findings_exist : All (λ i. i < length findings) a.evidence.finding_refs
  pub windows_exist : All (IsWindow events findings samples) a.evidence.sample_ranges
