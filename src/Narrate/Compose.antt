-- ===== src/Narrate/Compose.antt =====
-- src/slidko/narrate/narrate.py: summaries, coincidences and the caveat in one list.
use slidko.Prelude.{
  ℕ, zero, suc, ◌-◌, ◌<◌, String, ◌≡◌, refl, ap, ◌∙◌, Bool, false, not, Option, List, [], ◌∷◌, ◌++◌,
  arith, str_eq, ◌==◌, length, any, All, All-map_imp, All-append, Float,
}
use slidko.Capture.{Capture}
use slidko.Measure.Edges.{Channel}
use slidko.Decode.Events.{DecodedEvent}
use slidko.Measure.Smoke.Finding.{SmokeFinding}
use slidko.Corpus.Sidecar.{Sidecar}
use slidko.Narrate.Model.{Evidence, Assertion, IsWindow, IsTraceable}
use slidko.Narrate.TransactionSummary.{summarize_transactions}
use slidko.Narrate.TransactionSummary.Groups.{summarize_transactions-IsTraceable}
use slidko.Narrate.Coincidence.{detect_coincidences}
use slidko.Narrate.Coincidence.Laws.{coincidences-IsTraceable}
use slidko.Narrate.ReceiverRule.{
  range_evidence, first_channel_evidence, whole_capture_evidence, receiver_rule_caveat,
}
use slidko.Narrate.ReceiverRule.Laws.{caveat-evidence}

-- The number of samples of the first channel.
abbrev pub first_samples : List (String × Channel) → ℕ
first_samples [] = 0
first_samples ((name, channel) ∷ _) = length channel

-- One window, of so many samples from 0 on.
unfoldable HasRange : ℕ → Evidence → Type 0
HasRange n e = (e.event_indices ≡ []) × (e.finding_refs ≡ []) × (e.sample_ranges ≡ (0, n - 1) ∷ [])

range_evidence-HasRange : (n : ℕ) → 0 < n → HasRange n (range_evidence n)
unfolding HasRange
range_evidence-HasRange zero h = let impossible : ⊥ = omega arith in absurd impossible
range_evidence-HasRange (suc n) h =
    let nonzero : (suc n == 0) ≡ false = ground arith in rw nonzero (refl, refl, refl)

first_channel-HasRange :
    (channels : List (String × Channel))
    → 0 < first_samples channels
    → HasRange (first_samples channels) (first_channel_evidence channels)
first_channel-HasRange [] samples = let impossible : ⊥ = omega arith in absurd impossible
first_channel-HasRange ((name, channel) ∷ _) samples =
    range_evidence-HasRange (length channel) samples

unfoldable pub decoded_cleanly : {F : Type 0} → List DecodedEvent → List (SmokeFinding F) → Bool
decoded_cleanly [] findings = false
decoded_cleanly (e ∷ events) findings =
    not (any (λ f. str_eq f.check "protocol_incoherence") findings)

module _ {F : Type 0} ⦃fl : Float F⦄ where
  unfoldable pub narrate :
      Capture F
      → List DecodedEvent
      → List (SmokeFinding F)
      → Option (Sidecar F)
      → List (Assertion F)
  unfolding summarize_transactions detect_coincidences receiver_rule_caveat decoded_cleanly
  narrate capture events findings sidecar =
      summarize_transactions events
      ++ (detect_coincidences events findings capture.samplerate_hz
          ++ receiver_rule_caveat capture sidecar (decoded_cleanly events findings))

  caveat-IsTraceable :
      (events : List DecodedEvent) (findings : List (SmokeFinding F)) (capture : Capture F)
      (a : Assertion F)
      → 0 < first_samples capture.channels
      → a.evidence ≡ whole_capture_evidence capture
      → IsTraceable events findings (first_samples capture.channels) a
  unfolding whole_capture_evidence HasRange
  caveat-IsTraceable events findings capture a samples e =
      let (no_events, no_findings, range) = first_channel-HasRange capture.channels samples in
      let indices : a.evidence.event_indices ≡ [] = ap (λ x. x.event_indices) e ∙ no_events in
      let refs : a.evidence.finding_refs ≡ [] = ap (λ x. x.finding_refs) e ∙ no_findings in
      let ranges : a.evidence.sample_ranges ≡ (0, first_samples capture.channels - 1) ∷ [] =
        ap (λ x. x.sample_ranges) e ∙ range in
      record {
        has_evidence = rw (indices, ranges) (omega arith);
        events_exist = rw indices tt;
        findings_exist = rw refs tt;
        windows_exist = rw ranges (IsWindow.of_channel samples refl, tt);
      }

  -- If the capture's first channel has at least one sample, every assertion that `narrate` emits has evidence, an event index
  -- or a sample range; every event index and finding reference in it is the position of an event or a finding of the input,
  -- and every sample range is that of an event or a finding of the input, or the whole of the first channel.
  pub narrate-IsTraceable :
      (capture : Capture F) (events : List DecodedEvent) (findings : List (SmokeFinding F))
      (sidecar : Option (Sidecar F))
      → 0 < first_samples capture.channels
      → All
          (IsTraceable events findings (first_samples capture.channels))
          (narrate capture events findings sidecar)
  unfolding narrate
  narrate-IsTraceable capture events findings sidecar samples =
      let n = first_samples capture.channels in
      All-append _ _ _ (summarize_transactions-IsTraceable F events findings n) (
        All-append _ _ _ (coincidences-IsTraceable events findings capture.samplerate_hz n) (
          All-map_imp _ _ (λ a e. caveat-IsTraceable events findings capture a samples e) _
            (caveat-evidence capture sidecar (decoded_cleanly events findings))))
