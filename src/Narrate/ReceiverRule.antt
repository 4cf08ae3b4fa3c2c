-- ===== src/Narrate/ReceiverRule.antt =====
-- src/slidko/narrate/receiver_rule.py: decode-clean does not mean bus-healthy. `str.strip` is
-- modelled on ASCII white space. The model's sidecar always has a receiver, as the source's type
-- says.
use slidko.Prelude.{
  ℕ, ◌-◌, String, concat, Bool, not, ◌&&◌, ◌||◌, Option, none, some, List, [], ◌∷◌, leb, ◌==◌,
  if◌then◌else◌, length, codes, codes_eq, lower, Float,
}
use mathlib.Core.List.{reverse}
use slidko.Capture.{Capture}
use slidko.Measure.Edges.{Channel}
use slidko.Corpus.Sidecar.{Sidecar, Receiver, ReceiverVerdict}
use slidko.Narrate.Model.{Evidence, Assertion, no_evidence}
pub mod Clean
pub mod Laws

-- 0.5
abbrev pub receiver_threshold_margin_v : {F : Type 0} ⦃fl : Float F⦄ → F
receiver_threshold_margin_v ⦃fl⦄ = fl.decimal 5 1

abbrev pub is_space : ℕ → Bool
is_space c = c == 32 || (leb 9 c && leb c 13) || (leb 28 c && leb c 31)

abbrev pub skip_spaces : List ℕ → List ℕ
skip_spaces [] = []
skip_spaces (c ∷ cs) = if is_space c then skip_spaces cs else c ∷ cs

-- `s.strip().lower()`
unfoldable pub stripped_lower : String → List ℕ
stripped_lower s = reverse (skip_spaces (reverse (skip_spaces (lower s))))

unfoldable pub verdict_is_clean : ReceiverVerdict → Bool
unfolding stripped_lower
verdict_is_clean verdict = codes_eq (stripped_lower verdict.observed) (codes "clean")

abbrev pub range_evidence : ℕ → Evidence
range_evidence n =
    if n == 0 then no_evidence else record no_evidence { sample_ranges = (0, n - 1) ∷ [] }

abbrev pub first_channel_evidence : List (String × Channel) → Evidence
first_channel_evidence [] = no_evidence
first_channel_evidence ((name, channel) ∷ _) = range_evidence (length channel)

unfoldable pub whole_capture_evidence : {F : Type 0} → Capture F → Evidence
whole_capture_evidence capture = first_channel_evidence capture.channels

module _ {F : Type 0} ⦃fl : Float F⦄ where
  unfoldable pub caveat : String → Evidence → Assertion F
  caveat text evidence = record {
    kind = "receiver_rule.caveat";
    text = text;
    evidence = evidence;
    confidence = fl.decimal 10 1;
  }

  unfoldable pub no_verdict_text : F → String
  no_verdict_text threshold_v = concat "Decode used the instrument's " (
      concat (fl.fixed 1 threshold_v)
        " V logic threshold; no receiver-side verdict is available, so this does not confirm what a receiver with a different V_IH actually saw.")

  unfoldable pub contradiction_text : F → ReceiverVerdict → Receiver F → String
  contradiction_text threshold_v verdict receiver =
      concat "Decode succeeded cleanly at the instrument's " (
        concat (fl.fixed 1 threshold_v) (
          concat " V threshold, but the receiver verdict was \"" (
            concat verdict.observed (
              concat "\" (" (
                concat receiver.part (
                  concat ", V_IH ≈ " (
                    concat (fl.fixed 1 receiver.vih_v)
                      " V) - a clean decode here does not mean the bus is healthy; the instrument's threshold does not represent what this receiver saw.")))))))

  -- `margin_v < RECEIVER_THRESHOLD_MARGIN_V`
  unfoldable pub is_small_margin : F → F → Bool
  is_small_margin threshold_v vih_v =
      fl.lt (fl.abs (fl.sub threshold_v vih_v)) receiver_threshold_margin_v

  abbrev pub verdict_of : Option (Sidecar F) → Option (Receiver F × ReceiverVerdict)
  verdict_of none = none
  verdict_of (some sidecar) = elim sidecar.receiver_verdict [
    | none ↦ none
    | some v ↦ some (sidecar.receiver, v)
  ]

  unfoldable pub caveat_for :
      Option F → Option (Receiver F × ReceiverVerdict) → Bool → Evidence → List (Assertion F)
  unfolding caveat no_verdict_text contradiction_text is_small_margin verdict_is_clean
  caveat_for none verdict decoded_ok evidence = []
  caveat_for (some threshold_v) none decoded_ok evidence =
      caveat (no_verdict_text threshold_v) evidence ∷ []
  caveat_for (some threshold_v) (some (receiver, verdict)) decoded_ok evidence =
      if not decoded_ok
      then []
      else if is_small_margin threshold_v receiver.vih_v || verdict_is_clean verdict
      then []
      else caveat (contradiction_text threshold_v verdict receiver) evidence ∷ []

  unfoldable pub receiver_rule_caveat : Capture F → Option (Sidecar F) → Bool → List (Assertion F)
  unfolding caveat_for whole_capture_evidence
  receiver_rule_caveat capture sidecar decoded_ok =
      caveat_for capture.threshold_v (verdict_of sidecar) decoded_ok
        (whole_capture_evidence capture)
