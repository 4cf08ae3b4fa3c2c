-- ===== src/Narrate/ReceiverRule/Laws.antt =====
-- When the caveat is emitted.
use slidko.Prelude.{
  ◌≡◌, refl, inl, inr, Bool, true, false, not, ◌||◌, Option, none, some, [], Bool-cases, length,
  All, All-if, lower, Float,
}
use slidko.Capture.{Capture}
use slidko.Corpus.Sidecar.{Sidecar, Receiver, ReceiverVerdict}
use slidko.Narrate.Model.{Evidence, Assertion}
use slidko.Narrate.ReceiverRule.{
  is_small_margin, verdict_is_clean, verdict_of, caveat_for, whole_capture_evidence,
  receiver_rule_caveat,
}
use slidko.Narrate.ReceiverRule.Clean.{IsClean, verdict_is_clean-IsClean}

module _ {F : Type 0} ⦃fl : Float F⦄ where
  -- What the rule asks of a capture, a verdict and a decode: a known threshold, and either no verdict, or a clean decode, a
  -- V_IH at least half a volt from the threshold, and a verdict that does not say "clean".
  abbrev pub MustWarn : Option F → Option (Receiver F × ReceiverVerdict) → Bool → Type 0
  MustWarn none verdict decoded_ok = ⊥
  MustWarn (some threshold) none decoded_ok = Unit
  MustWarn (some threshold) (some (receiver, verdict)) decoded_ok =
      (decoded_ok ≡ true)
      × (fl.lt (fl.abs (fl.sub threshold receiver.vih_v)) (fl.decimal 5 1) ≡ false)
      × (¬ IsClean (lower verdict.observed))

  caveat_for-MustWarn :
      (t : Option F) (v : Option (Receiver F × ReceiverVerdict)) (ok : Bool) (e : Evidence)
      → (MustWarn t v ok → length (caveat_for t v ok e) ≡ 1)
        × (¬ MustWarn t v ok → caveat_for t v ok e ≡ [])
  unfolding caveat_for is_small_margin
  caveat_for-MustWarn none v ok e = ((λ h. absurd h), λ _. refl)
  caveat_for-MustWarn (some t) none ok e = ((λ _. refl), λ h. absurd (h tt))
  caveat_for-MustWarn (some t) (some (receiver, verdict)) false e =
      ((λ h. let bad = h.0 in cc), λ _. refl)
  caveat_for-MustWarn (some t) (some (receiver, verdict)) true e =
      let clean_iff = verdict_is_clean-IsClean verdict in
      elim (Bool-cases (fl.lt (fl.abs (fl.sub t receiver.vih_v)) (fl.decimal 5 1))) [
        | inl small ↦ rw small ((λ h. let bad = h.1 in cc), λ _. refl)
        | inr large ↦ elim (Bool-cases (verdict_is_clean verdict)) [
          | inl clean ↦ rw (large, clean) ((λ h. absurd (h.2 (clean_iff.0 clean))), λ _. refl)
          | inr bad ↦
              let unclean : ¬ IsClean (lower verdict.observed) =
                λ c. let clean = clean_iff.1 c in cc in
              rw (large, bad) ((λ _. refl), λ h. absurd (h (refl, refl, unclean)))
        ]
      ]

  module _ (capture : Capture F) (sidecar : Option (Sidecar F)) (decoded_ok : Bool) where
    -- There is exactly one caveat if the instrument's threshold is known and either no receiver
    -- verdict is, or the decode was clean, the receiver's V_IH is not less than half a volt from the
    -- threshold and the verdict's text, in lower case, is not "clean" between blanks. Otherwise there is none.
    pub receiver_rule_caveat-MustWarn :
        (MustWarn capture.threshold_v (verdict_of sidecar) decoded_ok
          → length (receiver_rule_caveat capture sidecar decoded_ok) ≡ 1)
        × (¬ MustWarn capture.threshold_v (verdict_of sidecar) decoded_ok
            → receiver_rule_caveat capture sidecar decoded_ok ≡ [])
    unfolding receiver_rule_caveat
    receiver_rule_caveat-MustWarn = caveat_for-MustWarn capture.threshold_v _ decoded_ok _

  caveat_for-evidence :
      (t : Option F) (v : Option (Receiver F × ReceiverVerdict)) (ok : Bool) (e : Evidence)
      → All (λ (a : Assertion F). a.evidence ≡ e) (caveat_for t v ok e)
  unfolding caveat_for
  caveat_for-evidence none v ok e = tt
  caveat_for-evidence (some t) none ok e = (refl, tt)
  caveat_for-evidence (some t) (some (receiver, verdict)) ok e =
      All-if _ (not ok) _ _ tt
        (All-if _ (is_small_margin t receiver.vih_v || verdict_is_clean verdict) _ _ tt (refl, tt))

  pub caveat-evidence :
      (capture : Capture F) (sidecar : Option (Sidecar F)) (decoded_ok : Bool)
      → All
          (λ (a : Assertion F). a.evidence ≡ whole_capture_evidence capture)
          (receiver_rule_caveat capture sidecar decoded_ok)
  unfolding receiver_rule_caveat
  caveat-evidence capture sidecar decoded_ok =
      caveat_for-evidence capture.threshold_v _ decoded_ok _
