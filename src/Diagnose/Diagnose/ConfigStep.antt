-- ===== src/Diagnose/Diagnose/ConfigStep.antt =====
-- The configuration step of a recognised symptom.
use slidko.Prelude.{
  String, ◌≡◌, refl, sym, ap, ◌∙◌, ◌⊎◌, inl, inr, Bool, true, false, some, List, [], ◌∷◌, ◌++◌,
  Bool-cases, any, select, codes, lower, contains, show_hex2,
}
use slidko.Decode.Backend.{Value}
use slidko.Result.{ok, ok-injective}
use slidko.Narrate.Model.{Assertion}
use slidko.Diagnose.FaultTree.{uart2_disabled}
use slidko.Diagnose.Instruction.{Instruction}
use slidko.Diagnose.Diagnose.{
  explaining, fix_or_pull, config_pull_instruction, config_fix_instruction,
}

-- The first element that passes a test.
abbrev pub IsFirst {ℓ} : {A : Type ℓ} → (A → Bool) → List A → A → Type ℓ
IsFirst {A = A} p xs a =
    (before : List A) × (later : List A) × (xs ≡ before ++ a ∷ later)
    × (any p before ≡ false)
    × (p a ≡ true)

select-first {ℓ} :
    {A : Type ℓ} (p : A → Bool) (before : List A) (a : A) (later : List A)
    → any p before ≡ false
    → p a ≡ true
    → select p (before ++ a ∷ later) ≡ a ∷ select p later
select-first p [] a later h y = rw y refl
select-first p (x ∷ before) a later h y = elim (Bool-cases (p x)) [
  | inl found ↦ let bad = rw found at h in cc
  | inr other ↦ rw other (select-first p before a later (rw other at h) y)
]

found_or_none {ℓ} :
    {A : Type ℓ} (p : A → Bool) (xs : List A)
    → ((a : A) × IsFirst p xs a) ⊎ ((any p xs ≡ false) × (select p xs ≡ []))
found_or_none p [] = inr (refl, refl)
found_or_none p (x ∷ xs) = elim (Bool-cases (p x)) [
  | inl y ↦ inl (x, ([], xs, refl, refl, y))
  | inr n ↦ elim (found_or_none p xs) [
    | inl h ↦
        let (before, later, split, absent, found) = h.1 in
        inl (h.0, (x ∷ before, later, ap (◌∷◌ x) split, rw (n, absent) refl, found))
    | inr h ↦ inr (rw n h)
  ]
]

-- Whether an assertion says that the port is disabled, in any case.
abbrev pub says_disabled : {F : Type 0} → Assertion F → Bool
says_disabled a = contains (codes "uart2 disabled") (lower a.text)

-- The read request for the serial configuration: the frame `$M<`, no payload, the command's id, the checksum.
abbrev pub serial_request : {F : Type 0} → Instruction F
serial_request = record {
  action = "config_pull";
  target = "CF_SERIAL_CONFIG";
  parameters = ("frame_hex", Value.text "244d3c003636") ∷ [];
  hazard_notes = "read-only MSP query; no risk to the board";
  executor = "human";
  citations = [];
  expected_outcome_per_hypothesis =
      some (("config_cause", "CF_SERIAL_CONFIG reveals whether this explains the symptom") ∷ []);
  unknown = false;
}

-- The fix of the serial configuration, with the text that it rests on.
abbrev pub serial_fix : {F : Type 0} → String → Instruction F
serial_fix cited =
    let fix : String =
      "Enable UART2 in the serial configuration (MSP_CF_SERIAL_CONFIG) and retry." in
    record {
      action = "config_fix";
      target = "CF_SERIAL_CONFIG";
      parameters = ("cited_evidence", Value.text cited) ∷ ("fix", Value.text fix) ∷ [];
      hazard_notes = "";
      executor = "human";
      citations = [];
      expected_outcome_per_hypothesis = some (("config_cause", fix) ∷ []);
      unknown = false;
    }

-- The fix, resting on the first assertion that says that the port is disabled, or, if none does, the request.
abbrev pub IsConfigStep : {F : Type 0} → List (Assertion F) → Instruction F → Type 0
IsConfigStep {F = F} assertions i =
    ((a : Assertion F) × IsFirst says_disabled assertions a × (i ≡ serial_fix a.text))
    ⊎ ((any says_disabled assertions ≡ false) × (i ≡ serial_request))

pulled : {F : Type 0} → config_pull_instruction {F = F} uart2_disabled ≡ ok serial_request
unfolding config_pull_instruction show_hex2
pulled = refl

fixed : {F : Type 0} (a : Assertion F) → config_fix_instruction uart2_disabled a ≡ serial_fix a.text
unfolding config_fix_instruction
fixed a = refl

select-none {ℓ} : {A : Type ℓ} (p : A → Bool) (xs : List A) → any p xs ≡ false → select p xs ≡ []
select-none p [] h = refl
select-none p (x ∷ xs) h = elim (Bool-cases (p x)) [
  | inl y ↦ let bad = rw y at h in cc
  | inr n ↦ rw n (select-none p xs (rw n at h))
]

module _ {F : Type 0} (assertions : List (Assertion F)) where
  first_fixed :
      (a : Assertion F)
      → IsFirst says_disabled assertions a
      → fix_or_pull uart2_disabled (explaining uart2_disabled assertions) ≡ ok (serial_fix a.text)
  first_fixed a (before, later, split, absent, found) =
      ap (λ xs. fix_or_pull uart2_disabled (select says_disabled xs)) split
      ∙ ap (fix_or_pull uart2_disabled) (select-first says_disabled before a later absent found)
      ∙ ap ok (fixed a)

  none_pulled :
      any says_disabled assertions ≡ false
      → fix_or_pull uart2_disabled (explaining uart2_disabled assertions) ≡ ok serial_request
  none_pulled absent =
      ap (fix_or_pull uart2_disabled) (select-none says_disabled assertions absent) ∙ pulled

  pub step-IsConfigStep :
      (i : Instruction F)
      → fix_or_pull uart2_disabled (explaining uart2_disabled assertions) ≡ ok i
      → IsConfigStep assertions i
  step-IsConfigStep i e = elim (found_or_none says_disabled assertions) [
    | inl h ↦ inl (h.0, h.1, ok-injective _ _ (sym e ∙ first_fixed h.0 h.1))
    | inr h ↦ inr (h.0, ok-injective _ _ (sym e ∙ none_pulled h.0))
  ]

  pub step_taken :
      (i : Instruction F)
      → IsConfigStep assertions i
      → fix_or_pull uart2_disabled (explaining uart2_disabled assertions) ≡ ok i
  step_taken i (inl (a, first, e)) = first_fixed a first ∙ ap ok (sym e)
  step_taken i (inr (absent, e)) = none_pulled absent ∙ ap ok (sym e)
