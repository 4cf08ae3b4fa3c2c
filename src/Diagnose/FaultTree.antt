-- ===== src/Diagnose/FaultTree.antt =====
-- src/slidko/diagnose/fault_tree.py: the symptoms that a configuration may explain.
use slidko.Prelude.{
  String, Bool, Option, none, some, List, [], ◌∷◌, if◌then◌else◌, any, codes, lower, contains,
}
use slidko.Diagnose.ConfigPull.{MspReadCommand, cf_serial_config}

pub record ConfigBranch : Type 0 where
  pub command : MspReadCommand
  pub explains : String
  pub fix_suggestion : String

pub record SymptomEntry : Type 0 where
  pub trigger : String
  pub config_branches : List ConfigBranch

abbrev pub uart2_disabled : ConfigBranch
uart2_disabled = record {
  command = cf_serial_config;
  explains = "uart2 disabled";
  fix_suggestion = "Enable UART2 in the serial configuration (MSP_CF_SERIAL_CONFIG) and retry.";
}

abbrev pub symptom_fault_tree : List SymptomEntry
symptom_fault_tree =
    record { trigger = "no data on uart2"; config_branches = uart2_disabled ∷ [] } ∷ []

-- `any(entry.trigger in text for text in lowered)`
abbrev pub triggered : SymptomEntry → List String → Bool
triggered entry texts = any (λ text. contains (codes entry.trigger) (lower text)) texts

unfoldable pub first_match : List String → List SymptomEntry → Option SymptomEntry
first_match texts [] = none
first_match texts (entry ∷ entries) =
    if triggered entry texts then some entry else first_match texts entries

unfoldable pub classify_symptom : List String → Option SymptomEntry
unfolding first_match
classify_symptom assertion_texts = first_match assertion_texts symptom_fault_tree
