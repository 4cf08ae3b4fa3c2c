-- ===== src/Diagnose/Diagnose/Emission.antt =====
-- Exactly when `diagnose` emits an instruction.
use slidko.Prelude.{
  String, ◌≡◌, ◌⊎◌, Bool, true, false, List, map, any, codes, lower, contains, sorted, Float,
}
use slidko.Result.{Result, ok}
use slidko.Librarian.{Retrieval}
use slidko.Narrate.Model.{Assertion}
use slidko.Diagnose.Instruction.{Instruction}
use slidko.Diagnose.Instruction.Complete.{IsAcceptable}
use slidko.Diagnose.Llm.{Context, Proposal}
use slidko.Diagnose.Diagnose.ConfigStep.{IsConfigStep}
use slidko.Diagnose.Diagnose.{keys, instruction_of}

-- What the model is shown.
abbrev pub context_of : {F : Type 0} → List (Assertion F) → Retrieval → String → Context
context_of assertions retrieval board_id = record {
  assertions = map (λ a. a.text) assertions;
  board_id = board_id;
  tier = retrieval.tier;
  citable_docs = sorted (keys retrieval.fragments);
}

abbrev pub has_symptom : {F : Type 0} → List (Assertion F) → Bool
has_symptom assertions = any (λ a. contains (codes "no data on uart2") (lower a.text)) assertions

module _ {F : Type 0} ⦃fl : Float F⦄ where
  -- The instruction is the configuration step of the symptom, or, without the symptom, an acceptable proposal of the model.
  abbrev pub IsAnswer :
      (Context → Result (Proposal F))
      → List (Assertion F)
      → Retrieval
      → String
      → Instruction F
      → Type 0
  IsAnswer propose assertions r board i =
      ((has_symptom assertions ≡ true) × IsConfigStep assertions i)
      ⊎ ((has_symptom assertions ≡ false)
          × ((p : Proposal F) × (propose (context_of assertions r board) ≡ ok p)
              × (instruction_of p ≡ ok i)
              × IsAcceptable i r))
