-- ===== src/Diagnose/Diagnose.antt =====
-- src/slidko/diagnose/diagnose.py: configuration first, then a validated proposal of the model.
use slidko.Prelude.{
  ℕ, ◌-◌, String, concat, false, Option, none, some, List, [], ◌∷◌, map, if◌then◌else◌, select,
  codes, lower, contains, show_hex2, sorted, Float,
}
use slidko.Result.{Result, ok, err, type_error, validation_error, ◌>>=◌}
use slidko.Decode.Backend.{Value, text}
use slidko.Librarian.{Retrieval}
use slidko.Narrate.Model.{Assertion}
use slidko.Diagnose.ConfigPull.{MspReadCommand, command_id, command_name, build_read_request}
use slidko.Diagnose.FaultTree.{ConfigBranch, SymptomEntry, classify_symptom}
use slidko.Diagnose.Instruction.{Instruction, is_nil, validate_instruction}
use slidko.Diagnose.Llm.{Context, Proposal}
pub mod Laws
pub mod ConfigStep
pub mod Emission

-- `frame.hex()`
abbrev pub hex_text : List ℕ → String
hex_text [] = ""
hex_text (b ∷ bytes) = concat (show_hex2 b) (hex_text bytes)

abbrev or_default {ℓ} : {A : Type ℓ} → A → Option A → A
or_default d none = d
or_default d (some a) = a

-- A parameter of a constructor that has no default.
abbrev required {ℓ} : {A : Type ℓ} → Option A → Result A
required none = err type_error
required (some a) = ok a

-- The keys of a dictionary.
abbrev pub keys : List (String × String) → List String
keys d = map (λ e. e.0) d

module _ {F : Type 0} where
  unfoldable pub config_pull_instruction : ConfigBranch → Result (Instruction F)
  unfolding build_read_request command_id command_name
  config_pull_instruction branch = do
    frame ← build_read_request (command_id branch.command)
    ok (record {
      action = "config_pull";
      target = command_name branch.command;
      parameters = ("frame_hex", text (hex_text frame)) ∷ [];
      hazard_notes = "read-only MSP query; no risk to the board";
      executor = "human";
      citations = [];
      expected_outcome_per_hypothesis = some (
          (
            "config_cause",
            concat (command_name branch.command) " reveals whether this explains the symptom",
          )
          ∷ []);
      unknown = false;
    })

  unfoldable pub config_fix_instruction : ConfigBranch → Assertion F → Instruction F
  unfolding command_name
  config_fix_instruction branch evidence = record {
    action = "config_fix";
    target = command_name branch.command;
    parameters = ("cited_evidence", text evidence.text) ∷ ("fix", text branch.fix_suggestion) ∷ [];
    hazard_notes = "";
    executor = "human";
    citations = [];
    expected_outcome_per_hypothesis = some (("config_cause", branch.fix_suggestion) ∷ []);
    unknown = false;
  }

  -- `[a for a in assertions if branch.explains in a.text.lower()]`
  abbrev pub explaining : ConfigBranch → List (Assertion F) → List (Assertion F)
  explaining branch assertions =
      select (λ a. contains (codes branch.explains) (lower a.text)) assertions

  abbrev pub fix_or_pull : ConfigBranch → List (Assertion F) → Result (Instruction F)
  fix_or_pull branch [] = config_pull_instruction branch
  fix_or_pull branch (a ∷ _) = ok (config_fix_instruction branch a)

  -- `Instruction(**proposal)`: a missing key without a default, or an unexpected one, is an error.
  unfoldable pub instruction_of : Proposal F → Result (Instruction F)
  instruction_of p = do
    action ← required p.action
    target ← required p.target
    parameters ← required p.parameters
    hazard_notes ← required p.hazard_notes
    executor ← required p.executor
    citations ← required p.citations
    if p.has_extra
        then err type_error
        else ok (record {
          action = action;
          target = target;
          parameters = parameters;
          hazard_notes = hazard_notes;
          executor = executor;
          citations = citations;
          expected_outcome_per_hypothesis = or_default none p.expected_outcome_per_hypothesis;
          unknown = or_default false p.unknown;
        })

module _ {F : Type 0} ⦃fl : Float F⦄ where
  -- `errors = validate_instruction(...)`, and the raise if there are any.
  unfoldable pub checked : Retrieval → Instruction F → Result (Instruction F)
  checked retrieval instruction = do
    errors ← validate_instruction instruction retrieval
    if is_nil errors then ok instruction else err (validation_error errors)

  module _ (propose : Context → Result (Proposal F)) where
    abbrev pub ask_model : List (Assertion F) → Retrieval → String → Result (Instruction F)
    ask_model assertions retrieval board_id = do
      proposal ← propose (record {
        assertions = map (λ a. a.text) assertions;
        board_id = board_id;
        tier = retrieval.tier;
        citable_docs = sorted (keys retrieval.fragments);
      })
      instruction ← instruction_of proposal
      checked retrieval instruction

    -- The loop over the branches returns in its first round.
    abbrev try_config :
        List ConfigBranch → List (Assertion F) → Retrieval → String → Result (Instruction F)
    try_config [] assertions retrieval board_id = ask_model assertions retrieval board_id
    try_config (branch ∷ _) assertions retrieval board_id = do
      instruction ← fix_or_pull branch (explaining branch assertions)
      checked retrieval instruction

    abbrev branches_of : Option SymptomEntry → List ConfigBranch
    branches_of none = []
    branches_of (some symptom) = symptom.config_branches

    unfoldable pub diagnose :
        List (Assertion F) → (String → Result Retrieval) → String → Result (Instruction F)
    unfolding classify_symptom checked instruction_of
    diagnose assertions librarian board_id = do
      retrieval ← librarian board_id
      try_config (branches_of (classify_symptom (map (λ a. a.text) assertions))) assertions
          retrieval board_id
