-- ===== src/Examples/Repair.antt =====
-- Concrete inputs for the diagnosis.
use slidko.Prelude.{
  ℕ, String, ◌≡◌, refl, ◌≢◌, ◌⊎◌, true, false, Option, none, some, List, [], ◌∷◌, lower, contains,
  is_empty,
}
use slidko.Prelude.Ratio.{Ratio, ratio, ratio_float}
use slidko.Result.{Result, ok, err, product_boundary_error}
use slidko.Librarian.{Retrieval, Fixture, retrieve, tier_dark}
use slidko.Narrate.Model.{Assertion, no_evidence}
use slidko.Diagnose.ConfigPull.{MspReadCommand, command_id, build_read_request}
use slidko.Diagnose.ConfigPull.Laws.{IsReadFrame, build_read_request_lem}
use slidko.Diagnose.FaultTree.{classify_symptom, uart2_disabled}
use slidko.Diagnose.Instruction.{Instruction, validate_instruction}
use slidko.Diagnose.Llm.{Context, Proposal}
use slidko.Diagnose.Diagnose.{config_pull_instruction, checked, explaining, fix_or_pull, diagnose}
use slidko.Diagnose.Diagnose.Laws.{diagnose-validated}

build_read_request_example :
    ((m : MspReadCommand) × (command_id m ≡ 36)
      × ((frame : List ℕ) × (build_read_request 36 ≡ ok frame) × IsReadFrame 36 frame))
    ⊎ (((m : MspReadCommand) → command_id m ≢ 36)
        × (build_read_request 36 ≡ err (product_boundary_error 36)))
build_read_request_example = build_read_request_lem 36

abbrev probe : Instruction Ratio
probe = record {
  action = "probe";
  target = "pad TX2";
  parameters = [];
  hazard_notes = "3.3 V only";
  executor = "human";
  citations = [];
  expected_outcome_per_hypothesis = some (("open trace", "no edges") ∷ []);
  unknown = true;
}

abbrev dark_board : Retrieval
dark_board = record { board_id = "b1"; tier = tier_dark; fragments = [] }

probe_passes : validate_instruction probe dark_board ≡ ok []
unfolding validate_instruction is_empty contains lower
probe_passes = refl

abbrev proposal : Proposal Ratio
proposal = record {
  action = some "probe";
  target = some "pad TX2";
  parameters = some [];
  hazard_notes = some "3.3 V only";
  executor = some "human";
  citations = some [];
  expected_outcome_per_hypothesis = some (some (("open trace", "no edges") ∷ []));
  unknown = some true;
  has_extra = false;
}

abbrev propose : Context → Result (Proposal Ratio)
propose context = ok proposal

abbrev no_fixtures : String → Option Fixture
no_fixtures board = none

abbrev librarian : String → Result Retrieval
librarian board = ok (retrieve no_fixtures board)

probe_emitted : diagnose propose [] librarian "b1" ≡ ok probe
unfolding diagnose retrieve validate_instruction is_empty contains lower
probe_emitted = refl

diagnose-validated_example :
    (r : Retrieval) × (librarian "b1" ≡ ok r) × (validate_instruction probe r ≡ ok [])
diagnose-validated_example = diagnose-validated propose [] librarian "b1" probe_emitted

abbrev silent_port : Assertion Ratio
silent_port = record {
  kind = "note";
  text = "No data on UART2";
  evidence = no_evidence;
  confidence = ratio 1 1;
}

-- The configuration comes first.
port_pulled :
    (fix_or_pull uart2_disabled (explaining uart2_disabled (silent_port ∷ [])))
    ≡ diagnose propose (silent_port ∷ []) librarian "b1"
unfolding diagnose classify_symptom checked validate_instruction retrieve is_empty contains lower
    config_pull_instruction
port_pulled = refl

abbrev context : Context
context = record { assertions = []; board_id = "b1"; tier = tier_dark; citable_docs = [] }
