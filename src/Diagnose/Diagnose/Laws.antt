-- ===== src/Diagnose/Diagnose/Laws.antt =====
-- What an instruction that `diagnose` emits can be trusted for.
use slidko.Prelude.{
  String, ◌≡◌, refl, inl, inr, true, Option, none, some, List, [], ◌∷◌, map, str_eq, if◌then◌else◌,
  any, any-map, codes, lower, contains, is_empty, Float,
}
use slidko.Result.{Result, ok, err, validation_error, ◌>>=◌, >>=-eq-ok, ok-injective}
use slidko.Librarian.{Retrieval, Fixture, retrieve, tier_dark}
use slidko.Narrate.Model.{Assertion}
use slidko.Diagnose.FaultTree.{ConfigBranch, SymptomEntry, classify_symptom, uart2_disabled}
use slidko.Diagnose.Instruction.{Instruction, is_nil, validate_instruction, is_pad_level_claim}
use slidko.Diagnose.Instruction.Laws.{validate_instruction-IsSafePlacement}
use slidko.Diagnose.Llm.{Context, Proposal}
use slidko.Diagnose.Diagnose.{
  config_pull_instruction, config_fix_instruction, explaining, fix_or_pull, checked, try_config,
  instruction_of, diagnose,
}

abbrev uart2_entry : SymptomEntry
uart2_entry = record { trigger = "no data on uart2"; config_branches = uart2_disabled ∷ [] }

module _ {F : Type 0} ⦃fl : Float F⦄ where
  pub checked-ok :
      (r : Retrieval) (i : Instruction F) {j : Instruction F}
      → checked r i ≡ ok j
      → validate_instruction j r ≡ ok []
  unfolding checked
  checked-ok r i {j} e =
      let (errors, v, w) = >>=-eq-ok (validate_instruction i r) _ e in by_errors errors v w
    where
      by_errors :
          (errors : List String)
          → validate_instruction i r ≡ ok errors
          → (if is_nil errors then ok i else err (validation_error errors)) ≡ ok j
          → validate_instruction j r ≡ ok []
      by_errors [] v w = rw (← ok-injective i j w) v
      by_errors (x ∷ errors) v w = cc

  module _ (propose : Context → Result (Proposal F)) where
    try_config-ok :
        (branches : List ConfigBranch) (assertions : List (Assertion F)) (r : Retrieval)
        (board : String) {i : Instruction F}
        → try_config propose branches assertions r board ≡ ok i
        → validate_instruction i r ≡ ok []
    try_config-ok [] assertions r board e =
        let (proposal, _, rest) = >>=-eq-ok (propose _) _ e in
        let (proposed, _, last) = >>=-eq-ok (instruction_of proposal) _ rest in
        checked-ok r proposed last
    try_config-ok (branch ∷ _) assertions r board e =
        let (built, _, last) = >>=-eq-ok (fix_or_pull branch (explaining branch assertions)) _ e in
        checked-ok r built last

    -- Whatever the model proposes, an instruction that `diagnose` emits has passed validation
    -- against the documents that the librarian gave for the board.
    pub diagnose-validated :
        (assertions : List (Assertion F)) (librarian : String → Result Retrieval) (board : String)
        {i : Instruction F}
        → diagnose propose assertions librarian board ≡ ok i
        → (r : Retrieval) × (librarian board ≡ ok r) × (validate_instruction i r ≡ ok [])
    unfolding diagnose
    diagnose-validated assertions librarian board e =
        let (r, found, rest) = >>=-eq-ok (librarian board) _ e in
        (r, found, try_config-ok _ assertions r board rest)

    -- On a board without a fixture, an emitted instruction that places something on a pad declares
    -- the point unknown.
    pub diagnose_dark :
        (assertions : List (Assertion F)) (fixtures : String → Option Fixture) (board : String)
        {i : Instruction F}
        → fixtures board ≡ none
        → diagnose propose assertions (λ b. ok (retrieve fixtures b)) board ≡ ok i
        → is_pad_level_claim i ≡ true
        → i.unknown ≡ true
    unfolding retrieve
    diagnose_dark assertions fixtures board {i} missing e pad =
        let (r, found, valid) =
          diagnose-validated assertions (λ b. ok (retrieve fixtures b)) board e in
        let safe = (validate_instruction-IsSafePlacement i r valid).2 pad in
        let is_dark : str_eq r.tier tier_dark ≡ true =
          rw (← ok-injective _ r found) (rw (missing, retrieve) refl) in
        elim safe.located [ inl y ↦ y | inr (_, _, light) ↦ cc ]

  config_passes :
      (assertions : List (Assertion F)) (r : Retrieval)
      → (fix_or_pull uart2_disabled assertions >>= checked r)
        ≡ fix_or_pull uart2_disabled assertions
  unfolding checked config_pull_instruction config_fix_instruction validate_instruction is_empty
  config_passes [] r = refl
  config_passes (a ∷ _) r = refl

  -- If an assertion says "no data on uart2" (in any case) and the librarian answers, the result is a
  -- configuration instruction, whatever the model would propose: the fix, if an assertion says
  -- "uart2 disabled", with the first such assertion as the evidence, and else the request for the
  -- serial configuration.
  pub diagnose_config_first :
      (propose : Context → Result (Proposal F)) (assertions : List (Assertion F))
      (librarian : String → Result Retrieval) (board : String) {r : Retrieval}
      → librarian board ≡ ok r
      → any (λ a. contains (codes "no data on uart2") (lower a.text)) assertions ≡ true
      → diagnose propose assertions librarian board
        ≡ fix_or_pull uart2_disabled (explaining uart2_disabled assertions)
  unfolding diagnose classify_symptom
  diagnose_config_first propose assertions librarian board {r} found symptom =
      rw found (rw matched (config_passes (explaining uart2_disabled assertions) r))
    where
      matched : classify_symptom (map (λ a. a.text) assertions) ≡ some uart2_entry
      matched =
          rw
            (
              any-map (λ t. contains (codes "no data on uart2") (lower t))
                  (λ (a : Assertion F). a.text) assertions,
              symptom,
            )
            refl
