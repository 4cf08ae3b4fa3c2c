-- ===== src/Diagnose/Instruction.antt =====
-- src/slidko/diagnose/instruction.py: an instruction and the rules that it must meet.
use slidko.Prelude.{
  ℕ, ◌+◌, ◌-◌, String, concat, Bool, true, false, not, ◌&&◌, Option, none, some, List, [], ◌∷◌,
  ◌++◌, str_eq, if◌then◌else◌, codes, codes_eq, lower, contains, is_empty, show, lookup, has_key,
  text_mem, Float,
}
use slidko.Result.{Result, ok, err, type_error, ◌>>=◌}
use slidko.Decode.Backend.{Value, null, int, float, text}
use slidko.Librarian.{Retrieval, tier_dark}
pub mod Laws
pub mod Complete

-- `parameters` and the hypotheses' outcomes are dictionaries; an absent outcome dictionary is
-- `None`.
pub record Instruction (F : Type 0) : Type 0 where
  pub action : String
  pub target : String
  pub parameters : List (String × Value F)
  pub hazard_notes : String
  pub executor : String
  pub citations : List String
  pub expected_outcome_per_hypothesis : Option (List (String × String))
  pub unknown : Bool

abbrev pub is_nil {ℓ} : {A : Type ℓ} → List A → Bool
is_nil [] = true
is_nil (x ∷ xs) = false

-- The falsity of an optional dictionary: `None` and `{}`.
abbrev pub has_none {ℓ} : {A : Type ℓ} → Option (List A) → Bool
has_none none = true
has_none (some xs) = is_nil xs

unfoldable pub is_ic_pin : String → Bool
is_ic_pin target = contains (codes " pin ") (lower target)

-- An error if the test holds.
abbrev pub when : Bool → String → List String
when b message = if b then message ∷ [] else []

-- The loop over the citations.
unfoldable pub dangling : List (String × String) → List String → List String
dangling fragments [] = []
dangling fragments (citation ∷ citations) =
    let rest = dangling fragments citations in
    if has_key citation fragments then rest else concat "Dangling citation: " citation ∷ rest

abbrev pub pitch_error : Option String → List String
pitch_error none = []
pitch_error (some pitch) =
    concat "Accessibility filter: Fine pitch IC pin ("
      (concat pitch "mm) on powered board not allowed")
    ∷ []

module _ {F : Type 0} where
  unfoldable pub is_pad_level_claim : Instruction F → Bool
  is_pad_level_claim i =
      if is_empty i.action
      then false
      else text_mem i.action ("clip" ∷ "probe" ∷ "measure" ∷ "connect" ∷ [])

  unfoldable pub missing_outcome : Instruction F → List String
  missing_outcome i =
      when (has_none i.expected_outcome_per_hypothesis)
        "Missing required field: expected_outcome_per_hypothesis"

  unfoldable pub citation_errors : Instruction F → Retrieval → List String
  unfolding dangling
  citation_errors i retrieval =
      when (not i.unknown && is_nil i.citations)
        "Pad-level placement claim requires citation or unknown=True"
      ++ ((if not (is_nil i.citations) && not i.unknown
            then dangling retrieval.fragments i.citations
            else [])
          ++ when (str_eq retrieval.tier tier_dark && not i.unknown)
              "Pad-level placement claim on a dark-tier board requires unknown=True")

  unfoldable pub hazard_errors : Instruction F → List String
  hazard_errors i =
      when (is_pad_level_claim i && is_empty i.hazard_notes)
        "Pad-level placement claim requires non-empty hazard_notes"

  unfoldable pub executor_errors : Instruction F → List String
  executor_errors i =
      when (not (text_mem i.executor ("human" ∷ "exerciser" ∷ [])))
        "Executor must be 'human' or 'exerciser'"

  -- `parameters.get("power_state", "off").lower()`: a value that is no text has no `lower`.
  unfoldable pub power_state : Option (Value F) → Result (List ℕ)
  power_state none = ok (codes "off")
  power_state (some (text s)) = ok (lower s)
  power_state (some _) = err type_error

module _ {F : Type 0} ⦃fl : Float F⦄ where
  -- `pitch is not None and pitch < 0.5`: a text cannot be compared. `some` holds the printed pitch.
  unfoldable pub fine_pitch : Option (Value F) → Result (Option String)
  fine_pitch none = ok none
  fine_pitch (some null) = ok none
  fine_pitch (some (int n)) =
      ok (if fl.lt (fl.of_ℕ n) (fl.decimal 5 1) then some (show n) else none)
  fine_pitch (some (float x)) = ok (if fl.lt x (fl.decimal 5 1) then some (fl.repr x) else none)
  fine_pitch (some (text s)) = err type_error

  unfoldable pub accessibility_errors : Instruction F → Result (List String)
  unfolding power_state fine_pitch is_ic_pin
  accessibility_errors i = do
    power ← power_state (lookup "power_state" i.parameters)
    if is_ic_pin i.target && codes_eq power (codes "on")
        then (do fine ← fine_pitch (lookup "pitch" i.parameters); ok (pitch_error fine))
        else ok []

  unfoldable pub validate_instruction : Instruction F → Retrieval → Result (List String)
  unfolding missing_outcome citation_errors hazard_errors executor_errors accessibility_errors
      is_pad_level_claim
  validate_instruction i retrieval = do
    access ← (if is_pad_level_claim i then accessibility_errors i else ok [])
    ok (
        missing_outcome i
        ++ ((if is_pad_level_claim i then citation_errors i retrieval else [])
            ++ (hazard_errors i ++ (executor_errors i ++ access))))
