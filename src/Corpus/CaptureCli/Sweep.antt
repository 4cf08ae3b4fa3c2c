-- ===== src/Corpus/CaptureCli/Sweep.antt =====
-- src/slidko/corpus/sweep.py: one entry for each value of a cell's axis.
use slidko.Prelude.{
  ℕ, ◌+◌, ◌-◌, String, concat, Option, List, [], ◌∷◌, ltb, if◌then◌else◌, show, Float,
}
use slidko.Result.{Result, Error, ok, err, verdict_required_error}
use slidko.Json.{Json, Dict, text, float, dict_of, put}
use slidko.Corpus.CaptureCli.{Write, capture_entry}
pub mod Laws

-- `f"entry-{index:04d}"`
unfoldable pub entry_name : ℕ → String
entry_name index =
    let zeros =
      if ltb index 10
      then "000"
      else if ltb index 100
      then "00"
      else if ltb index 1000
      then "0"
      else "" in
    concat "entry-" (concat zeros (show index))

abbrev pub Outcome : Type 0
Outcome = Result (List (String × String)) × List Write

abbrev pub add_paths : String × String → Outcome → Outcome
add_paths paths (err raised, writes) = (err raised, writes)
add_paths paths (ok written, writes) = (ok (paths ∷ written), writes)

-- What the loop gives after an entry: an exception ends it.
abbrev pub after_entry : Result (String × String) × List Write → (List Write → Outcome) → Outcome
after_entry (err raised, writes) rest = (err raised, writes)
after_entry (ok paths, writes) rest = add_paths paths (rest writes)

module _ {F : Type 0} (cell axis : String) (sidecar_fields : Dict F) where
  -- `{**sidecar_fields, "sweep_cell": {...}}`
  abbrev pub fields_at : F → Dict F
  fields_at value =
      put "sweep_cell"
        (dict_of (("name", text cell) ∷ ("axis", text axis) ∷ ("value", float value) ∷ []))
        sidecar_fields

  module _ ⦃fl : Float F⦄ (dumps : Json F → Result String) (disk : Write → Option Error)
      (instrument_runner : F → Result (List ℕ)) (verdict_provider : F → Option (Dict F)) where
    -- The loop from an index on.
    unfoldable pub run_sweep : ℕ → List F → List Write → Outcome
    run_sweep index [] writes = (ok [], writes)
    run_sweep index (value ∷ values) writes =
        after_entry
          (capture_entry dumps disk cell (entry_name index) (fields_at value)
            (instrument_runner value) (verdict_provider value) writes)
          (λ later. run_sweep (index + 1) values later)
