-- ===== src/Corpus/CaptureCli.antt =====
-- src/slidko/corpus/paths.py, capture_cli.py and sweep.py: labelled captures. What is written is a
-- list of writes, in their order; `dumps` is `json.dumps`, and `disk` says which writes raise. Such a write is
-- not in the list, whatever it leaves of the file.
use slidko.Prelude.{
  ℕ, ◌+◌, ◌-◌, ◌/◌, String, concat, Bool, true, false, Option, none, some, List, [], ◌∷◌, ◌++◌,
  if◌then◌else◌, Float,
}
use slidko.Result.{Result, Error, ok, err, ◌>>=◌, value_error, verdict_required_error}
use slidko.Corpus.Sidecar.{Sidecar, validate}
use slidko.Corpus.Sidecar.FromJson.{from_json}
use slidko.Corpus.Sidecar.ToJson.{to_json}
use slidko.Json.{Json, Dict, text, dict_of, put}
pub mod Sweep
pub mod Labelled

unfoldable pub cell_dir : String → String
cell_dir name = concat "corpus/cells/" name

unfoldable pub entry_paths : String → String → String × String
unfolding cell_dir
entry_paths cell entry_id =
    let base = concat (cell_dir cell) (concat "/" entry_id) in
    (concat base ".sr", concat base ".json")

unfoldable pub field_gold_dir : String
field_gold_dir = "corpus/field-gold"

pub data Write : Type 0 where
  write_bytes : String → List ℕ → Write
  write_text : String → String → Write

abbrev pub is_nil : List String → Bool
is_nil [] = true
is_nil (e ∷ errors) = false

module _ {F : Type 0} where
  -- `{**sidecar_fields, "id": ..., "capture_file": ..., "receiver_verdict": verdict}`
  abbrev pub sidecar_json : String → String → Dict F → Dict F → Dict F
  sidecar_json cell entry_id sidecar_fields verdict = put "receiver_verdict" (dict_of verdict) (
      put "capture_file" (text (concat entry_id ".sr"))
        (put "id" (text (concat cell (concat "/" entry_id))) sidecar_fields))

  abbrev pub valid : Sidecar F → Result (Sidecar F)
  valid sidecar =
      if is_nil (validate sidecar)
      then ok sidecar
      else err (value_error "sidecar failed validation")

module _ {F : Type 0} ⦃fl : Float F⦄ where
  -- The sidecar of an entry. A verdict that is `None` or empty is refused.
  abbrev pub checked_sidecar : String → String → Dict F → Option (Dict F) → Result (Sidecar F)
  checked_sidecar cell entry_id sidecar_fields none = err verdict_required_error
  checked_sidecar cell entry_id sidecar_fields (some []) = err verdict_required_error
  checked_sidecar cell entry_id sidecar_fields (some (v ∷ verdict)) =
      from_json (sidecar_json cell entry_id sidecar_fields (v ∷ verdict)) >>= valid

  module _ (dumps : Json F → Result String) (disk : Write → Option Error) where
    -- A write, or what it raises.
    abbrev pub stored : Write → Result Write
    stored w = elim (disk w) [ none ↦ ok w | some raised ↦ err raised ]

    -- `json.dumps` and the write of its text.
    abbrev pub stored_sidecar : String → Sidecar F → Result Write
    stored_sidecar json_path sidecar =
        dumps (dict_of (to_json sidecar)) >>= λ t. stored (write_text json_path t)

    abbrev pub with_sidecar :
        String × String → List Write → Result Write → Result (String × String) × List Write
    with_sidecar paths writes (err raised) = (err raised, writes)
    with_sidecar paths writes (ok w) = (ok paths, writes ++ w ∷ [])

    -- The two writes of an entry: the capture, then the sidecar.
    abbrev pub with_capture :
        String × String
        → List Write
        → Sidecar F
        → Result Write
        → Result (String × String) × List Write
    with_capture paths writes sidecar (err raised) = (err raised, writes)
    with_capture paths writes sidecar (ok w) =
        with_sidecar paths (writes ++ w ∷ []) (stored_sidecar paths.1 sidecar)

    abbrev pub run_and_write :
        String
        → String
        → Result (Sidecar F)
        → Result (List ℕ)
        → List Write
        → Result (String × String) × List Write
    run_and_write cell entry_id (err raised) instrument_runner writes = (err raised, writes)
    run_and_write cell entry_id (ok sidecar) (err raised) writes = (err raised, writes)
    run_and_write cell entry_id (ok sidecar) (ok sr_bytes) writes =
        let paths = entry_paths cell entry_id in
        with_capture paths writes sidecar (stored (write_bytes paths.0 sr_bytes))

    -- `instrument_runner` and `verdict_provider` are what they return.
    unfoldable pub capture_entry :
        String
        → String
        → Dict F
        → Result (List ℕ)
        → Option (Dict F)
        → List Write
        → Result (String × String) × List Write
    capture_entry cell entry_id sidecar_fields instrument_runner verdict_provider writes =
        run_and_write cell entry_id (checked_sidecar cell entry_id sidecar_fields verdict_provider)
          instrument_runner writes
