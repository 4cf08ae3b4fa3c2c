-- ===== src/Corpus/CaptureCli/Sweep/Laws.antt =====
-- What a sweep has written, however it ends.
use slidko.Prelude.{
  ℕ, ◌+◌, String, ◌≡◌, refl, sym, ap, ◌∙◌, ◌⊎◌, inl, inr, Option, List, [], ◌∷◌, ◌++◌, append_assoc,
  Float, append-nil,
}
use slidko.Result.{Result, Error, ok, err}
use slidko.Json.{Json, Dict, dict_of}
use slidko.Corpus.Sidecar.{Sidecar}
use slidko.Corpus.Sidecar.ToJson.{to_json}
use slidko.Corpus.CaptureCli.{Write, write_bytes, write_text, entry_paths}
use slidko.Corpus.CaptureCli.Labelled.{HasLabel, IsLabelled, capture_entry-IsLabelled}
use slidko.Corpus.CaptureCli.Sweep.{
  entry_name, fields_at, Outcome, add_paths, after_entry, run_sweep,
}

module _ {F : Type 0} ⦃fl : Float F⦄ (dumps : Json F → Result String) (disk : Write → Option Error)
    (cell axis : String) (sidecar_fields : Dict F) (instrument_runner : F → Result (List ℕ))
    (verdict_provider : F → Option (Dict F)) where
  -- The paths of the entry with an index.
  abbrev pub paths_at : ℕ → String × String
  paths_at index = entry_paths cell (entry_name index)

  abbrev pub all_paths : ℕ → List F → List (String × String)
  all_paths index [] = []
  all_paths index (value ∷ values) = paths_at index ∷ all_paths (index + 1) values

  -- A sidecar with the verdict for a value, and what the instrument gave for it.
  abbrev pub HasLabelAt : ℕ → F → Sidecar F → List ℕ → Type 0
  HasLabelAt index value s sr_bytes =
      HasLabel cell (entry_name index) (fields_at cell axis sidecar_fields value) dumps disk
        (instrument_runner value) (verdict_provider value) [] s sr_bytes

  -- The capture and the sidecar of each value, in order, from an index on.
  abbrev pub AreEntries : ℕ → List F → List Write → Type 0
  AreEntries index [] writes = writes ≡ []
  AreEntries index (value ∷ values) writes =
      (s : Sidecar F) × (sr_bytes : List ℕ) × (t : String) × (later : List Write) × HasLabelAt index
        value s sr_bytes
      × (dumps (dict_of (to_json s)) ≡ ok t)
      × (writes ≡ write_bytes (paths_at index).0 sr_bytes ∷ write_text (paths_at index).1 t ∷ later)
      × AreEntries (index + 1) values later

  -- Nothing, or the capture of a value without its sidecar.
  abbrev pub IsRest : ℕ → F → List Write → Type 0
  IsRest index value writes =
      (writes ≡ [])
      ⊎ ((s : Sidecar F) × (sr_bytes : List ℕ) × HasLabelAt index value s sr_bytes
          × (writes ≡ write_bytes (paths_at index).0 sr_bytes ∷ []))

  -- Entries of the values before some value, and then at most the capture of that value.
  abbrev pub StopsEarly : ℕ → List F → List Write → Type 0
  StopsEarly index [] writes = ⊥
  StopsEarly index (value ∷ values) writes =
      IsRest index value writes
      ⊎ ((s : Sidecar F) × (sr_bytes : List ℕ) × (t : String) × (later : List Write) × HasLabelAt
            index value s sr_bytes
          × (dumps (dict_of (to_json s)) ≡ ok t)
          × (writes
              ≡ write_bytes (paths_at index).0 sr_bytes ∷ write_text (paths_at index).1 t ∷ later)
          × StopsEarly (index + 1) values later)

  -- A sweep that ends has written the entries of all values; one that raises has stopped early.
  abbrev pub IsSwept : ℕ → List F → List Write → Outcome → Type 0
  IsSwept index values writes (ok paths, after_all) =
      (paths ≡ all_paths index values)
      × ((entries : List Write) × (after_all ≡ writes ++ entries) × AreEntries index values entries)
  IsSwept index values writes (err raised, after_all) =
      (some_writes : List Write) × (after_all ≡ writes ++ some_writes)
      × StopsEarly index values some_writes

  relabel :
      (index : ℕ) (value : F) (writes : List Write) (s : Sidecar F) (sr_bytes : List ℕ)
      → HasLabel cell
          (entry_name index)
          (fields_at cell axis sidecar_fields value)
          dumps
          disk
          (instrument_runner value)
          (verdict_provider value)
          writes
          s
          sr_bytes
      → HasLabelAt index value s sr_bytes
  relabel index value writes s sr_bytes label = record {
    verdict_given = label.verdict_given;
    captured = label.captured;
    read_back = label.read_back;
  }

  after-IsSwept :
      (index : ℕ) (value : F) (values : List F) (writes : List Write)
      (outcome : Result (String × String) × List Write) (rest : List Write → Outcome)
      → IsLabelled cell
          (entry_name index)
          (fields_at cell axis sidecar_fields value)
          dumps
          disk
          (instrument_runner value)
          (verdict_provider value)
          writes
          outcome
      → ((w : List Write) → IsSwept (index + 1) values w (rest w))
      → IsSwept index (value ∷ values) writes (after_entry outcome rest)
  after-IsSwept index value values writes (err raised, w) rest (inl same) later =
      ([], same ∙ sym (append-nil writes), inl (inl refl))
  after-IsSwept index value values writes (err raised, w) rest
        (inr (s, sr_bytes, label, same, lost)) later =
      (_, same, inl (inr (s, sr_bytes, relabel index value writes s sr_bytes label, refl)))
  after-IsSwept index value values writes (ok paths, w) rest
        (s, sr_bytes, t, label, named, printed, same) later =
      added (rest w) (later w)
    where
      named_writes :
          w
          ≡ writes ++ write_bytes (paths_at index).0 sr_bytes ∷ write_text (paths_at index).1 t ∷ []
      named_writes =
          same ∙ ap (λ p. writes ++ write_bytes p.0 sr_bytes ∷ write_text p.1 t ∷ []) named

      followed :
          (v more : List Write)
          → v ≡ w ++ more
          → v
            ≡ writes
              ++ write_bytes (paths_at index).0 sr_bytes ∷ write_text (paths_at index).1 t ∷ more
      followed v more whole = whole ∙ ap (λ x. x ++ more) named_writes ∙ append_assoc writes _ more

      at_index : HasLabelAt index value s sr_bytes
      at_index = relabel index value writes s sr_bytes label

      added :
          (o : Outcome)
          → IsSwept (index + 1) values w o
          → IsSwept index (value ∷ values) writes (add_paths paths o)
      added (err raised, v) (more, whole, stop) =
          (_, followed v more whole, inr (s, sr_bytes, t, more, at_index, printed, refl, stop))
      added (ok written, v) (all_named, (entries, whole, are)) = (
        ap (λ p. p ∷ written) named ∙ ap (◌∷◌ (paths_at index)) all_named,
        (_, followed v entries whole, (s, sr_bytes, t, entries, at_index, printed, refl, are)),
      )

  -- A sweep that ends has written, after what was written before, the capture and then the sidecar of each value, in the order
  -- of the values, each with the bytes of its capture and the verdict for it, and returns their paths. A sweep that raises has
  -- written the same for the values before some value, and after that nothing but, at most, the capture of that value.
  pub run_sweep-IsSwept :
      (index : ℕ) (values : List F) (writes : List Write)
      → IsSwept index values writes (
          run_sweep cell axis sidecar_fields dumps disk instrument_runner verdict_provider index
            values writes)
  unfolding run_sweep
  run_sweep-IsSwept index [] writes = (refl, ([], sym (append-nil writes), refl))
  run_sweep-IsSwept index (value ∷ values) writes =
      after-IsSwept index value values writes _ _
        (capture_entry-IsLabelled cell (entry_name index) (fields_at cell axis sidecar_fields value)
          dumps disk (instrument_runner value) (verdict_provider value) writes)
        (run_sweep-IsSwept (index + 1) values)
