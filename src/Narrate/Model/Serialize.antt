-- ===== src/Narrate/Model/Serialize.antt =====
-- src/slidko/narrate/model.py: `Assertion.to_json` and `Assertion.from_json`. `dumps` and `loads` are those of Python's
-- `json`. The source does not check the type of a value; here a value of another type is a TypeError.
use slidko.Prelude.{ℕ, String, ◌≡◌, refl, List, [], ◌∷◌, map, Float}
use slidko.Result.{Result, ok, err, ◌>>=◌, require, type_error}
use slidko.Json.{
  Json, Dict, int, float, text, dict_of, list_of, as_text, as_number, as_float, as_dict, as_list,
  each, each-map, elements-items_of,
}
use slidko.Narrate.Model.{Evidence, Assertion}

abbrev pair_of : List ℕ → Result (ℕ × ℕ)
pair_of (start ∷ end ∷ []) = ok (start, end)
pair_of _ = err type_error

module _ {F : Type 0} where
  abbrev range_json : ℕ × ℕ → Json F
  range_json (start, end) = list_of int (start ∷ end ∷ [])

  abbrev evidence_dict : Evidence → Dict F
  evidence_dict e =
      ("event_indices", list_of int e.event_indices)
      ∷ ("sample_ranges", list_of range_json e.sample_ranges)
      ∷ ("finding_refs", list_of int e.finding_refs)
      ∷ []

  -- `asdict(self)`
  unfoldable pub asdict : Assertion F → Json F
  asdict a = dict_of (
      ("kind", text a.kind)
      ∷ ("text", text a.text)
      ∷ ("evidence", dict_of (evidence_dict a.evidence))
      ∷ ("confidence", float a.confidence)
      ∷ [])

  unfoldable pub to_json : (Json F → String) → Assertion F → String
  to_json dumps a = dumps (asdict a)

  abbrev ints : Json F → Result (List ℕ)
  ints j = as_list j >>= each as_number

  abbrev read_range : Json F → Result (ℕ × ℕ)
  read_range j = ints j >>= pair_of

  unfoldable pub evidence_of : Dict F → Result Evidence
  evidence_of evidence_data = do
    event_indices ← require "event_indices" evidence_data >>= ints
    sample_ranges ← require "sample_ranges" evidence_data >>= as_list >>= each read_range
    finding_refs ← require "finding_refs" evidence_data >>= ints
    ok (record {
      event_indices = event_indices;
      sample_ranges = sample_ranges;
      finding_refs = finding_refs;
    })

  unfoldable pub from_json :
      ⦃fl : Float F⦄ → (String → Result (Json F)) → String → Result (Assertion F)
  from_json ⦃fl⦄ loads json_str = do
    decoded ← loads json_str >>= as_dict
    evidence ← require "evidence" decoded >>= as_dict >>= evidence_of
    kind ← require "kind" decoded >>= as_text
    shown ← require "text" decoded >>= as_text
    confidence ← require "confidence" decoded >>= as_float
    ok (record { kind = kind; text = shown; evidence = evidence; confidence = confidence })

-- The lists of an assertion, written and read.
module _ (F : Type 0) where
  abbrev int_json : ℕ → Json F
  int_json n = int n

  ints-list_of : (xs : List ℕ) → ints (list_of int_json xs) ≡ ok xs
  ints-list_of xs =
      rw (elements-items_of (map int_json xs), each-map int_json as_number (λ n. refl) xs) refl

  abbrev range_item : ℕ × ℕ → Json F
  range_item r = range_json r

  ranges-list_of :
      (rs : List (ℕ × ℕ)) → (as_list (list_of range_item rs) >>= each read_range) ≡ ok rs
  ranges-list_of rs =
      rw (elements-items_of (map range_item rs), each-map range_item read_range (λ r. refl) rs) refl

  evidence_of-evidence_dict : (e : Evidence) → evidence_of (evidence_dict {F = F} e) ≡ ok e
  unfolding evidence_of
  evidence_of-evidence_dict e =
      rw (ints-list_of e.event_indices, ranges-list_of e.sample_ranges, ints-list_of e.finding_refs)
        refl

-- An assertion that is written as text is read back from the text, if `loads` gives back the value that `dumps` wrote.
pub from_json-to_json_text :
    {F : Type 0} ⦃fl : Float F⦄ (dumps : Json F → String) (loads : String → Result (Json F))
    (a : Assertion F)
    → loads (dumps (asdict a)) ≡ ok (asdict a)
    → from_json loads (to_json dumps a) ≡ ok a
unfolding from_json to_json asdict
from_json-to_json_text dumps loads a reads_back =
    rw (reads_back, evidence_of-evidence_dict _ a.evidence) refl
