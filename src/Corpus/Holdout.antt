-- ===== src/Corpus/Holdout.antt =====
-- src/slidko/corpus/field_gold_holdout.py: the scan for the held-out directory. The `.py` files under a source directory
-- are the parameter, each with its path relative to the root and its text, in any order; none if there is no directory.
use slidko.Prelude.{
  String, ◌≡◌, refl, ◌∙◌, Bool, true, false, not, ◌&&◌, Option, none, some, List, [], ◌∷◌, ◌++◌,
  map, arith, str_eq, any, select, codes, contains, text_mem, sorted, text_mem-sorted,
}

abbrev pub held_out_dir_name : String
held_out_dir_name = "field-gold"

abbrev pub holdout_allowlist : List String
holdout_allowlist =
    "src/slidko/corpus/paths.py" ∷ "tests/corpus/test_paths.py"
    ∷ "src/slidko/corpus/field_gold_holdout.py" ∷ "tests/corpus/test_field_gold_holdout.py" ∷ []

-- A file outside the allowlist that names the directory.
abbrev pub is_forbidden : String × String → Bool
is_forbidden (rel, text) =
    not (text_mem rel holdout_allowlist) && contains (codes held_out_dir_name) (codes text)

-- `base.rglob("*.py")`, or nothing.
abbrev pub python_files : Option (List (String × String)) → List (String × String)
python_files none = []
python_files (some files) = files

abbrev pub all_files : (String → Option (List (String × String))) → List (String × String)
all_files base = python_files (base "src") ++ python_files (base "tests")

abbrev pub paths_of : List (String × String) → List String
paths_of files = map (λ file. file.0) (select is_forbidden files)

unfoldable pub scan_for_field_gold_references :
    (String → Option (List (String × String))) → List String
scan_for_field_gold_references base = sorted (paths_of (all_files base))

abbrev no_paths : List String → Bool
no_paths [] = true
no_paths (rel ∷ forbidden) = false

unfoldable pub check_field_gold_references : (String → Option (List (String × String))) → Bool
check_field_gold_references base = no_paths (scan_for_field_gold_references base)

text_mem-paths_of :
    (rel : String) (files : List (String × String))
    → text_mem rel (paths_of files) ≡ any (λ file. str_eq file.0 rel && is_forbidden file) files
text_mem-paths_of rel [] = refl
text_mem-paths_of rel (file ∷ files) = let ih = text_mem-paths_of rel files in ground arith

-- A path is reported when it is that of a file, in either directory, which is outside the allowlist and names the
-- held-out directory; nothing else is reported.
pub scan_for_field_gold_references-reports :
    (base : String → Option (List (String × String))) (rel : String)
    → text_mem rel (scan_for_field_gold_references base)
      ≡ any (λ file. str_eq file.0 rel && is_forbidden file) (all_files base)
unfolding scan_for_field_gold_references
scan_for_field_gold_references-reports base rel =
    text_mem-sorted rel (paths_of (all_files base)) ∙ text_mem-paths_of rel (all_files base)
