-- ===== src/Decode/DecoderPin/Files.antt =====
-- src/slidko/decode/decoder_pin.py: where the decoders are, and the manifest as a file. The files are a dictionary from
-- paths to texts; `dumps` is `json.dumps` with the options that the source gives it, and `loads` is `json.loads`.
use slidko.Prelude.{
  ℕ, String, concat, ◌≡◌, refl, sym, ◌∙◌, ◌↔◌, inl, inr, Option, none, some, List, [], ◌∷◌, map,
  if◌then◌else◌, Bool-cases, All, lookup,
}
use Prim.Native.String.{compare}
use package.text.Mathlib.Text.{is_le}
use slidko.Decode.DecoderPin.{build_manifest, check_drift, hash_decoder, check_drift_silent}
use slidko.Result.{>>=-eq-ok, ok-injective, Result, ok, err, ◌>>=◌, file_not_found}
use slidko.Json.{
  Json, text, dict_of, as_text, as_dict, each, each-map, entries-fields_of, put, lookup-put_self,
}

abbrev default_decoder_dir : String
default_decoder_dir = "/usr/share/libsigrokdecode/decoders/"

abbrev decoder_dir_env_var : String
decoder_dir_env_var = "SLIDKO_DECODER_DIR"

abbrev dir_or_default : Option String → String
dir_or_default none = default_decoder_dir
dir_or_default (some path) = path

-- `os.environ` is a dictionary.
unfoldable pub decoder_dir : List (String × String) → String
decoder_dir environ = dir_or_default (lookup decoder_dir_env_var environ)

abbrev pub manifest_json : {F : Type 0} → List (String × String) → Json F
manifest_json manifest = dict_of (map (λ e. (e.0, text e.1)) manifest)

-- `sort_keys`
abbrev insert_item : String × String → List (String × String) → List (String × String)
insert_item e [] = e ∷ []
insert_item e (f ∷ items) =
    let rest = insert_item e items in if is_le (compare e.0 f.0) then e ∷ f ∷ items else f ∷ rest

unfoldable pub sorted_items : List (String × String) → List (String × String)
sorted_items [] = []
sorted_items (e ∷ items) = insert_item e (sorted_items items)

All-insert_item :
    (P : String × String → Type 0) (e : String × String) (items : List (String × String))
    → P e
    → All P items
    → All P (insert_item e items)
All-insert_item P e [] p ps = (p, tt)
All-insert_item P e (f ∷ items) p (q, qs) = elim (Bool-cases (is_le (compare e.0 f.0))) [
  | inl first ↦ rw first (p, (q, qs))
  | inr later ↦ rw later (q, All-insert_item P e items p qs)
]

All-sorted_items :
    (P : String × String → Type 0) (items : List (String × String))
    → All P items
    → All P (sorted_items items)
unfolding sorted_items
All-sorted_items P [] ps = tt
All-sorted_items P (e ∷ items) (p, ps) =
    All-insert_item P e (sorted_items items) p (All-sorted_items P items ps)

-- `path.read_text()`
abbrev read_text : Option String → Result String
read_text none = err file_not_found
read_text (some content) = ok content

module _ {F : Type 0} where
  abbrev entry_json : String × String → String × Json F
  entry_json e = (e.0, text e.1)

  abbrev read_entry : String × Json F → Result (String × String)
  read_entry (name, j) = as_text j >>= (λ s. ok (name, s))

  -- A value that is no text is a TypeError here; the source does not check it.
  unfoldable pub load_manifest :
      (String → Result (Json F)) → String → List (String × String) → Result (List (String × String))
  load_manifest loads path files = do
    content ← read_text (lookup path files)
    manifest ← loads content >>= as_dict
    each read_entry manifest

  unfoldable pub save_manifest :
      (Json F → String)
      → List (String × String)
      → String
      → List (String × String)
      → List (String × String)
  save_manifest dumps manifest path files =
      put path (concat (dumps (manifest_json manifest)) "\n") files

  -- What is saved is loaded, in the order that `loads` gives.
  load_manifest-save_manifest :
      (dumps : Json F → String) (loads : String → Result (Json F))
      (manifest saved files : List (String × String)) (path : String)
      → loads (concat (dumps (manifest_json manifest)) "\n") ≡ ok (manifest_json saved)
      → load_manifest loads path (save_manifest dumps manifest path files) ≡ ok saved
  unfolding load_manifest save_manifest
  load_manifest-save_manifest dumps loads manifest saved files path reads_back =
      rw
        (
          lookup-put_self path (concat (dumps (manifest_json manifest)) "\n") files,
          reads_back,
          entries-fields_of (map entry_json saved),
          each-map entry_json read_entry (λ e. refl) saved,
        )
        refl

insert_item-All :
    (P : String × String → Type 0) (e : String × String) (items : List (String × String))
    → All P (insert_item e items)
    → P e × All P items
insert_item-All P e [] (p, ps) = (p, tt)
insert_item-All P e (f ∷ items) h = elim (Bool-cases (is_le (compare e.0 f.0))) [
  | inl first ↦ rw first at h
  | inr later ↦
      let (q, qs) : P f × All P (insert_item e items) = rw later at h in
      let (p, ps) = insert_item-All P e items qs in (p, (q, ps))
]

sorted_items-All :
    (P : String × String → Type 0) (items : List (String × String))
    → All P (sorted_items items)
    → All P items
unfolding sorted_items
sorted_items-All P [] ps = tt
sorted_items-All P (e ∷ items) ps =
    let (p, rest) = insert_item-All P e (sorted_items items) ps in
    (p, sorted_items-All P items rest)

-- The decoders are read when they are pinned, and again when they are checked.
module _ (pinned installed : String → String → Result (List ℕ)) (sha256 : List ℕ → String) where
  -- The hash of a decoder is now what it was.
  abbrev IsUnchanged : String → Type 0
  IsUnchanged name = hash_decoder installed sha256 name ≡ hash_decoder pinned sha256 name

  build_manifest-IsUnchanged :
      (names : List String) (manifest : List (String × String))
      → build_manifest pinned sha256 names ≡ ok manifest
      → All (λ e. hash_decoder installed sha256 e.0 ≡ ok e.1) manifest ↔ All IsUnchanged names
  unfolding build_manifest
  build_manifest-IsUnchanged [] manifest e = rw (← ok-injective _ manifest e) (λ _. tt, λ _. tt)
  build_manifest-IsUnchanged (name ∷ names) manifest e =
      let (hash, hashed, rest) = >>=-eq-ok (hash_decoder pinned sha256 name) _ e in
      let (others, built, last) = >>=-eq-ok (build_manifest pinned sha256 names) _ rest in
      let (forth, back) = build_manifest-IsUnchanged names others built in
      rw (← ok-injective _ manifest last)
        (λ h. (h.0 ∙ sym hashed, forth h.1), λ h. (h.0 ∙ hashed, back h.1))

  -- A manifest that is built from the pinned decoders, saved and loaded is the one that was built, in the order of its
  -- names. A check against it reports no decoder exactly when every decoder is installed with the hash that it had when it
  -- was pinned. `loads` gives back what `dumps` wrote, with the keys sorted and a line feed after it.
  pub check_drift-load_manifest :
      {F : Type 0} (dumps : Json F → String) (loads : String → Result (Json F))
      (names : List String) (manifest files : List (String × String)) (path : String)
      → build_manifest pinned sha256 names ≡ ok manifest
      → loads (concat (dumps (manifest_json manifest)) "\n")
        ≡ ok (manifest_json (sorted_items manifest))
      → (load_manifest loads path (save_manifest dumps manifest path files)
          ≡ ok (sorted_items manifest))
        × ((check_drift installed sha256 (sorted_items manifest) ≡ ok []) ↔ All IsUnchanged names)
  check_drift-load_manifest dumps loads names manifest files path built reads_back =
      let (forth, back) = check_drift_silent installed sha256 (sorted_items manifest) in
      let (unchanged, same) = build_manifest-IsUnchanged names manifest built in
      let P = λ (e : String × String). hash_decoder installed sha256 e.0 ≡ ok e.1 in
      (
        load_manifest-save_manifest dumps loads manifest (sorted_items manifest) files path
            reads_back,
        (
          λ silent. unchanged (sorted_items-All P manifest (forth silent)),
          λ h. back (All-sorted_items P manifest (same h)),
        ),
      )
