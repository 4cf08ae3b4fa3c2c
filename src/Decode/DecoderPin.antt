-- ===== src/Decode/DecoderPin.antt =====
-- src/slidko/decode/decoder_pin.py: an alarm when the installed decoders are not the pinned ones.
-- The files of the decoders and sha256 are arguments; `sha256` is given the bytes that `update` was
-- given, one after the other, as its documentation says.
use slidko.Prelude.{
  ℕ, String, ◌≡◌, refl, ap, ◌∙◌, ◌↔◌, inl, inr, Bool, true, false, not, List, [], ◌∷◌, ◌++◌, str_eq,
  eq_iff, if◌then◌else◌, Bool-cases, All, str_eq_self,
}
use slidko.Result.{Result, ok, err, ◌>>=◌, file_not_found, >>=-eq-ok, ok-injective}
pub mod Files

abbrev pub used_decoders : List String
used_decoders = "uart" ∷ "i2c" ∷ "spi" ∷ []

-- Whether the outcome of hashing a decoder is a drift: no file is one, another error is raised.
abbrev pub is_drift : String → Result String → Result Bool
is_drift expected_hash (ok actual_hash) = ok (not (str_eq actual_hash expected_hash))
is_drift expected_hash (err file_not_found) = ok true
is_drift expected_hash (err other) = err other

no_drift :
    (expected : String) (hash : Result String)
    → is_drift expected hash ≡ ok false
    → hash ≡ ok expected
no_drift expected (ok actual) e = elim (Bool-cases (str_eq actual expected)) [
  | inl same ↦ ap ok ((eq_iff actual expected).0 same)
  | inr other ↦ absurd (contradiction (rw other at e))
]
  where
    contradiction : ok true ≡ ok false → ⊥
    contradiction h = cc
no_drift expected (err file_not_found) e = cc
no_drift expected (err other) e = cc

drift_eq_nil :
    (drifted : Bool) (name : String) (names : List String)
    → ok (if drifted then name ∷ names else names) ≡ ok []
    → (drifted ≡ false) × (names ≡ [])
drift_eq_nil true name names e = cc
drift_eq_nil false name names e = (refl, ok-injective _ _ e)

-- `read_bytes name filename` reads `base_dir / name / filename`.
module _ (read_bytes : String → String → Result (List ℕ)) (sha256 : List ℕ → String) where
  unfoldable pub hash_decoder : String → Result String
  hash_decoder name = do
    pd ← read_bytes name "pd.py"
    init ← read_bytes name "__init__.py"
    ok (sha256 (pd ++ init))

  -- One pair for each name: the names are distinct in every call.
  unfoldable pub build_manifest : List String → Result (List (String × String))
  build_manifest [] = ok []
  build_manifest (name ∷ decoder_names) = do
    hash ← hash_decoder name
    rest ← build_manifest decoder_names
    ok ((name, hash) ∷ rest)

  unfoldable pub check_drift : List (String × String) → Result (List String)
  check_drift [] = ok []
  check_drift ((name, expected_hash) ∷ manifest) = do
    drifted ← is_drift expected_hash (hash_decoder name)
    rest ← check_drift manifest
    ok (if drifted then name ∷ rest else rest)

  pub build_manifest-Matches :
      (names : List String) {m : List (String × String)}
      → build_manifest names ≡ ok m
      → All (λ e. hash_decoder e.0 ≡ ok e.1) m
  unfolding build_manifest
  build_manifest-Matches [] {m} e = rw (← ok-injective _ m e) tt
  build_manifest-Matches (name ∷ names) {m} e =
      let (hash, hashed, rest) = >>=-eq-ok (hash_decoder name) _ e in
      let (others, built, last) = >>=-eq-ok (build_manifest names) _ rest in
      rw (← ok-injective _ m last) (hashed, build_manifest-Matches names built)

  -- The check is silent, without an error, exactly when every decoder of the manifest is installed
  -- with the hash that the manifest has for it.
  pub check_drift_silent :
      (manifest : List (String × String))
      → (check_drift manifest ≡ ok []) ↔ All (λ e. hash_decoder e.0 ≡ ok e.1) manifest
  unfolding check_drift
  check_drift_silent [] = (λ _. tt, λ _. refl)
  check_drift_silent ((name, expected) ∷ manifest) = (
    λ e. let (h, r) = forward e in (h, (check_drift_silent manifest).0 r),
    λ p. backward (p.0, (check_drift_silent manifest).1 p.1),
  )
    where
      forward :
          check_drift ((name, expected) ∷ manifest) ≡ ok []
          → (hash_decoder name ≡ ok expected) × (check_drift manifest ≡ ok [])
      forward e =
          let (drifted, tested, rest) = >>=-eq-ok (is_drift expected (hash_decoder name)) _ e in
          let (names, checked, last) = >>=-eq-ok (check_drift manifest) _ rest in
          let (clean, none_later) = drift_eq_nil drifted name names last in
          (no_drift expected (hash_decoder name) (tested ∙ ap ok clean), checked ∙ ap ok none_later)

      backward :
          (hash_decoder name ≡ ok expected) × (check_drift manifest ≡ ok [])
          → check_drift ((name, expected) ∷ manifest) ≡ ok []
      backward (hashed, rest) = rw (hashed, str_eq_self expected, rest) refl

  -- A manifest that was just built shows no drift.
  pub check_drift-build_manifest :
      (names : List String) {m : List (String × String)}
      → build_manifest names ≡ ok m
      → check_drift m ≡ ok []
  check_drift-build_manifest names e = (check_drift_silent _).1 (build_manifest-Matches names e)
