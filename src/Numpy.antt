-- ===== src/Numpy.antt =====
-- The array library that the program calls, as a parameter: its operations, and their documented
-- laws, which theorems take as hypotheses.
use slidko.Prelude.{
  ℕ, suc, ◌<◌, ◌≡◌, refl, List, [], ◌∷◌, map, if◌then◌else◌, length, ℤ, ◌-ℤ◌, is_nonzero,
}

pub record Numpy : Type 0 where
  pub diff : List ℤ → List ℤ
  pub flatnonzero : List ℤ → List ℕ

-- `np.diff` subtracts neighbours; `np.flatnonzero` gives the indices of the elements that are not 0.
pub record NumpyLaws (np : Numpy) : Type 0 where
  pub diff_nil : np.diff [] ≡ []
  pub diff_one : (a : ℤ) → np.diff (a ∷ []) ≡ []
  pub diff_cons : (a b : ℤ) (xs : List ℤ) → np.diff (a ∷ b ∷ xs) ≡ (b -ℤ a) ∷ np.diff (b ∷ xs)
  pub nonzero_nil : np.flatnonzero [] ≡ []
  pub nonzero_cons :
      (x : ℤ) (xs : List ℤ)
      → np.flatnonzero (x ∷ xs)
        ≡ (if is_nonzero x then 0 ∷ map suc (np.flatnonzero xs) else map suc (np.flatnonzero xs))

-- The operations of numpy and scipy on arrays of floats. `histogram` counts the values between
-- neighbouring bin edges.
pub record Statistics (F : Type 0) : Type 0 where
  pub fftconvolve : List F → List F → List F
  pub mean : List F → F
  pub median : List F → F
  pub diff : List F → List F
  pub argmax : List F → ℕ
  pub histogram : List ℕ → List ℕ → List ℕ
  pub clip : F → F → F → F
  pub sort : List ℕ → List ℕ

-- `np.argmax` gives an index of the array, if there is one.
abbrev pub ArgmaxIsIndex : (F : Type 0) ⦃st : Statistics F⦄ → Type 0
ArgmaxIsIndex F ⦃st⦄ = (xs : List F) → 0 < length xs → st.argmax xs < length xs

-- The laws can be met.
abbrev pub plain_diff : List ℤ → List ℤ
plain_diff [] = []
plain_diff (a ∷ []) = []
plain_diff (a ∷ b ∷ xs) = (b -ℤ a) ∷ plain_diff (b ∷ xs)

abbrev pub plain_nonzero : List ℤ → List ℕ
plain_nonzero [] = []
plain_nonzero (x ∷ xs) =
    let rest = map suc (plain_nonzero xs) in if is_nonzero x then 0 ∷ rest else rest

instance abbrev pub plain_numpy : Numpy
plain_numpy = record { diff = plain_diff; flatnonzero = plain_nonzero }

pub plain_numpy-laws : NumpyLaws plain_numpy
plain_numpy-laws = record {
  diff_nil = refl;
  diff_one = λ a. refl;
  diff_cons = λ a b xs. refl;
  nonzero_nil = refl;
  nonzero_cons = λ x xs. refl;
}
