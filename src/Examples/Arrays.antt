-- ===== src/Examples/Arrays.antt =====
-- Array operations on fractions, for the concrete inputs, and the interval statistics at them.
use slidko.Prelude.{
  ℕ, ◌+◌, ◌/◌, ◌<◌, ◌≡◌, refl, inl, inr, Bool, true, false, ◌&&◌, none, List, [], ◌∷◌, map, arith,
  ltb, leb, if◌then◌else◌, Bool-cases, length, get_or, count_if,
}
use slidko.Prelude.Ratio.{Ratio, ratio, ratio_float}
use slidko.Numpy.{Statistics, ArgmaxIsIndex, plain_numpy}
use slidko.Measure.Edges.{gaps}
use slidko.Measure.Intervals.{
  estimate_dominant_period, compute_autocorrelation, normalized, peak_lag, first_peak,
  compute_interval_histogram, arange,
}

abbrev total : List Ratio → Ratio
total [] = ratio 0 1
total (x ∷ xs) = ratio_float.add x (total xs)

abbrev pointwise : List Ratio → List Ratio → List Ratio
pointwise [] ys = ys
pointwise (x ∷ xs) [] = x ∷ xs
pointwise (x ∷ xs) (y ∷ ys) = ratio_float.add x y ∷ pointwise xs ys

abbrev convolve : List Ratio → List Ratio → List Ratio
convolve [] ys = []
convolve (x ∷ []) ys = map (ratio_float.mul x) ys
convolve (x ∷ xs) ys = pointwise (map (ratio_float.mul x) ys) (ratio 0 1 ∷ convolve xs ys)

abbrev differences : List Ratio → List Ratio
differences [] = []
differences (a ∷ []) = []
differences (a ∷ b ∷ xs) = ratio_float.sub b a ∷ differences (b ∷ xs)

-- The index of the greatest so far, and of the next value.
abbrev greatest : Ratio → ℕ → ℕ → List Ratio → ℕ
greatest best at i [] = at
greatest best at i (x ∷ xs) =
    if ratio_float.lt best x then greatest x i (i + 1) xs else greatest best at (i + 1) xs

abbrev plain_argmax : List Ratio → ℕ
plain_argmax [] = 0
plain_argmax (x ∷ xs) = greatest x 0 1 xs

-- Bins are half open, but for the last one.
abbrev plain_histogram : List ℕ → List ℕ → List ℕ
plain_histogram xs [] = []
plain_histogram xs (a ∷ []) = []
plain_histogram xs (a ∷ b ∷ []) = count_if (λ x. leb a x && leb x b) xs ∷ []
plain_histogram xs (a ∷ b ∷ c ∷ edges) =
    count_if (λ x. leb a x && ltb x b) xs ∷ plain_histogram xs (b ∷ c ∷ edges)

abbrev insert_number : ℕ → List ℕ → List ℕ
insert_number x [] = x ∷ []
insert_number x (y ∷ ys) = let rest = y ∷ ys in if leb x y then x ∷ rest else y ∷ insert_number x ys

abbrev sort_numbers : List ℕ → List ℕ
sort_numbers [] = []
sort_numbers (x ∷ xs) = insert_number x (sort_numbers xs)

instance abbrev pub plain_statistics : Statistics Ratio
plain_statistics = record {
  fftconvolve = convolve;
  mean = λ xs. ratio_float.div (total xs) (ratio (length xs) 1);
  median = λ xs. get_or xs (length xs / 2) (ratio 0 1);
  diff = differences;
  argmax = plain_argmax;
  histogram = plain_histogram;
  sort = sort_numbers;
  clip = λ x lo hi. if ratio_float.lt x lo then lo else if ratio_float.lt hi x then hi else x;
}

greatest-lt :
    (best : Ratio) (at i : ℕ) (xs : List Ratio) → at < i → greatest best at i xs < i + length xs
greatest-lt best at i [] h = omega arith
greatest-lt best at i (x ∷ xs) h = elim (Bool-cases (ratio_float.lt best x)) [
  | inl more ↦ rw more (let rest = greatest-lt x i (i + 1) xs (omega arith) in omega arith)
  | inr less ↦ rw less (let rest = greatest-lt best at (i + 1) xs (omega arith) in omega arith)
]

plain_argmax-ArgmaxIsIndex : ArgmaxIsIndex Ratio
plain_argmax-ArgmaxIsIndex [] h = let impossible : ⊥ = omega arith in absurd impossible
plain_argmax-ArgmaxIsIndex (x ∷ xs) h =
    let inside = greatest-lt x 0 1 xs (omega arith) in omega arith

abbrev square : List Bool
square =
    true ∷ true ∷ false ∷ false ∷ true ∷ true ∷ false ∷ false ∷ true ∷ true ∷ false ∷ false ∷ []

-- The square wave has the period 4.
estimate_dominant_period_runs : (estimate_dominant_period {F = Ratio} square none).0 ≡ ratio 4 1
unfolding estimate_dominant_period compute_autocorrelation normalized peak_lag first_peak
estimate_dominant_period_runs = refl

-- Intervals of 3 and 4 samples, as many of each, fall into one bin: the last bin is closed.
histogram_runs : compute_interval_histogram Ratio (0 ∷ 3 ∷ 7 ∷ 10 ∷ 14 ∷ []) 1 ≡ (3 ∷ [], 4 ∷ [])
unfolding compute_interval_histogram arange gaps
histogram_runs = refl
