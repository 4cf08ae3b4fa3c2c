-- ===== src/Measure/Intervals/Laws.antt =====
-- Where the period of a channel can lie.
use slidko.Prelude.{
  ℕ, ◌+◌, ◌/◌, ◌≤◌, ◌<◌, ◌≡◌, refl, ◌⊎◌, inl, inr, Bool, true, false, Option, none, some, List, [],
  ◌∷◌, arith, ltb, ◌==◌, if◌then◌else◌, Bool-cases, length, get_or, take, drop, length-map,
  length-drop, length-take, length-replicate, Float,
}
use slidko.Numpy.{Numpy, Statistics, ArgmaxIsIndex}
use slidko.Measure.Edges.{Channel}
use slidko.Measure.Intervals.{
  lag_limit, normalized, peak_after, first_peak, compute_autocorrelation, peak_lag, period_at,
  estimate_dominant_period,
}

length-if-le {ℓ} :
    {A : Type ℓ} (b : Bool) (xs ys : List A) {n : ℕ}
    → length xs ≤ n
    → length ys ≤ n
    → length (if b then xs else ys) ≤ n
length-if-le true xs ys p q = p
length-if-le false xs ys p q = q

some-eq-some {ℓ} : {A : Type ℓ} {a b : A} → some a ≡ some b → a ≡ b
some-eq-some e = cc

if-eq-some {ℓ} :
    {A : Type ℓ} (b : Bool) (o : Option A) {a : A}
    → (if b then none else o) ≡ some a
    → (b ≡ false) × (o ≡ some a)
if-eq-some true o e = cc
if-eq-some false o e = (refl, e)

module _ {F : Type 0} ⦃fl : Float F⦄ ⦃st : Statistics F⦄ where
  length-normalized-le : (limit : ℕ) (full : List F) → length (normalized limit full) ≤ limit + 1
  unfolding normalized
  length-normalized-le limit full =
      let zero_idx = length full / 2 in
      let ac0 = get_or full zero_idx (fl.of_ℕ 0) in
      elim (Bool-cases (fl.le ac0 (fl.of_ℕ 0))) [
        | inl flat ↦ rw (flat, length-replicate (limit + 1) (fl.of_ℕ 0)) (omega arith)
        | inr peaked ↦
            rw
              (
                peaked,
                length-map (λ v. fl.div v ac0) (take (limit + 1) (drop zero_idx full)),
                length-take (limit + 1) (drop zero_idx full),
              )
              (omega arith)
      ]

  length-compute_autocorrelation-le :
      (signal : Channel) (max_lag : Option ℕ) (ac : List F)
      → compute_autocorrelation signal max_lag ≡ ac
      → length ac ≤ lag_limit (length signal) max_lag + 1
  unfolding compute_autocorrelation
  length-compute_autocorrelation-le signal max_lag ac e = rw (← e) (
      length-if-le (ltb (length signal) 2) [] _ (omega arith)
        (length-normalized-le (lag_limit (length signal) max_lag) _))

  module _ ⦃np : Numpy⦄ (argmax_index : ArgmaxIsIndex F) where
    peak_after-bounds :
        (ac : List F) (search_start : ℕ) {lag : ℕ}
        → 0 < search_start
        → peak_after ac search_start ≡ some lag
        → (0 < lag) × (lag < length ac)
    peak_after-bounds ac search_start positive e =
        let region = drop search_start ac in
        let (some_left, here) =
          if-eq-some (length region == 0) (some (search_start + st.argmax region)) e in
        let inside = argmax_index region (ground (arith, some_left)) in
        let size = length-drop search_start ac in
        let lag_is = some-eq-some here in (omega arith, omega arith)

    first_peak-bounds :
        (ac : List F) (recovering : List ℕ) {lag : ℕ}
        → first_peak ac recovering ≡ some lag
        → (0 < lag) × (lag < length ac)
    unfolding first_peak
    first_peak-bounds ac [] e = cc
    first_peak-bounds ac (i ∷ recovering) e = peak_after-bounds ac (i + 1) (omega arith) e

    peak_lag-bounds :
        (ac : List F) {lag : ℕ} → peak_lag ac ≡ some lag → (0 < lag) × (lag < length ac)
    unfolding peak_lag
    peak_lag-bounds ac e = first_peak-bounds ac _ (if-eq-some (ltb (length ac) 3) _ e).1

    period_at-bounds :
        (ac : List F) (found : Option ℕ) {limit : ℕ}
        → peak_lag ac ≡ found
        → length ac ≤ limit + 1
        → (period_at ac found ≡ (fl.of_ℕ 0, fl.of_ℕ 0))
          ⊎ ((lag : ℕ) × (0 < lag) × (lag ≤ limit) × ((period_at ac found).0 ≡ fl.of_ℕ lag))
    period_at-bounds ac none e size = inl refl
    period_at-bounds ac (some lag) e size =
        let (positive, inside) = peak_lag-bounds ac e in inr (lag, positive, omega arith, refl)

    -- A period that is found is a lag of at least one sample and at most the lag limit, by default half of the
    -- signal, if `argmax` gives an index of its array.
    pub estimate_dominant_period-bounds :
        (signal : Channel) (max_lag : Option ℕ)
        → (estimate_dominant_period signal max_lag ≡ (fl.of_ℕ 0, fl.of_ℕ 0))
          ⊎ ((lag : ℕ) × (0 < lag)
              × (lag ≤ lag_limit (length signal) max_lag)
              × ((estimate_dominant_period signal max_lag).0 ≡ fl.of_ℕ lag))
    unfolding estimate_dominant_period
    estimate_dominant_period-bounds signal max_lag =
        let ac : List F = compute_autocorrelation signal max_lag in
        period_at-bounds ac _ refl (length-compute_autocorrelation-le signal max_lag ac refl)
