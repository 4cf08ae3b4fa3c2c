-- ===== src/Measure/Best.antt =====
-- Python's `min(candidates, key=...)` and `max(candidates, key=...)` over a list that is not empty: the first of the
-- candidates whose key none is under, or over.
use slidko.Prelude.{
  ◌≡◌, inl, inr, true, false, List, [], ◌∷◌, if◌then◌else◌, Bool-cases, All, Float,
}

abbrev pub LtIsTransitive : (F : Type 0) ⦃fl : Float F⦄ → Type 0
LtIsTransitive F ⦃fl⦄ = (a b c : F) → fl.lt a b ≡ true → fl.lt b c ≡ true → fl.lt a c ≡ true

abbrev pub LtIsIrreflexive : (F : Type 0) ⦃fl : Float F⦄ → Type 0
LtIsIrreflexive F ⦃fl⦄ = (a : F) → fl.lt a a ≡ false

module _ {F : Type 0} ⦃fl : Float F⦄ {A : Type 0} (key : A → F) where
  unfoldable pub min_by : A → List A → A
  min_by best [] = best
  min_by best (x ∷ xs) = if fl.lt (key x) (key best) then min_by x xs else min_by best xs

  unfoldable pub max_by : A → List A → A
  max_by best [] = best
  max_by best (x ∷ xs) = if fl.lt (key best) (key x) then max_by x xs else max_by best xs

  -- What holds of every candidate holds of the choice.
  pub min_by-All {κ} :
      (P : A → Type κ) (best : A) (xs : List A) → P best → All P xs → P (min_by best xs)
  unfolding min_by
  min_by-All P best [] p ps = p
  min_by-All P best (x ∷ xs) p (q, ps) = elim (Bool-cases (fl.lt (key x) (key best))) [
    | inl less ↦ rw less (min_by-All P x xs q ps)
    | inr more ↦ rw more (min_by-All P best xs p ps)
  ]

  pub max_by-All {κ} :
      (P : A → Type κ) (best : A) (xs : List A) → P best → All P xs → P (max_by best xs)
  unfolding max_by
  max_by-All P best [] p ps = p
  max_by-All P best (x ∷ xs) p (q, ps) = elim (Bool-cases (fl.lt (key best) (key x))) [
    | inl more ↦ rw more (max_by-All P x xs q ps)
    | inr less ↦ rw less (max_by-All P best xs p ps)
  ]

  module _ (trans : LtIsTransitive F) where
    -- A candidate that the best one so far is not above stays so.
    not_less :
        (a b c : A)
        → fl.lt (key b) (key c) ≡ true
        → fl.lt (key a) (key c) ≡ false
        → fl.lt (key a) (key b) ≡ false
    not_less a b c less e = elim (Bool-cases (fl.lt (key a) (key b))) [
      | inl y ↦ let no = trans (key a) (key b) (key c) y less in cc
      | inr n ↦ n
    ]

    pub min_by-keeps :
        (a best : A) (xs : List A)
        → fl.lt (key a) (key best) ≡ false
        → fl.lt (key a) (key (min_by best xs)) ≡ false
    unfolding min_by
    min_by-keeps a best [] e = e
    min_by-keeps a best (x ∷ xs) e = elim (Bool-cases (fl.lt (key x) (key best))) [
      | inl less ↦ rw less (min_by-keeps a x xs (not_less a x best less e))
      | inr more ↦ rw more (min_by-keeps a best xs e)
    ]

    -- No candidate is under the choice, where nothing is under itself.
    pub min_by-least :
        (irreflexive : (x : A) → fl.lt (key x) (key x) ≡ false) (best : A) (xs : List A)
        {choice : A}
        → min_by best xs ≡ choice
        → All (λ x. fl.lt (key x) (key choice) ≡ false) (best ∷ xs)
    unfolding min_by
    min_by-least irreflexive best [] e = rw (← e) (irreflexive best, tt)
    min_by-least irreflexive best (x ∷ xs) {choice} e =
        elim (Bool-cases (fl.lt (key x) (key best))) [
          | inl less ↦
              let chosen : min_by x xs ≡ choice = (rw less at e) in
              let kept = min_by-keeps best x xs (not_less best x best less (irreflexive best)) in
              ((rw chosen at kept), min_by-least irreflexive x xs chosen)
          | inr more ↦
              let chosen : min_by best xs ≡ choice = (rw more at e) in
              let (here, later) = min_by-least irreflexive best xs chosen in
              let kept = min_by-keeps x best xs more in (here, ((rw chosen at kept), later))
        ]
