-- ===== src/Measure/Classify/Choice.antt =====
-- The claim that a turn of the greedy loop takes: no other group's claim is above it.
use slidko.Prelude.{
  ◌≡◌, refl, ◌⊎◌, inl, inr, true, false, Option, none, some, List, [], ◌∷◌, Bool-cases, All,
  All-map_imp, Float,
}
use slidko.Measure.Best.{LtIsTransitive, LtIsIrreflexive}
use slidko.Measure.Classify.{Claim, Channels, improve, best_of}

-- The value is in the list.
abbrev pub IsMember : {A : Type 0} → A → List A → Type 0
IsMember x [] = ⊥
IsMember x (y ∷ ys) = (x ≡ y) ⊎ IsMember x ys

pub All-IsMember : {A : Type 0} (xs : List A) → All (λ x. IsMember x xs) xs
All-IsMember [] = tt
All-IsMember (x ∷ xs) = (inl refl, All-map_imp _ _ (λ y m. inr m) xs (All-IsMember xs))

module _ {F : Type 0} ⦃fl : Float F⦄ where
  -- A claim that is not under what another group has.
  abbrev pub IsNotUnder : Claim F → Option (Claim F) → Type 0
  IsNotUnder claim none = Unit
  IsNotUnder claim (some other) = fl.lt claim.confidence other.confidence ≡ false

  -- The best claim so far, or that there is none, is not under what a group has.
  abbrev pub IsAbove : Option (Claim F × Channels) → Option (Claim F) → Type 0
  IsAbove none none = Unit
  IsAbove none (some other) = ⊥
  IsAbove (some (claim, group)) found = IsNotUnder claim found

  module _ (trans : LtIsTransitive F) (irreflexive : LtIsIrreflexive F) where
    IsNotUnder-trans :
        (best claim : Claim F) (found : Option (Claim F))
        → fl.lt best.confidence claim.confidence ≡ true
        → IsNotUnder best found
        → IsNotUnder claim found
    IsNotUnder-trans best claim none less h = tt
    IsNotUnder-trans best claim (some other) less h =
        elim (Bool-cases (fl.lt claim.confidence other.confidence)) [
          | inl y ↦ let no = trans best.confidence claim.confidence other.confidence less y in cc
          | inr n ↦ n
        ]

    improve-IsAbove :
        (best : Option (Claim F × Channels)) (found : Option (Claim F)) (group : Channels)
        → IsAbove (improve best found group) found
    unfolding improve
    improve-IsAbove none none group = tt
    improve-IsAbove (some (b, g)) none group = tt
    improve-IsAbove none (some claim) group = irreflexive claim.confidence
    improve-IsAbove (some (b, g)) (some claim) group =
        elim (Bool-cases (fl.lt b.confidence claim.confidence)) [
          | inl less ↦ rw less (irreflexive claim.confidence)
          | inr not_less ↦ rw (not_less, not_less) refl
        ]

    improve-keeps :
        (best : Option (Claim F × Channels)) (found other : Option (Claim F)) (group : Channels)
        → IsAbove best other
        → IsAbove (improve best found group) other
    unfolding improve
    improve-keeps best none other group h = h
    improve-keeps none (some claim) none group h = tt
    improve-keeps none (some claim) (some d) group h = elim h [ ]
    improve-keeps (some (b, g)) (some claim) other group h =
        elim (Bool-cases (fl.lt b.confidence claim.confidence)) [
          | inl less ↦ rw less (IsNotUnder-trans b claim other less h)
          | inr not_less ↦ rw not_less h
        ]

    module _ (find : Channels → Option (Claim F)) where
      best_of-keeps :
          (groups : List Channels) (best : Option (Claim F × Channels)) (other : Option (Claim F))
          → IsAbove best other
          → IsAbove (best_of find best groups) other
      unfolding best_of
      best_of-keeps [] best other h = h
      best_of-keeps (group ∷ groups) best other h =
          best_of-keeps groups (improve best (find group) group) other
            (improve-keeps best (find group) other group h)

      pub best_of-IsAbove :
          (groups : List Channels) (best : Option (Claim F × Channels))
          → All (λ group. IsAbove (best_of find best groups) (find group)) groups
      unfolding best_of
      best_of-IsAbove [] best = tt
      best_of-IsAbove (group ∷ groups) best =
          let better = improve best (find group) group in
          (
            best_of-keeps groups better (find group) (improve-IsAbove best (find group) group),
            best_of-IsAbove groups better,
          )

  -- What is chosen is the claim of its group.
  abbrev pub IsFound : (Channels → Option (Claim F)) → Option (Claim F × Channels) → Type 0
  IsFound find none = Unit
  IsFound find (some (claim, group)) = find group ≡ some claim

  improve-IsFound :
      (find : Channels → Option (Claim F)) (best : Option (Claim F × Channels))
      (found : Option (Claim F)) (group : Channels)
      → IsFound find best
      → find group ≡ found
      → IsFound find (improve best found group)
  unfolding improve
  improve-IsFound find best none group h e = h
  improve-IsFound find none (some claim) group h e = e
  improve-IsFound find (some (b, g)) (some claim) group h e =
      elim (Bool-cases (fl.lt b.confidence claim.confidence)) [
        | inl less ↦ rw less e
        | inr not_less ↦ rw not_less h
      ]

  pub best_of-IsFound :
      (find : Channels → Option (Claim F)) (groups : List Channels)
      (best : Option (Claim F × Channels))
      → IsFound find best
      → IsFound find (best_of find best groups)
  unfolding best_of
  best_of-IsFound find [] best h = h
  best_of-IsFound find (group ∷ groups) best h =
      best_of-IsFound find groups (improve best (find group) group)
        (improve-IsFound find best (find group) group h refl)
