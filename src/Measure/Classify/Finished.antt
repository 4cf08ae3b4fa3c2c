-- ===== src/Measure/Classify/Finished.antt =====
-- When the greedy loops stop.
use slidko.Prelude.{
  ℕ, zero, suc, ◌≤◌, ◌<◌, String, ◌≡◌, refl, sym, ap, ◌∙◌, ◌⊎◌, inl, inr, false, Option, none, some,
  List, [], ◌∷◌, arith, str_eq, eq_iff, ltb, tests, Bool-cases, Option-cases, length, All, text_mem,
  str_eq_self, Float,
}
use slidko.Measure.Classify.{
  Claim, Channels, names, combinations, without, improve, best_of, greedy,
}
use slidko.Measure.Classify.Names.{IsIn, IsGroup, combinations-IsGroup}

length-without-le :
    (used : List String) (channels : Channels) → length (without used channels) ≤ length channels
unfolding without
length-without-le used [] = omega arith
length-without-le used (c ∷ channels) = elim (Bool-cases (text_mem c.0 used)) [
  | inl dropped ↦ rw dropped (let h = length-without-le used channels in omega arith)
  | inr kept ↦ rw kept (let h = length-without-le used channels in omega arith)
]

-- Taking away a name that is there makes the channels fewer.
length-without-lt :
    (used : List String) (channels : Channels) (x : String)
    → IsIn (names channels) x
    → IsIn used x
    → length (without used channels) < length channels
unfolding without
length-without-lt used [] x i u = cc
length-without-lt used (c ∷ channels) x i u = elim (Bool-cases (text_mem c.0 used)) [
  | inl dropped ↦ rw dropped (let h = length-without-le used channels in omega arith)
  | inr kept ↦ elim (Bool-cases (str_eq c.0 x)) [
    | inl same ↦
        let here : c.0 ≡ x = (eq_iff c.0 x).0 same in
        let unused : text_mem x used ≡ false = ap (λ n. text_mem n used) (sym here) ∙ kept in cc
    | inr other ↦
        rw kept (let h = length-without-lt used channels x (rw other at i) u in omega arith)
  ]
]

pub group_is_used :
    (size : ℕ) (group channels : Channels)
    → 0 < size
    → IsGroup size (names channels) group
    → length (without (names group) channels) < length channels
group_is_used size [] channels some_size (subset, e) =
    let impossible : ⊥ = omega arith in absurd impossible
group_is_used size (g ∷ group) channels some_size (subset, e) =
    let here : IsIn (names (g ∷ group)) g.0 = rw (str_eq_self g.0) refl in
    length-without-lt (names (g ∷ group)) channels g.0 (subset g.0 here) here

module _ {F : Type 0} ⦃fl : Float F⦄ (find : Channels → Option (Claim F)) where
  abbrev pub IsOneOf : (Channels → Type 0) → Option (Claim F × Channels) → Type 0
  IsOneOf P none = Unit
  IsOneOf P (some (claim, group)) = P group

  improve-IsOneOf :
      (P : Channels → Type 0) (best : Option (Claim F × Channels)) (found : Option (Claim F))
      (group : Channels)
      → IsOneOf P best
      → P group
      → IsOneOf P (improve best found group)
  unfolding improve
  improve-IsOneOf P best none group b p = b
  improve-IsOneOf P none (some claim) group b p = p
  improve-IsOneOf P (some (c, g)) (some claim) group b p =
      elim (Bool-cases (fl.lt c.confidence claim.confidence)) [ inl y ↦ rw y p | inr n ↦ rw n b ]

  pub best_of-IsOneOf :
      (P : Channels → Type 0) (groups : List Channels) (best : Option (Claim F × Channels))
      → IsOneOf P best
      → All P groups
      → IsOneOf P (best_of find best groups)
  unfolding best_of
  best_of-IsOneOf P [] best b p = b
  best_of-IsOneOf P (group ∷ groups) best b p =
      best_of-IsOneOf P groups (improve best (find group) group)
        (improve-IsOneOf P best (find group) group b p.0) p.1

  -- Once there is a best claim, there is one to the end.
  improve-some :
      (c : Claim F) (g group : Channels) (found : Option (Claim F))
      → (d : Claim F × Channels) × (improve (some (c, g)) found group ≡ some d)
  unfolding improve
  improve-some c g group none = ((c, g), refl)
  improve-some c g group (some claim) = elim (Bool-cases (fl.lt c.confidence claim.confidence)) [
    | inl y ↦ rw y ((claim, group), refl)
    | inr n ↦ rw n ((c, g), refl)
  ]

  best_of-some :
      (groups : List Channels) (c : Claim F) (g : Channels)
      → ¬ (best_of find (some (c, g)) groups ≡ none)
  unfolding best_of
  best_of-some [] c g e = cc
  best_of-some (group ∷ groups) c g e =
      let (d, better) = improve-some c g group (find group) in
      best_of-some groups d.0 d.1 (rw better at e)

  pub best_of-none :
      (groups : List Channels)
      → best_of find none groups ≡ none
      → All (λ group. find group ≡ none) groups
  unfolding best_of improve
  best_of-none [] e = tt
  best_of-none (group ∷ groups) e = elim (Option-cases (find group)) [
    | inl nothing ↦ (nothing, best_of-none groups (rw nothing at e))
    | inr (claim, found) ↦ absurd (best_of-some groups claim group (rw found at e))
  ]

  -- Why the loop stops: too few channels for a group, or no group of them with a claim.
  abbrev pub IsFinished : ℕ → Channels → Type 0
  IsFinished size left =
      (length left < size) ⊎ All (λ group. find group ≡ none) (combinations size left)

  turn-IsFinished :
      (size fuel : ℕ) (remaining : Channels) (best : Option (Claim F × Channels))
      → 0 < size
      → length remaining ≤ suc fuel
      → ltb (length remaining) size ≡ false
      → best_of find none (combinations size remaining) ≡ best
      → IsOneOf (IsGroup size (names remaining)) best
      → ((r : Channels) → length r ≤ fuel → IsFinished size (greedy find size fuel r).1)
      → IsFinished size (greedy find size (suc fuel) remaining).1
  unfolding greedy
  turn-IsFinished size fuel remaining none some_size enough many e group later =
      rw (many, e) (inr (best_of-none (combinations size remaining) e))
  turn-IsFinished size fuel remaining (some (claim, group)) some_size enough many e is_group later =
      let fewer = group_is_used size group remaining some_size is_group in
      rw (many, e) (later (without (names group) remaining) (omega (arith, fewer, enough)))

  -- With as much fuel as there are channels, the greedy loop ends because fewer channels than a
  -- group needs are left, or because no group of the channels that are left has a claim.
  pub greedy-IsFinished :
      (size fuel : ℕ) (remaining : Channels)
      → 0 < size
      → length remaining ≤ fuel
      → IsFinished size (greedy find size fuel remaining).1
  unfolding greedy
  greedy-IsFinished size zero remaining some_size enough = inl (omega arith)
  greedy-IsFinished size (suc fuel) remaining some_size enough =
      elim (Bool-cases (ltb (length remaining) size)) [
        | inl few ↦ rw few (inl (omega tests))
        | inr many ↦
            turn-IsFinished size fuel remaining _ some_size enough many refl
              (best_of-IsOneOf (IsGroup size (names remaining)) (combinations size remaining) none
                tt (combinations-IsGroup size remaining))
              (λ r h. greedy-IsFinished size fuel r some_size h)
      ]
