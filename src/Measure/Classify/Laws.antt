-- ===== src/Measure/Classify/Laws.antt =====
-- How the claims share the channels.
use slidko.Prelude.{
  ℕ, zero, suc, String, ◌≡◌, refl, sym, ap, ◌∙◌, inl, inr, Option, none, some, List, [], ◌∷◌, ◌++◌,
  map, str_eq, eq_iff, ltb, Bool-cases, length, All, All-map_imp, All-append, text_mem, Float,
}
use slidko.Measure.Classify.{
  Claim, Channels, names, combinations, without, improve, best_of, greedy,
}
use slidko.Measure.Classify.Names.{
  IsIn, IsSubset, AreDistinct, IsGroup, combinations-IsGroup, without-IsSubset, without-removes,
  without-AreDistinct,
}

within-All :
    (ns : List String) (entries : List (String × String)) (x : String)
    → All (λ e. IsIn ns e.1) entries
    → IsIn (map (λ e. e.1) entries) x
    → IsIn ns x
within-All ns [] x h i = cc
within-All ns (e ∷ entries) x h i = elim (Bool-cases (str_eq e.1 x)) [
  | inl same ↦ ap (λ n. text_mem n ns) (sym ((eq_iff e.1 x).0 same)) ∙ h.0
  | inr other ↦ within-All ns entries x h.1 (rw other at i)
]

module _ {F : Type 0} where
  -- The channels of a claim are among the names; none of them is.
  abbrev pub IsWithin : List String → Claim F → Type 0
  IsWithin ns claim = All (λ e. IsIn ns e.1) claim.channels

  abbrev pub Avoids : List String → Claim F → Type 0
  Avoids ns claim = All (λ e. ¬ IsIn ns e.1) claim.channels

  -- No channel of the first claim is one of the second.
  abbrev pub IsApart : Claim F → Claim F → Type 0
  IsApart c d = All (λ e. ¬ IsIn (map (λ x. x.1) d.channels) e.1) c.channels

  -- No channel is in two of the claims.
  abbrev pub ArePairwiseApart : List (Claim F) → Type 0
  ArePairwiseApart [] = Unit
  ArePairwiseApart (c ∷ claims) = All (IsApart c) claims × ArePairwiseApart claims

  Avoids-IsApart : (ns : List String) (c d : Claim F) → Avoids ns c → IsWithin ns d → IsApart c d
  Avoids-IsApart ns c d avoids within =
      All-map_imp _ _ (λ e h i. h (within-All ns d.channels e.1 within i)) c.channels avoids

  pub IsApart-All :
      (ns : List String) (c : Claim F) (ds : List (Claim F))
      → Avoids ns c
      → All (IsWithin ns) ds
      → All (IsApart c) ds
  IsApart-All ns c ds avoids within =
      All-map_imp _ _ (λ d h. Avoids-IsApart ns c d avoids h) ds within

  pub ArePairwiseApart-append :
      (ns : List String) (cs ds : List (Claim F))
      → ArePairwiseApart cs
      → All (Avoids ns) cs
      → ArePairwiseApart ds
      → All (IsWithin ns) ds
      → ArePairwiseApart (cs ++ ds)
  ArePairwiseApart-append ns [] ds p a q w = q
  ArePairwiseApart-append ns (c ∷ cs) ds p a q w = (
    All-append _ cs ds p.0 (IsApart-All ns c ds a.0 w),
    ArePairwiseApart-append ns cs ds p.1 a.1 q w,
  )

  pub IsWithin-IsSubset :
      (ns ms : List String) (cs : List (Claim F))
      → IsSubset ns ms
      → All (IsWithin ns) cs
      → All (IsWithin ms) cs
  IsWithin-IsSubset ns ms cs sub =
      All-map_imp _ _ (λ c h. All-map_imp _ _ (λ e i. sub e.1 i) c.channels h) cs

module _ {F : Type 0} ⦃fl : Float F⦄ (find : Channels → Option (Claim F)) where
  -- Where the search claims something of a group of `size` channels, it is about the group's
  -- channels.
  abbrev pub IsLocal : ℕ → Type 0
  IsLocal size =
      (group : Channels) (claim : Claim F)
      → length group ≡ size
      → find group ≡ some claim
      → IsWithin (names group) claim

  abbrev IsBest : Channels → Option (Claim F × Channels) → Type 0
  IsBest remaining none = Unit
  IsBest remaining (some (claim, group)) =
      IsWithin (names group) claim × IsSubset (names group) (names remaining)

  module _ (size : ℕ) (local_find : IsLocal size) where
    improve-IsBest :
        (remaining : Channels) (best : Option (Claim F × Channels)) (found : Option (Claim F))
        (group : Channels)
        → find group ≡ found
        → IsBest remaining best
        → IsGroup size (names remaining) group
        → IsBest remaining (improve best found group)
    unfolding improve
    improve-IsBest remaining best none group e b s = b
    improve-IsBest remaining none (some claim) group e b s = (local_find group claim s.1 e, s.0)
    improve-IsBest remaining (some (c, g)) (some claim) group e b s =
        elim (Bool-cases (fl.lt c.confidence claim.confidence)) [
          | inl y ↦ rw y (local_find group claim s.1 e, s.0)
          | inr n ↦ rw n b
        ]

    best_of-IsBest :
        (remaining : Channels) (best : Option (Claim F × Channels)) (groups : List Channels)
        → IsBest remaining best
        → All (IsGroup size (names remaining)) groups
        → IsBest remaining (best_of find best groups)
    unfolding best_of
    best_of-IsBest remaining best [] b s = b
    best_of-IsBest remaining best (group ∷ groups) b s =
        best_of-IsBest remaining (improve best (find group) group) groups
          (improve-IsBest remaining best (find group) group refl b s.0) s.1

    -- What the greedy loop leaves behind.
    pub record IsShared (remaining : Channels) (claims : List (Claim F)) (left : Channels)
        : Type 0 where
      pub apart : ArePairwiseApart claims
      pub within : All (IsWithin (names remaining)) claims
      pub avoids : All (Avoids (names left)) claims
      pub fewer : IsSubset (names left) (names remaining)
      pub distinct : AreDistinct (names remaining) → AreDistinct (names left)

    nothing_taken : (remaining : Channels) → IsShared remaining [] remaining
    nothing_taken remaining = record {
      apart = tt;
      within = tt;
      avoids = tt;
      fewer = λ x i. i;
      distinct = λ d. d;
    }

    module _ (fuel : ℕ) (remaining : Channels)
        (later : (r : Channels)
          → IsShared r (greedy find size fuel r).0 (greedy find size fuel r).1) where
      abbrev turn : Option (Claim F × Channels) → List (Claim F) × Channels
      turn best = elim best [
        | none ↦ ([], remaining)
        | some (claim, group) ↦
            let (claims, left) = greedy find size fuel (without (names group) remaining) in
            (claim ∷ claims, left)
      ]

      turn-IsShared :
          (best : Option (Claim F × Channels))
          → IsBest remaining best
          → IsShared remaining (turn best).0 (turn best).1
      turn-IsShared none b = nothing_taken remaining
      turn-IsShared (some (claim, group)) (inside, subset) =
          let used = names group in
          let ih = later (without used remaining) in
          let gone : Avoids (names (without used remaining)) claim =
            All-map_imp _ _ (λ e i j. without-removes used remaining e.1 j i) claim.channels
              inside in
          record {
            apart = (IsApart-All _ claim _ gone ih.within, ih.apart);
            within = (
              All-map_imp _ _ (λ e i. subset e.1 i) claim.channels inside,
              IsWithin-IsSubset _ (names remaining) _ (without-IsSubset used remaining) ih.within,
            );
            avoids = (All-map_imp _ _ (λ e h j. h (ih.fewer e.1 j)) claim.channels gone, ih.avoids);
            fewer = λ x i. without-IsSubset used remaining x (ih.fewer x i);
            distinct = λ d. ih.distinct (without-AreDistinct used remaining d);
          }

    pub greedy-IsShared :
        (fuel : ℕ) (remaining : Channels)
        → IsShared remaining (greedy find size fuel remaining).0 (greedy find size fuel remaining).1
    unfolding greedy
    greedy-IsShared zero remaining = nothing_taken remaining
    greedy-IsShared (suc fuel) remaining = elim (Bool-cases (ltb (length remaining) size)) [
      | inl few ↦ rw few (nothing_taken remaining)
      | inr enough ↦ rw enough (
          turn-IsShared fuel remaining (greedy-IsShared fuel)
            (best_of find none (combinations size remaining))
            (best_of-IsBest remaining none (combinations size remaining) tt
              (combinations-IsGroup size remaining)))
    ]
