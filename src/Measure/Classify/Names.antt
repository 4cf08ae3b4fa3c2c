-- ===== src/Measure/Classify/Names.antt =====
-- Which names a group of channels has.
use slidko.Prelude.{
  ℕ, zero, suc, String, ◌≡◌, refl, sym, ap, ◌∙◌, inl, inr, true, false, List, [], ◌∷◌, map, str_eq,
  eq_iff, Bool-cases, length, All, All-map_imp, All-append, text_mem,
}
use slidko.Measure.Classify.{Channels, names, combinations, without}

abbrev pub IsIn : List String → String → Type 0
IsIn ns x = text_mem x ns ≡ true

-- Every name of the first is one of the second.
abbrev pub IsSubset : List String → List String → Type 0
IsSubset ns ms = (x : String) → IsIn ns x → IsIn ms x

abbrev pub AreDistinct : List String → Type 0
AreDistinct [] = Unit
AreDistinct (n ∷ ns) = (¬ IsIn ns n) × AreDistinct ns

pub IsSubset-later : (n : String) (ns ms : List String) → IsSubset ns ms → IsSubset ns (n ∷ ms)
IsSubset-later n ns ms h x i = elim (Bool-cases (str_eq n x)) [
  | inl same ↦ rw same refl
  | inr other ↦ rw other (h x i)
]

pub IsSubset-both : (n : String) (ns ms : List String) → IsSubset ns ms → IsSubset (n ∷ ns) (n ∷ ms)
IsSubset-both n ns ms h x i = elim (Bool-cases (str_eq n x)) [
  | inl same ↦ rw same refl
  | inr other ↦ rw other (h x (rw other at i))
]

All-with {ℓ κ μ} :
    {A : Type ℓ} {B : Type κ} (P : B → Type μ) (f : A → B) (xs : List A)
    → All (λ x. P (f x)) xs
    → All P (map f xs)
All-with P f [] h = tt
All-with P f (x ∷ xs) h = (h.0, All-with P f xs h.1)

-- A group of `n` channels, all of them among the names.
abbrev pub IsGroup : ℕ → List String → Channels → Type 0
IsGroup n ns group = IsSubset (names group) ns × (length group ≡ n)

pub combinations-IsGroup :
    (n : ℕ) (channels : Channels) → All (IsGroup n (names channels)) (combinations n channels)
unfolding combinations
combinations-IsGroup zero channels = (((λ x i. cc), refl), tt)
combinations-IsGroup (suc n) [] = tt
combinations-IsGroup (suc n) (c ∷ channels) =
    All-append _ (map (λ group. c ∷ group) (combinations n channels)) _
      (All-with _ (λ group. c ∷ group) (combinations n channels)
        (All-map_imp _ _
          (λ group h. (IsSubset-both c.0 (names group) (names channels) h.0, ap suc h.1)) _
          (combinations-IsGroup n channels)))
      (All-map_imp _ _ (λ group h. (IsSubset-later c.0 (names group) (names channels) h.0, h.1)) _
        (combinations-IsGroup (suc n) channels))

pub without-IsSubset :
    (used : List String) (channels : Channels)
    → IsSubset (names (without used channels)) (names channels)
unfolding without
without-IsSubset used [] x i = i
without-IsSubset used (c ∷ channels) x i = elim (Bool-cases (text_mem c.0 used)) [
  | inl dropped ↦
      IsSubset-later c.0 (names (without used channels)) (names channels)
        (without-IsSubset used channels) x (rw dropped at i)
  | inr kept ↦
      IsSubset-both c.0 (names (without used channels)) (names channels)
        (without-IsSubset used channels) x (rw kept at i)
]

-- What is used is not among the channels that are left.
pub without-removes :
    (used : List String) (channels : Channels) (x : String)
    → IsIn (names (without used channels)) x
    → ¬ IsIn used x
unfolding without
without-removes used [] x i u = cc
without-removes used (c ∷ channels) x i u = elim (Bool-cases (text_mem c.0 used)) [
  | inl dropped ↦ without-removes used channels x (rw dropped at i) u
  | inr kept ↦ elim (Bool-cases (str_eq c.0 x)) [
    | inl same ↦
        let here : c.0 ≡ x = (eq_iff c.0 x).0 same in
        let unused : text_mem x used ≡ false = ap (λ n. text_mem n used) (sym here) ∙ kept in cc
    | inr other ↦ without-removes used channels x (rw (kept, other) at i) u
  ]
]

pub without-AreDistinct :
    (used : List String) (channels : Channels)
    → AreDistinct (names channels)
    → AreDistinct (names (without used channels))
unfolding without
without-AreDistinct used [] d = tt
without-AreDistinct used (c ∷ channels) d = elim (Bool-cases (text_mem c.0 used)) [
  | inl dropped ↦ rw dropped (without-AreDistinct used channels d.1)
  | inr kept ↦
      rw kept
        ((λ i. d.0 (without-IsSubset used channels c.0 i)), without-AreDistinct used channels d.1)
]
