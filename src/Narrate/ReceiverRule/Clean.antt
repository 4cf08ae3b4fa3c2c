-- ===== src/Narrate/ReceiverRule/Clean.antt =====
-- Which verdicts are clean: the word alone, in any case, between blanks.
use slidko.Prelude.{
  ℕ, ◌≡◌, refl, sym, ap, ◌∙◌, ◌↔◌, inl, inr, Bool, true, ◌&&◌, List, [], ◌∷◌, ◌++◌, arith, ◌==◌,
  Bool-cases, any, all, codes, codes_eq_eq, lower,
}
use mathlib.Core.List.{reverse, reverse-append, reverse-reverse}
use slidko.Corpus.Sidecar.{ReceiverVerdict}
use slidko.Narrate.ReceiverRule.{is_space, skip_spaces, stripped_lower, verdict_is_clean}

-- The ASCII blanks: tab to carriage return, the four separators, and the space.
abbrev pub is_blank : ℕ → Bool
is_blank c = any (λ b. b == c) (9 ∷ 10 ∷ 11 ∷ 12 ∷ 13 ∷ 28 ∷ 29 ∷ 30 ∷ 31 ∷ 32 ∷ [])

-- The word "clean" between blanks.
abbrev pub IsClean : List ℕ → Type 0
IsClean cs =
    (before : List ℕ) × (after_word : List ℕ) × (all is_blank before ≡ true)
    × (all is_blank after_word ≡ true)
    × (cs ≡ before ++ (codes "clean" ++ after_word))

is_space_eq : (c : ℕ) → is_space c ≡ is_blank c
is_space_eq c = ground arith

skip-split :
    (cs : List ℕ) → (pre : List ℕ) × (all is_blank pre ≡ true) × (cs ≡ pre ++ skip_spaces cs)
skip-split [] = ([], refl, refl)
skip-split (c ∷ cs) = elim (Bool-cases (is_space c)) [
  | inl y ↦
      let (pre, blank, e) = skip-split cs in
      let first : is_blank c ≡ true = sym (is_space_eq c) ∙ y in
      rw y (c ∷ pre, rw (first, blank) refl, ap (◌∷◌ c) e)
  | inr n ↦ rw n ([], refl, refl)
]

skip-blanks : (pre cs : List ℕ) → all is_blank pre ≡ true → skip_spaces (pre ++ cs) ≡ skip_spaces cs
skip-blanks [] cs h = refl
skip-blanks (c ∷ pre) cs h = elim (Bool-cases (is_blank c)) [
  | inl y ↦
      let space : is_space c ≡ true = is_space_eq c ∙ y in rw space (skip-blanks pre cs (rw y at h))
  | inr n ↦ let bad = rw n at h in cc
]

all-append : (p : ℕ → Bool) (xs ys : List ℕ) → all p (xs ++ ys) ≡ (all p xs && all p ys)
all-append p [] ys = refl
all-append p (x ∷ xs) ys = elim (Bool-cases (p x)) [
  | inl y ↦ rw y (all-append p xs ys)
  | inr n ↦ rw n refl
]

all-reverse : (p : ℕ → Bool) (xs : List ℕ) → all p xs ≡ true → all p (reverse xs) ≡ true
all-reverse p [] h = refl
all-reverse p (x ∷ xs) h = elim (Bool-cases (p x)) [
  | inl y ↦
      let rest = all-reverse p xs (rw y at h) in
      ap (all p) (reverse-append (x ∷ []) xs)
      ∙ all-append p (reverse xs) (x ∷ [])
      ∙ rw (rest, y) refl
  | inr n ↦ let bad = rw n at h in cc
]

abbrev strip : List ℕ → List ℕ
strip cs = reverse (skip_spaces (reverse (skip_spaces cs)))

strip-split :
    (cs : List ℕ)
    → (pre : List ℕ) × (post : List ℕ) × (all is_blank pre ≡ true)
      × (all is_blank post ≡ true)
      × (cs ≡ pre ++ (strip cs ++ post))
strip-split cs =
    let (pre, blank, e) = skip-split cs in
    let (q, blank_q, f) = skip-split (reverse (skip_spaces cs)) in
    let back : skip_spaces cs ≡ strip cs ++ reverse q =
      sym (reverse-reverse (skip_spaces cs))
      ∙ ap reverse f
      ∙ reverse-append q (skip_spaces (reverse (skip_spaces cs))) in
    (pre, reverse q, blank, all-reverse is_blank q blank_q, e ∙ ap (◌++◌ pre) back)

strip-clean :
    (pre post : List ℕ)
    → all is_blank pre ≡ true
    → all is_blank post ≡ true
    → strip (pre ++ (codes "clean" ++ post)) ≡ codes "clean"
strip-clean pre post blank_pre blank_post =
    ap (λ xs. reverse (skip_spaces (reverse xs)))
      (skip-blanks pre (codes "clean" ++ post) blank_pre)
    ∙ ap (λ xs. reverse (skip_spaces xs)) (reverse-append (codes "clean") post)
    ∙ ap reverse (
        skip-blanks (reverse post) (reverse (codes "clean")) (all-reverse is_blank post blank_post))

-- A verdict is clean exactly when its text, in lower case, is the word "clean" between blanks.
pub verdict_is_clean-IsClean :
    (verdict : ReceiverVerdict)
    → (verdict_is_clean verdict ≡ true) ↔ IsClean (lower verdict.observed)
unfolding verdict_is_clean stripped_lower
verdict_is_clean-IsClean verdict =
    let cs = lower verdict.observed in
    (
      λ e.
          let (pre, post, blank_pre, blank_post, split) = strip-split cs in
          let word = codes_eq_eq (strip cs) (codes "clean") e in
          (pre, post, blank_pre, blank_post, split ∙ ap (λ xs. pre ++ (xs ++ post)) word),
      λ h.
          let (pre, post, blank_pre, blank_post, split) = h in
          let word : strip cs ≡ codes "clean" =
            ap strip split ∙ strip-clean pre post blank_pre blank_post in
          rw word refl,
    )
