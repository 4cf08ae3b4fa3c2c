-- ===== src/Diagnose/Instruction/Laws.antt =====
-- What an instruction that passes has.
use slidko.Prelude.{
  String, ◌≡◌, refl, ap, ◌∙◌, ◌↔◌, ◌⊎◌, inl, inr, Bool, true, false, not, ◌&&◌, Option, none, some,
  List, [], ◌∷◌, ◌++◌, str_eq, if◌then◌else◌, Bool-cases, all, codes, codes_eq, codes_eq_eq, lower,
  contains, is_empty, lookup, has_key, text_mem, Float,
}
use slidko.Decode.Backend.{Value}
use slidko.Result.{◌>>=◌, ok, >>=-eq-ok, ok-injective}
use slidko.Librarian.{Retrieval, tier_dark}
use slidko.Diagnose.Instruction.{
  Instruction, when, is_nil, has_none, is_pad_level_claim, dangling, missing_outcome,
  citation_errors, hazard_errors, executor_errors, accessibility_errors, validate_instruction,
  power_state, fine_pitch, pitch_error, is_ic_pin,
}

-- The board is said to be powered: its power state is the text "on", in any case.
abbrev pub IsPowered : {F : Type 0} → Option (Value F) → Type 0
IsPowered (some (Value.text s)) = lower s ≡ codes "on"
IsPowered _ = ⊥

-- A missing parameter, or a text.
abbrev pub IsTextOrAbsent : {F : Type 0} → Option (Value F) → Type 0
IsTextOrAbsent none = Unit
IsTextOrAbsent (some (Value.text s)) = Unit
IsTextOrAbsent _ = ⊥

-- A pitch of half a millimetre or more, or none.
abbrev pub IsCoarse : {F : Type 0} ⦃fl : Float F⦄ → Option (Value F) → Type 0
IsCoarse none = Unit
IsCoarse (some Value.null) = Unit
IsCoarse ⦃fl⦄ (some (Value.int n)) = fl.lt (fl.of_ℕ n) (fl.decimal 5 1) ≡ false
IsCoarse ⦃fl⦄ (some (Value.float x)) = fl.lt x (fl.decimal 5 1) ≡ false
IsCoarse (some (Value.text s)) = ⊥

abbrev pub IsPin : String → Type 0
IsPin target = contains (codes " pin ") (lower target) ≡ true

-- What may be touched: the power state is a text or missing, and a pin of a powered board has no stated pitch under half a
-- millimetre.
pub record IsReachable {F : Type 0} ⦃fl : Float F⦄ (i : Instruction F) : Type 0 where
  pub power : IsTextOrAbsent (lookup "power_state" i.parameters)
  pub coarse :
      IsPin i.target
      → IsPowered (lookup "power_state" i.parameters)
      → IsCoarse (lookup "pitch" i.parameters)

-- A placement that may be made: the point is either declared unknown, or cited, with every citation
-- in the board's documents and the board not dark; the hazard is stated; and the point may be touched.
pub record IsSafePlacement {F : Type 0} ⦃fl : Float F⦄ (i : Instruction F) (r : Retrieval)
    : Type 0 where
  pub located :
      (i.unknown ≡ true)
      ⊎ ((is_nil i.citations ≡ false)
          × (all (λ c. has_key c r.fragments) i.citations ≡ true)
          × (str_eq r.tier tier_dark ≡ false))
  pub hazard_stated : is_empty i.hazard_notes ≡ false
  pub reachable : IsReachable i

append_nil {ℓ} : {A : Type ℓ} (xs ys : List A) → xs ++ ys ≡ [] → (xs ≡ []) × (ys ≡ [])
append_nil [] ys e = (refl, e)
append_nil (x ∷ xs) ys e = cc

dangling-nil :
    (fragments : List (String × String)) (cs : List String)
    → dangling fragments cs ≡ []
    → all (λ c. has_key c fragments) cs ≡ true
unfolding dangling
dangling-nil fragments [] e = refl
dangling-nil fragments (c ∷ cs) e = elim (Bool-cases (has_key c fragments)) [
  | inl y ↦ rw y (dangling-nil fragments cs (rw y at e))
  | inr n ↦ let bad = rw n at e in cc
]

double_negation : (b : Bool) → not b ≡ false → b ≡ true
double_negation true e = refl
double_negation false e = cc

and_not : (b u : Bool) → u ≡ false → (b && not u) ≡ false → b ≡ false
and_not true u n e = let bad = rw n at e in cc
and_not false u n e = refl

when-nil : (b : Bool) (message : String) → when b message ≡ [] → b ≡ false
when-nil true message e = cc
when-nil false message e = refl

module _ {F : Type 0} ⦃fl : Float F⦄ where
  pitch_lem :
      (pitch : Option (Value F))
      → ((fine_pitch pitch >>= λ fine. ok (pitch_error fine)) ≡ ok []) ↔ IsCoarse pitch
  unfolding fine_pitch
  pitch_lem none = (λ _. tt, λ _. refl)
  pitch_lem (some Value.null) = (λ _. tt, λ _. refl)
  pitch_lem (some (Value.text s)) = (λ e. cc, λ h. absurd h)
  pitch_lem (some (Value.int n)) = elim (Bool-cases (fl.lt (fl.of_ℕ n) (fl.decimal 5 1))) [
    | inl y ↦ rw y (λ e. let bad = ok-injective _ _ e in cc, λ h. cc)
    | inr n ↦ rw n (λ _. refl, λ _. refl)
  ]
  pitch_lem (some (Value.float x)) = elim (Bool-cases (fl.lt x (fl.decimal 5 1))) [
    | inl y ↦ rw y (λ e. let bad = ok-injective _ _ e in cc, λ h. cc)
    | inr n ↦ rw n (λ _. refl, λ _. refl)
  ]

  power_lem :
      (pin : Bool) (power pitch : Option (Value F))
      → ((power_state power >>= λ state.
            if pin && codes_eq state (codes "on")
            then (fine_pitch pitch >>= λ fine. ok (pitch_error fine))
            else ok [])
          ≡ ok [])
        ↔ (IsTextOrAbsent power × (pin ≡ true → IsPowered power → IsCoarse pitch))
  unfolding power_state
  power_lem true none pitch = (λ _. (tt, λ _ h. absurd h), λ _. refl)
  power_lem false none pitch = (λ _. (tt, λ _ h. absurd h), λ _. refl)
  power_lem pin (some Value.null) pitch = (λ e. cc, λ h. absurd h.0)
  power_lem pin (some (Value.int n)) pitch = (λ e. cc, λ h. absurd h.0)
  power_lem pin (some (Value.float x)) pitch = (λ e. cc, λ h. absurd h.0)
  power_lem false (some (Value.text s)) pitch = (λ _. (tt, λ h. cc), λ _. refl)
  power_lem true (some (Value.text s)) pitch = elim (Bool-cases (codes_eq (lower s) (codes "on"))) [
    | inl on ↦ rw on (
      λ e. (tt, λ _ _. (pitch_lem pitch).0 e),
      λ h. (pitch_lem pitch).1 (h.1 refl (codes_eq_eq (lower s) (codes "on") on)),
    )
    | inr off ↦ rw off (λ _. (tt, λ _ on. let bad = rw on at off in cc), λ _. refl)
  ]

  pub accessibility_errors_iff :
      (i : Instruction F) → (accessibility_errors i ≡ ok []) ↔ IsReachable i
  unfolding accessibility_errors is_ic_pin
  accessibility_errors_iff i =
      let lem =
        power_lem (contains (codes " pin ") (lower i.target)) (lookup "power_state" i.parameters)
          (lookup "pitch" i.parameters) in
      (
        λ e. let (power, coarse) = lem.0 e in (record { power = power; coarse = coarse }),
        λ h. lem.1 (h.power, h.coarse),
      )

module _ {F : Type 0} ⦃fl : Float F⦄ (i : Instruction F) (r : Retrieval) where
  located_of :
      citation_errors i r ≡ []
      → (i.unknown ≡ true)
        ⊎ ((is_nil i.citations ≡ false)
            × (all (λ c. has_key c r.fragments) i.citations ≡ true)
            × (str_eq r.tier tier_dark ≡ false))
  unfolding citation_errors
  located_of e =
      let (uncited, rest) = append_nil _ _ e in
      let (loose, dark) = append_nil _ _ rest in
      let cited : (not i.unknown && is_nil i.citations) ≡ false = when-nil _ _ uncited in
      let light : (str_eq r.tier tier_dark && not i.unknown) ≡ false = when-nil _ _ dark in
      let resolved : (if not (is_nil i.citations) && not i.unknown
            then dangling r.fragments i.citations
            else [])
          ≡ [] =
        loose in
      elim (Bool-cases i.unknown) [
        | inl y ↦ inl y
        | inr n ↦ elim (Bool-cases (is_nil i.citations)) [
          | inl none_cited ↦ let bad = rw (n, none_cited) at cited in cc
          | inr some_cited ↦ inr (
            some_cited,
            dangling-nil r.fragments i.citations (rw (n, some_cited) at resolved),
            and_not _ i.unknown n light,
          )
        ]
      ]

  -- An instruction that passes validation states its expected outcomes, is for a human or the
  -- exerciser, and if it places something on a pad, that placement is safe: the point is declared
  -- unknown or every citation resolves on a board that is not dark, the hazard notes are not empty,
  -- and it touches no pin of a powered board with a stated pitch under half a millimetre.
  pub validate_instruction-IsSafePlacement :
      validate_instruction i r ≡ ok []
      → (has_none i.expected_outcome_per_hypothesis ≡ false)
        × (text_mem i.executor ("human" ∷ "exerciser" ∷ []) ≡ true)
        × (is_pad_level_claim i ≡ true → IsSafePlacement i r)
  unfolding validate_instruction missing_outcome executor_errors hazard_errors
  validate_instruction-IsSafePlacement e =
      let (access, a, whole) = >>=-eq-ok _ _ e in
      let (outcome, rest1) = append_nil _ _ (ok-injective _ _ whole) in
      let (cited, rest2) = append_nil _ _ rest1 in
      let (hazard, rest3) = append_nil _ _ rest2 in
      let (executor, access_nil) = append_nil _ _ rest3 in
      let by : not (text_mem i.executor ("human" ∷ "exerciser" ∷ [])) ≡ false =
        when-nil _ _ executor in
      let stated : (is_pad_level_claim i && is_empty i.hazard_notes) ≡ false =
        when-nil _ _ hazard in
      let cited_pad : (if is_pad_level_claim i then citation_errors i r else []) ≡ [] = cited in
      let access_pad : (if is_pad_level_claim i then accessibility_errors i else ok [])
          ≡ ok access =
        a in
      (
        when-nil _ _ outcome,
        double_negation _ by,
        λ pad. record {
          located = located_of (rw pad at cited_pad);
          hazard_stated = (rw pad at stated);
          reachable = (accessibility_errors_iff i).0 (rw pad at access_pad ∙ ap ok access_nil);
        },
      )
