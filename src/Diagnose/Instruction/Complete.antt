-- ===== src/Diagnose/Instruction/Complete.antt =====
-- Which instructions pass, exactly.
use slidko.Prelude.{◌≡◌, true, false, [], ◌∷◌, text_mem, Float}
use slidko.Librarian.{Retrieval}
use slidko.Diagnose.Instruction.{Instruction, has_none, is_pad_level_claim}
use slidko.Diagnose.Instruction.Laws.{IsSafePlacement}

-- What validation asks of an instruction: it states expected outcomes, it is for a human or the exerciser, and a placement
-- on a pad is safe.
pub record IsAcceptable {F : Type 0} ⦃fl : Float F⦄ (i : Instruction F) (r : Retrieval)
    : Type 0 where
  pub outcomes : has_none i.expected_outcome_per_hypothesis ≡ false
  pub executor : text_mem i.executor ("human" ∷ "exerciser" ∷ []) ≡ true
  pub placement : is_pad_level_claim i ≡ true → IsSafePlacement i r
