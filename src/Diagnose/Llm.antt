-- ===== src/Diagnose/Llm.antt =====
-- src/slidko/diagnose/llm.py: the boundary to the model. A proposal is the dictionary that
-- comes back, before anything has checked it.
use slidko.Prelude.{
  ℕ, zero, suc, String, ◌≡◌, refl, sym, ap, ◌∙◌, Bool, Option, List, [], ◌∷◌, ◌++◌, length,
}
use mathlib.Core.List.{append-nil, append_assoc}
use slidko.Result.{Result, ok, err, index_error}
use slidko.Decode.Backend.{Value}
pub mod Client

pub record Context : Type 0 where
  pub assertions : List String
  pub board_id : String
  pub tier : String
  pub citable_docs : List String

-- The keys of an instruction, present or not; `has_extra` says that there is another key.
pub record Proposal (F : Type 0) : Type 0 where
  pub action : Option String
  pub target : Option String
  pub parameters : Option (List (String × Value F))
  pub hazard_notes : Option String
  pub executor : Option String
  pub citations : Option (List String)
  pub expected_outcome_per_hypothesis : Option (Option (List (String × String)))
  pub unknown : Option Bool
  pub has_extra : Bool

-- `FakeLLM`: the canned proposals that are left, and the contexts seen.
pub record FakeLlm (P : Type 0) : Type 0 where
  pub queue : List P
  pub calls : List Context

module _ {P : Type 0} where
  abbrev served : List P → Result P × List P
  served [] = (err index_error, [])
  served (p ∷ []) = (ok p, p ∷ [])
  served (p ∷ q ∷ queue) = (ok p, q ∷ queue)

  unfoldable pub propose_instruction : FakeLlm P → Context → Result P × FakeLlm P
  propose_instruction llm context =
      let (result, queue) = served llm.queue in
      (result, record { queue = queue; calls = llm.calls ++ context ∷ [] })

  -- The answers to a sequence of calls.
  unfoldable pub answers : FakeLlm P → List Context → List (Result P) × FakeLlm P
  unfolding propose_instruction
  answers llm [] = ([], llm)
  answers llm (context ∷ contexts) =
      let (result, llm') = propose_instruction llm context in
      let (results, last) = answers llm' contexts in (result ∷ results, last)

  -- The first `n` of the proposals, the last of them repeated without end.
  abbrev pub repeated : P → List P → ℕ → List (Result P)
  repeated p queue zero = []
  repeated p [] (suc n) = ok p ∷ repeated p [] n
  repeated p (q ∷ queue) (suc n) = ok p ∷ repeated q queue n

  -- A fake model with at least one canned proposal answers every call: it gives the proposals in
  -- order and then repeats the last one, and it records every context it was called with, in order.
  pub answers_lem :
      (p : P) (queue : List P) (calls contexts : List Context)
      → let run = answers (record { queue = p ∷ queue; calls = calls }) contexts in
        (run.0 ≡ repeated p queue (length contexts)) × (run.1.calls ≡ calls ++ contexts)
  unfolding answers
  answers_lem p queue calls [] = (refl, sym (append-nil calls))
  answers_lem p [] calls (c ∷ contexts) =
      let (out, seen) = answers_lem p [] (calls ++ c ∷ []) contexts in
      (ap (◌∷◌ (ok p)) out, seen ∙ append_assoc calls (c ∷ []) contexts)
  answers_lem p (q ∷ queue) calls (c ∷ contexts) =
      let (out, seen) = answers_lem q queue (calls ++ c ∷ []) contexts in
      (ap (◌∷◌ (ok p)) out, seen ∙ append_assoc calls (c ∷ []) contexts)
