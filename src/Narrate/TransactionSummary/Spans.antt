-- ===== src/Narrate/TransactionSummary/Spans.antt =====
-- Which events belong to which transaction.
use slidko.Prelude.{
  ℕ, ◌+◌, ◌≡◌, refl, ap, ◌∙◌, inl, inr, Bool, true, false, not, ◌&&◌, ◌||◌, Option, none, some,
  List, [], ◌∷◌, ◌++◌, if◌then◌else◌, Bool-cases,
}
use mathlib.Core.List.{append_assoc}
use slidko.Decode.Events.{DecodedEvent, kind_is}
use slidko.Narrate.TransactionSummary.{Transaction, extend, split_spans, all_indices, begun}

-- The indices of the events inside a transaction: a start, and each event after it up to the next
-- stop.
abbrev pub inside : ℕ → Bool → List DecodedEvent → List ℕ
inside i is_open [] = []
inside i is_open (e ∷ events) =
    let rest =
      inside (i + 1) (kind_is "i2c.start" e || (is_open && not (kind_is "i2c.stop" e))) events in
    if kind_is "i2c.start" e || is_open then i ∷ rest else rest

abbrev is_some {ℓ} : {A : Type ℓ} → Option A → Bool
is_some none = false
is_some (some a) = true

abbrev pending : Option Transaction → List ℕ
pending none = []
pending (some t) = t.indices

split_spans-inside :
    (i : ℕ) (current : Option Transaction) (events : List DecodedEvent)
    → all_indices (split_spans i current events)
      ≡ pending current ++ inside i (is_some current) events
unfolding split_spans extend
split_spans-inside i none [] = refl
split_spans-inside i (some t) [] = refl
split_spans-inside i none (e ∷ events) = elim (Bool-cases (kind_is "i2c.start" e)) [
  | inl y ↦ rw y (split_spans-inside (i + 1) (some (begun i)) events)
  | inr n ↦ rw n (split_spans-inside (i + 1) none events)
]
split_spans-inside i (some t) (e ∷ events) = elim (Bool-cases (kind_is "i2c.start" e)) [
  | inl y ↦ rw y (ap (λ xs. t.indices ++ xs) (split_spans-inside (i + 1) (some (begun i)) events))
  | inr n ↦ elim (Bool-cases (kind_is "i2c.stop" e)) [
    | inl s ↦
        rw (n, s)
          (ap (λ xs. (t.indices ++ i ∷ []) ++ xs) (split_spans-inside (i + 1) none events)
            ∙ append_assoc t.indices (i ∷ []) _)
    | inr g ↦
        rw (n, g)
          (split_spans-inside (i + 1) (some (extend t i e)) events
            ∙ append_assoc t.indices (i ∷ []) _)
  ]
]

-- The spans of `summarize_transactions`, one after the other, hold exactly the events inside a
-- transaction, each once and in order: every start, and every event after a start up to and
-- including the next stop. Events before the first start or between a stop and the next start are
-- in none.
pub split_spans-partition :
    (events : List DecodedEvent) → all_indices (split_spans 0 none events) ≡ inside 0 false events
split_spans-partition events = split_spans-inside 0 none events
