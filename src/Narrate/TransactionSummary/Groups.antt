-- ===== src/Narrate/TransactionSummary/Groups.antt =====
-- Grouping by address, and the evidence of a summary.
use slidko.Prelude.{
  ℕ, suc, ◌+◌, ◌≤◌, ◌<◌, ◌≡◌, refl, sym, ap, ◌∙◌, inl, inr, Bool, true, false, Option, none, some,
  List, [], ◌∷◌, ◌++◌, map, arith, leb, ◌==◌, if◌then◌else◌, Bool-cases, length, select, All,
  All-if, length-append, append_assoc, All-append, Float, append-nil,
}
use slidko.Decode.Events.{DecodedEvent, kind_is}
use slidko.Measure.Smoke.Finding.{SmokeFinding}
use slidko.Narrate.Model.{IsTraceable}
use slidko.Narrate.TransactionSummary.{
  Transaction, extend, split_spans, all_indices, begun, add_to, add_if, group_by_address,
  insert_number, sort_numbers, summary_of, summarize_transactions,
}

-- The transactions listed under an address.
abbrev pub group_for : ℕ → List (ℕ × List Transaction) → List Transaction
group_for a [] = []
group_for a ((b, ts) ∷ groups) = if b == a then ts else group_for a groups

abbrev pub has_address : ℕ → Transaction → Bool
has_address a t = elim t.address [ none ↦ false | some b ↦ b == a ]

group_for-add_to :
    (a b : ℕ) (t : Transaction) (groups : List (ℕ × List Transaction))
    → group_for a (add_to b t groups)
      ≡ (if b == a then group_for a groups ++ t ∷ [] else group_for a groups)
unfolding add_to
group_for-add_to a b t [] = ground arith
group_for-add_to a b t ((c, ts) ∷ groups) = ground (arith, group_for-add_to a b t groups)

group_for-add_if :
    (a : ℕ) (o : Option ℕ) (t : Transaction) (groups : List (ℕ × List Transaction))
    → group_for a (add_if o t groups)
      ≡ group_for a groups ++ (if elim o [ none ↦ false | some b ↦ b == a ] then t ∷ [] else [])
group_for-add_if a none t groups = sym (append-nil _)
group_for-add_if a (some b) t groups = elim (Bool-cases (b == a)) [
  | inl y ↦ group_for-add_to a b t groups ∙ rw y refl
  | inr n ↦ group_for-add_to a b t groups ∙ rw n (sym (append-nil _))
]

group_for-group :
    (a : ℕ) (groups : List (ℕ × List Transaction)) (ts : List Transaction)
    → group_for a (group_by_address groups ts) ≡ group_for a groups ++ select (has_address a) ts
unfolding group_by_address
group_for-group a groups [] = sym (append-nil _)
group_for-group a groups (t ∷ ts) =
    group_for-group a (add_if t.address t groups) ts
    ∙ ap (λ xs. xs ++ select (has_address a) ts) (group_for-add_if a t.address t groups)
    ∙ append_assoc (group_for a groups) _ _
    ∙ ap (λ xs. group_for a groups ++ xs) (by_test (has_address a t))
  where
    by_test :
        (b : Bool)
        → (if b then t ∷ [] else []) ++ select (has_address a) ts
          ≡ (if b then t ∷ select (has_address a) ts else select (has_address a) ts)
    by_test true = refl
    by_test false = refl

-- The group of each address holds exactly the transactions that carry it, in their order: none is
-- lost, duplicated, or put under another address.
pub group_by_address-select :
    (a : ℕ) (ts : List Transaction)
    → group_for a (group_by_address [] ts) ≡ select (has_address a) ts
group_by_address-select a ts = group_for-group a [] ts

-- A transaction with at least one event, all of them among the first `n`.
pub record IsGood (n : ℕ) (t : Transaction) : Type 0 where
  pub some_event : 0 < length t.indices
  pub in_range : All (λ i. i < n) t.indices

begun-IsGood : (n i : ℕ) → i < n → IsGood n (begun i)
begun-IsGood n i h = record { some_event = omega arith; in_range = (h, tt) }

extend-IsGood :
    (n i : ℕ) (t : Transaction) (e : DecodedEvent) → i < n → IsGood n t → IsGood n (extend t i e)
unfolding extend
extend-IsGood n i t e h good = record {
  some_event = omega (arith, length-append t.indices (i ∷ []), good.some_event);
  in_range = All-append _ t.indices (i ∷ []) good.in_range (h, tt);
}

abbrev GoodPending : ℕ → Option Transaction → Type 0
GoodPending n none = Unit
GoodPending n (some t) = IsGood n t

split_spans-IsGood :
    (n i : ℕ) (current : Option Transaction) (events : List DecodedEvent)
    → i + length events ≤ n
    → GoodPending n current
    → All (IsGood n) (split_spans i current events)
unfolding split_spans
split_spans-IsGood n i none [] h good = tt
split_spans-IsGood n i (some t) [] h good = (good, tt)
split_spans-IsGood n i none (e ∷ events) h good = elim (Bool-cases (kind_is "i2c.start" e)) [
  | inl y ↦ rw y (
      split_spans-IsGood n (i + 1) (some (begun i)) events (omega arith)
        (begun-IsGood n i (omega arith)))
  | inr no_start ↦ rw no_start (split_spans-IsGood n (i + 1) none events (omega arith) tt)
]
split_spans-IsGood n i (some t) (e ∷ events) h good =
    let good' : IsGood n (extend t i e) = extend-IsGood n i t e (omega arith) good in
    All-if (IsGood n) (kind_is "i2c.start" e) _ _
      (
        good,
        split_spans-IsGood n (i + 1) (some (begun i)) events (omega arith)
            (begun-IsGood n i (omega arith)),
      )
      (All-if (IsGood n) (kind_is "i2c.stop" e) _ _
        (good', split_spans-IsGood n (i + 1) none events (omega arith) tt)
        (split_spans-IsGood n (i + 1) (some (extend t i e)) events (omega arith) good'))

abbrev GoodGroup : ℕ → ℕ × List Transaction → Type 0
GoodGroup n g = (0 < length g.1) × All (IsGood n) g.1

add_to-Good :
    (n a : ℕ) (t : Transaction) (groups : List (ℕ × List Transaction))
    → IsGood n t
    → All (GoodGroup n) groups
    → All (GoodGroup n) (add_to a t groups)
unfolding add_to
add_to-Good n a t [] good h = ((omega arith, (good, tt)), tt)
add_to-Good n a t ((b, ts) ∷ groups) good ((many, all_good), rest) =
    All-if (GoodGroup n) (b == a) _ _
      (
        (omega (arith, length-append ts (t ∷ [])), All-append _ ts (t ∷ []) all_good (good, tt)),
        rest,
      )
      ((many, all_good), add_to-Good n a t groups good rest)

group-Good :
    (n : ℕ) (groups : List (ℕ × List Transaction)) (ts : List Transaction)
    → All (GoodGroup n) groups
    → All (IsGood n) ts
    → All (GoodGroup n) (group_by_address groups ts)
unfolding group_by_address
group-Good n groups [] h good = h
group-Good n groups (t ∷ ts) h (good, rest) =
    group-Good n (add_if t.address t groups) ts (step t.address) rest
  where
    step : (o : Option ℕ) → All (GoodGroup n) (add_if o t groups)
    step none = h
    step (some a) = add_to-Good n a t groups good h

all_indices-Good :
    (n : ℕ) (ts : List Transaction) → All (IsGood n) ts → All (λ i. i < n) (all_indices ts)
all_indices-Good n [] h = tt
all_indices-Good n (t ∷ ts) (good, rest) =
    All-append _ t.indices (all_indices ts) good.in_range (all_indices-Good n ts rest)

all_indices_pos :
    (n : ℕ) (ts : List Transaction) → GoodGroup n (0, ts) → 0 < length (all_indices ts)
all_indices_pos n [] h = absurd (omega arith)
all_indices_pos n (t ∷ ts) (_, (good, _)) =
    omega (arith, length-append t.indices (all_indices ts), good.some_event)

insert_number-All :
    (P : ℕ → Type 0) (x : ℕ) (xs : List ℕ)
    → P x
    → All P xs
    → All P (insert_number x xs) × (length (insert_number x xs) ≡ suc (length xs))
unfolding insert_number
insert_number-All P x [] p h = ((p, tt), refl)
insert_number-All P x (y ∷ ys) p (q, h) =
    let (ih, len) = insert_number-All P x ys p h in
    (All-if P (leb x y) _ _ (p, (q, h)) (q, ih), ground (arith, len))

sort_numbers-All :
    (P : ℕ → Type 0) (xs : List ℕ)
    → All P xs
    → All P (sort_numbers xs) × (length (sort_numbers xs) ≡ length xs)
unfolding sort_numbers
sort_numbers-All P [] h = (tt, refl)
sort_numbers-All P (x ∷ xs) (p, h) =
    let (ih, len) = sort_numbers-All P xs h in
    let (out, more) = insert_number-All P x (sort_numbers xs) p ih in (out, omega arith)

module _ (F : Type 0) ⦃fl : Float F⦄ (events : List DecodedEvent) (findings : List (SmokeFinding F))
    (samples : ℕ) where
  summary_of-IsTraceable :
      (g : ℕ × List Transaction)
      → GoodGroup (length events) g
      → IsTraceable events findings samples (summary_of {F = F} events g)
  unfolding summary_of
  summary_of-IsTraceable (a, ts) good =
      let (kept, len) =
        sort_numbers-All (λ i. i < length events) (all_indices ts)
          (all_indices-Good (length events) ts good.1) in
      record {
        has_evidence = omega (arith, all_indices_pos (length events) ts good);
        events_exist = kept;
        findings_exist = tt;
        windows_exist = tt;
      }

  summaries-IsTraceable :
      (groups : List (ℕ × List Transaction))
      → All (GoodGroup (length events)) groups
      → All (IsTraceable events findings samples) (map (summary_of {F = F} events) groups)
  summaries-IsTraceable [] h = tt
  summaries-IsTraceable (g ∷ groups) (good, rest) =
      (summary_of-IsTraceable g good, summaries-IsTraceable groups rest)

  pub summarize_transactions-IsTraceable :
      All (IsTraceable events findings samples) (summarize_transactions {F = F} events)
  unfolding summarize_transactions
  summarize_transactions-IsTraceable = summaries-IsTraceable _ (
      group-Good (length events) [] _ tt
        (split_spans-IsGood (length events) 0 none events (omega arith) tt))
