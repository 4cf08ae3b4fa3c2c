-- ===== src/Narrate/TransactionSummary.antt =====
-- src/slidko/narrate/transaction_summary.py: I²C events, grouped by the target of their transaction.
use slidko.Prelude.{
  ℕ, ◌+◌, String, concat, Bool, false, Option, none, some, List, [], ◌∷◌, ◌++◌, map, ltb, leb, ◌==◌,
  if◌then◌else◌, length, get_elem?, take, count_if, show, show_hex2, lookup, Float,
}
use slidko.Decode.Events.{DecodedEvent, Payload, null, int, flag, text, kind_is}
use slidko.Narrate.Model.{Evidence, Assertion, no_evidence}
use slidko.Narrate.AddressBook.{Candidate, lookup_parts}
pub mod Spans
pub mod Groups

-- A transaction in the making: `address` of its last address event, and the event indices.
pub record Transaction : Type 0 where
  pub address : Option ℕ
  pub indices : List ℕ

-- `event.data.get("address")`. Every producer stores a number; any other value counts as `None`.
abbrev number_of : Option Payload → Option ℕ
number_of (some (int n)) = some n
number_of _ = none

abbrev pub address_of : DecodedEvent → Option ℕ
address_of event = number_of (lookup "address" event.payload)

-- The transaction with event `i` added.
unfoldable pub extend : Transaction → ℕ → DecodedEvent → Transaction
extend t i event = record {
  address = if kind_is "i2c.address" event then address_of event else t.address;
  indices = t.indices ++ i ∷ [];
}

abbrev begun : ℕ → Transaction
begun i = record { address = none; indices = i ∷ [] }

abbrev finished : Option Transaction → List Transaction
finished none = []
finished (some t) = t ∷ []

-- The loop over the events, at index `i` with the transaction `current`.
unfoldable pub split_spans : ℕ → Option Transaction → List DecodedEvent → List Transaction
unfolding extend
split_spans i current [] = finished current
split_spans i none (event ∷ events) =
    split_spans (i + 1) (if kind_is "i2c.start" event then some (begun i) else none) events
split_spans i (some t) (event ∷ events) =
    let t' = extend t i event in
    let starts = split_spans (i + 1) (some (begun i)) events in
    let stops = split_spans (i + 1) none events in
    let goes_on = split_spans (i + 1) (some t') events in
    if kind_is "i2c.start" event
    then t ∷ starts
    else if kind_is "i2c.stop" event
    then t' ∷ stops
    else goes_on

-- `by_address.setdefault(addr, []).append(transaction)`
unfoldable pub add_to : ℕ → Transaction → List (ℕ × List Transaction) → List (ℕ × List Transaction)
add_to addr t [] = (addr, t ∷ []) ∷ []
add_to addr t ((a, ts) ∷ groups) =
    if a == addr then (a, ts ++ t ∷ []) ∷ groups else (a, ts) ∷ add_to addr t groups

abbrev add_if : Option ℕ → Transaction → List (ℕ × List Transaction) → List (ℕ × List Transaction)
add_if none t groups = groups
add_if (some addr) t groups = add_to addr t groups

unfoldable pub group_by_address :
    List (ℕ × List Transaction) → List Transaction → List (ℕ × List Transaction)
unfolding add_to
group_by_address groups [] = groups
group_by_address groups (t ∷ ts) = group_by_address (add_if t.address t groups) ts

-- `[i for t in addr_transactions for i in t["indices"]]`
abbrev pub all_indices : List Transaction → List ℕ
all_indices [] = []
all_indices (t ∷ ts) = t.indices ++ all_indices ts

-- `events[i].kind == "i2c.nak"`; the indices are in range.
abbrev pub is_nak_at : List DecodedEvent → ℕ → Bool
is_nak_at events i = elim (get_elem? events i) [ none ↦ false | some e ↦ kind_is "i2c.nak" e ]

abbrev join_parts : List Candidate → String
join_parts [] = ""
join_parts (c ∷ []) = c.part
join_parts (c ∷ d ∷ rest) = concat c.part (concat ", " (join_parts (d ∷ rest)))

unfoldable pub part_info : List Candidate → String
part_info [] = "unknown device"
part_info (c ∷ candidates) =
    let names = join_parts (take 3 (c ∷ candidates)) in
    if ltb 3 (length (c ∷ candidates)) then concat names " (and more)" else names

unfoldable pub summary_text : ℕ → ℕ → ℕ → String
unfolding part_info
summary_text addr transaction_count nak_count =
    let head = concat (show transaction_count) (
      concat " " (
        concat (if transaction_count == 1 then "transaction" else "transactions")
          (concat " to address 0x" (show_hex2 addr)))) in
    let naks =
      if ltb 0 nak_count
      then concat " with "
          (concat (show nak_count) (concat " NAK" (if nak_count == 1 then "" else "s")))
      else "" in
    concat head (concat naks (concat " (" (concat (part_info (lookup_parts addr)) ")")))

-- `sorted(...)` of numbers.
unfoldable pub insert_number : ℕ → List ℕ → List ℕ
insert_number x [] = x ∷ []
insert_number x (y ∷ ys) = if leb x y then x ∷ y ∷ ys else y ∷ insert_number x ys

unfoldable pub sort_numbers : List ℕ → List ℕ
unfolding insert_number
sort_numbers [] = []
sort_numbers (x ∷ xs) = insert_number x (sort_numbers xs)

module _ {F : Type 0} ⦃fl : Float F⦄ where
  unfoldable pub summary_of : List DecodedEvent → ℕ × List Transaction → Assertion F
  unfolding summary_text sort_numbers
  summary_of events (addr, ts) =
      let contributing = all_indices ts in
      record {
        kind = "transaction.summary";
        text = summary_text addr (length ts) (count_if (is_nak_at events) contributing);
        evidence = record no_evidence { event_indices = sort_numbers contributing };
        confidence = fl.decimal 9 1;
      }

  unfoldable pub summarize_transactions : List DecodedEvent → List (Assertion F)
  unfolding split_spans group_by_address summary_of
  summarize_transactions events =
      map (summary_of events) (group_by_address [] (split_spans 0 none events))
