-- ===== src/Narrate/Coincidence/Laws.antt =====
-- What a coincidence points at, and which pairs of a NAK and a finding have one.
use slidko.Prelude.{
  ℕ, zero, suc, ◌+◌, ◌*◌, ◌/◌, ◌≤◌, ◌<◌, ◌≡◌, refl, sym, ap, ◌∙◌, inl, inr, Bool, true, false, not,
  some, List, [], ◌∷◌, ◌++◌, map, arith, ltb, leb, distance, Bool-cases, length, get_elem?, select,
  All, All-map_imp, All-append, Float,
}
use slidko.Decode.Events.{DecodedEvent, kind_is}
use slidko.Measure.Smoke.Finding.{SmokeFinding}
use slidko.Narrate.Model.{Assertion, IsWindow, IsTraceable}
use slidko.Narrate.Coincidence.{
  coincidence_window_us, window_samples, coincidence, near_findings, near_events,
  detect_coincidences,
}

-- The evidence is one NAK and one finding, both in the lists, whose starts are at most the window
-- apart.
pub record IsCoincidence {F : Type 0} (events : List DecodedEvent)
    (findings : List (SmokeFinding F)) (samplerate_hz : ℕ) (a : Assertion F) : Type 0 where
  pub event_idx : ℕ
  pub finding_idx : ℕ
  pub event : DecodedEvent
  pub finding : SmokeFinding F
  pub event_found : get_elem? events event_idx ≡ some event
  pub finding_found : get_elem? findings finding_idx ≡ some finding
  pub is_nak : kind_is "i2c.nak" event ≡ true
  pub is_near :
      distance event.start_sample finding.start_sample * 1_000_000
      ≤ coincidence_window_us * samplerate_hz
  pub points_at : a.evidence ≡ record {
    event_indices = event_idx ∷ [];
    sample_ranges =
        (event.start_sample, event.end_sample) ∷ (finding.start_sample, finding.end_sample) ∷ [];
    finding_refs = finding_idx ∷ [];
  }

-- The list `rest` is `all` from index `i` on.
abbrev IsFrom {ℓ} : {A : Type ℓ} → List A → ℕ → List A → Type ℓ
IsFrom xs i rest = (k : ℕ) → get_elem? rest k ≡ get_elem? xs (i + k)

IsFrom-tail {ℓ} :
    {A : Type ℓ} (xs : List A) (i : ℕ) (x : A) (rest : List A)
    → IsFrom xs i (x ∷ rest)
    → IsFrom xs (i + 1) rest
IsFrom-tail xs i x rest h k =
    let e : i + suc k ≡ i + 1 + k = omega arith in h (suc k) ∙ ap (get_elem? xs) e

IsFrom-head {ℓ} :
    {A : Type ℓ} (xs : List A) (i : ℕ) (x : A) (rest : List A)
    → IsFrom xs i (x ∷ rest)
    → get_elem? xs i ≡ some x
IsFrom-head xs i x rest h = let e : i + 0 ≡ i = omega arith in sym (h 0 ∙ ap (get_elem? xs) e)

get_elem?-lt {ℓ} :
    {A : Type ℓ} (xs : List A) (i : ℕ) (a : A) → get_elem? xs i ≡ some a → i < length xs
get_elem?-lt [] i a e = cc
get_elem?-lt (x ∷ xs) zero a e = omega arith
get_elem?-lt (x ∷ xs) (suc i) a e = omega (arith, get_elem?-lt xs i a e)

-- Each element with its index, from an index on.
abbrev pub numbered {ℓ} : {A : Type ℓ} → ℕ → List A → List (ℕ × A)
numbered i [] = []
numbered i (x ∷ xs) = (i, x) ∷ numbered (i + 1) xs

-- A finding at most 100 microseconds from an event, start from start.
abbrev pub is_near_to : {F : Type 0} → ℕ → DecodedEvent → SmokeFinding F → Bool
is_near_to samplerate_hz e f =
    leb (distance e.start_sample f.start_sample * 1_000_000) (coincidence_window_us * samplerate_hz)

abbrev pub pairs_with :
    {F : Type 0} → ℕ → List (ℕ × SmokeFinding F) → ℕ × DecodedEvent → List (List ℕ × List ℕ)
pairs_with samplerate_hz findings (i, e) =
    map (λ p. (i ∷ [], p.0 ∷ [])) (select (λ p. is_near_to samplerate_hz e p.1) findings)

abbrev pub join_all {ℓ} : {A : Type ℓ} → List (List A) → List A
join_all [] = []
join_all (xs ∷ rest) = xs ++ join_all rest

-- The index of each NAK with the index of each finding near it.
abbrev pub near_pairs :
    {F : Type 0} → ℕ → List (ℕ × DecodedEvent) → List (ℕ × SmokeFinding F) → List (List ℕ × List ℕ)
near_pairs samplerate_hz events findings =
    join_all (map (pairs_with samplerate_hz findings) (select (λ p. kind_is "i2c.nak" p.1) events))

-- What an assertion refers to.
abbrev pub references : {F : Type 0} → Assertion F → List ℕ × List ℕ
references a = (a.evidence.event_indices, a.evidence.finding_refs)

window_lem :
    (rate d : ℕ)
    → ltb (window_samples rate) d ≡ false
    → d * 1_000_000 ≤ coincidence_window_us * rate
unfolding window_samples
window_lem rate d h = let near : d ≤ 100 * rate / 1_000_000 = ground (arith, h) in omega arith

window_test :
    (rate d : ℕ)
    → leb (d * 1_000_000) (coincidence_window_us * rate) ≡ not (ltb (window_samples rate) d)
unfolding window_samples
window_test rate d = ground arith

map-append_pairs {ℓ} :
    {A B : Type ℓ} (f : A → B) (xs ys : List A) → map f (xs ++ ys) ≡ map f xs ++ map f ys
map-append_pairs f [] ys = refl
map-append_pairs f (x ∷ xs) ys = ap (◌∷◌ (f x)) (map-append_pairs f xs ys)

module _ {F : Type 0} ⦃fl : Float F⦄ (samplerate_hz : ℕ) where
  near_findings-pairs :
      (i : ℕ) (e : DecodedEvent) (j : ℕ) (fs : List (SmokeFinding F))
      → map references (near_findings samplerate_hz i e j fs)
        ≡ pairs_with samplerate_hz (numbered j fs) (i, e)
  unfolding near_findings coincidence
  near_findings-pairs i e j [] = refl
  near_findings-pairs i e j (f ∷ fs) =
      let same = window_test samplerate_hz (distance e.start_sample f.start_sample) in
      elim (Bool-cases
        (ltb (window_samples samplerate_hz) (distance e.start_sample f.start_sample))) [
          | inl far ↦ rw (same, far) (near_findings-pairs i e (j + 1) fs)
          | inr near ↦
              rw (same, near) (ap (◌∷◌ (i ∷ [], j ∷ [])) (near_findings-pairs i e (j + 1) fs))
        ]

  near_events-pairs :
      (i : ℕ) (es : List DecodedEvent) (fs : List (SmokeFinding F))
      → map references (near_events samplerate_hz i es fs)
        ≡ near_pairs samplerate_hz (numbered i es) (numbered 0 fs)
  unfolding near_events
  near_events-pairs i [] fs = refl
  near_events-pairs i (e ∷ es) fs = elim (Bool-cases (kind_is "i2c.nak" e)) [
    | inl y ↦ rw y (
        map-append_pairs references (near_findings samplerate_hz i e 0 fs)
          (near_events samplerate_hz (i + 1) es fs)
        ∙ ap (λ xs. xs ++ map references (near_events samplerate_hz (i + 1) es fs))
            (near_findings-pairs i e 0 fs)
        ∙ ap (◌++◌ (pairs_with samplerate_hz (numbered 0 fs) (i, e)))
            (near_events-pairs (i + 1) es fs))
    | inr n ↦ rw n (near_events-pairs (i + 1) es fs)
  ]

  module _ (events : List DecodedEvent) (findings : List (SmokeFinding F)) where
    near_findings-All :
        (i : ℕ) (e : DecodedEvent) (j : ℕ) (fs : List (SmokeFinding F))
        → get_elem? events i ≡ some e
        → kind_is "i2c.nak" e ≡ true
        → IsFrom findings j fs
        → All (IsCoincidence events findings samplerate_hz) (near_findings samplerate_hz i e j fs)
    unfolding near_findings
    near_findings-All i e j [] found nak from = tt
    near_findings-All i e j (f ∷ fs) found nak from =
        let rest = near_findings-All i e (j + 1) fs found nak (IsFrom-tail findings j f fs from) in
        elim (Bool-cases
          (ltb (window_samples samplerate_hz) (distance e.start_sample f.start_sample))) [
            | inl far ↦ rw far rest
            | inr near ↦ rw near (
              record {
                event_idx = i;
                finding_idx = j;
                event = e;
                finding = f;
                event_found = found;
                finding_found = IsFrom-head findings j f fs from;
                is_nak = nak;
                is_near = window_lem samplerate_hz _ near;
                points_at = unfold coincidence in refl;
              },
              rest,
            )
          ]

    near_events-All :
        (i : ℕ) (es : List DecodedEvent)
        → IsFrom events i es
        → All
            (IsCoincidence events findings samplerate_hz)
            (near_events samplerate_hz i es findings)
    unfolding near_events
    near_events-All i [] from = tt
    near_events-All i (e ∷ es) from =
        let rest = near_events-All (i + 1) es (IsFrom-tail events i e es from) in
        elim (Bool-cases (kind_is "i2c.nak" e)) [
          | inl nak ↦ rw nak (
              All-append _ _ _
                (near_findings-All i e 0 findings (IsFrom-head events i e es from) nak
                  (λ k. ap (get_elem? findings) (omega arith)))
                rest)
          | inr other ↦ rw other rest
        ]

nothing_near :
    (F : Type 0) (samplerate_hz : ℕ) (es : List (ℕ × DecodedEvent))
    → near_pairs {F = F} samplerate_hz es [] ≡ []
nothing_near F samplerate_hz [] = refl
nothing_near F samplerate_hz (e ∷ es) = elim (Bool-cases (kind_is "i2c.nak" e.1)) [
  | inl y ↦ rw y (nothing_near F samplerate_hz es)
  | inr n ↦ rw n (nothing_near F samplerate_hz es)
]

module _ {F : Type 0} ⦃fl : Float F⦄ where
  -- Each coincidence points at one NAK and one finding of the input, at most 100 microseconds apart in samples, by their list
  -- indices and sample ranges; and the pairs of indices that the coincidences refer to are, in order, each such pair once.
  pub detect_coincidences_lem :
      (events : List DecodedEvent) (findings : List (SmokeFinding F)) (samplerate_hz : ℕ)
      → All
          (IsCoincidence events findings samplerate_hz)
          (detect_coincidences events findings samplerate_hz)
        × (map references (detect_coincidences events findings samplerate_hz)
            ≡ near_pairs samplerate_hz (numbered 0 events) (numbered 0 findings))
  unfolding detect_coincidences
  detect_coincidences_lem [] findings samplerate_hz = (tt, refl)
  detect_coincidences_lem (e ∷ es) [] samplerate_hz =
      (tt, sym (nothing_near F samplerate_hz (numbered 0 (e ∷ es))))
  detect_coincidences_lem (e ∷ es) (f ∷ fs) samplerate_hz = (
    near_events-All samplerate_hz (e ∷ es) (f ∷ fs) 0 (e ∷ es)
        (λ k. ap (get_elem? (e ∷ es)) (omega arith)),
    near_events-pairs samplerate_hz 0 (e ∷ es) (f ∷ fs),
  )

  IsCoincidence-IsTraceable :
      (events : List DecodedEvent) (findings : List (SmokeFinding F)) (samplerate_hz samples : ℕ)
      (a : Assertion F)
      → IsCoincidence events findings samplerate_hz a
      → IsTraceable events findings samples a
  IsCoincidence-IsTraceable events findings samplerate_hz samples a c = record {
    has_evidence = rw c.points_at (omega arith);
    events_exist = rw c.points_at (get_elem?-lt events c.event_idx c.event c.event_found, tt);
    findings_exist =
        rw c.points_at (get_elem?-lt findings c.finding_idx c.finding c.finding_found, tt);
    windows_exist = rw c.points_at (
      IsWindow.of_event c.event_idx c.event c.event_found refl,
      (IsWindow.of_finding c.finding_idx c.finding c.finding_found refl, tt),
    );
  }

  pub coincidences-IsTraceable :
      (events : List DecodedEvent) (findings : List (SmokeFinding F)) (samplerate_hz samples : ℕ)
      → All
          (IsTraceable events findings samples)
          (detect_coincidences events findings samplerate_hz)
  coincidences-IsTraceable events findings samplerate_hz samples =
      All-map_imp _ _ (IsCoincidence-IsTraceable events findings samplerate_hz samples) _
        (detect_coincidences_lem events findings samplerate_hz).0
