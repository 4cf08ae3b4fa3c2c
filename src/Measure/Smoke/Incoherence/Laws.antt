-- ===== src/Measure/Smoke/Incoherence/Laws.antt =====
-- When the incoherence check fires, against descriptions that keep no state.
use slidko.Prelude.{
  ℕ, ◌≤◌, min, max, String, ◌≡◌, refl, sym, ap, ◌∙◌, inl, inr, Bool, true, false, not, ◌&&◌, ◌||◌,
  List, [], ◌∷◌, map, arith, eq_iff, leb, ◌==◌, if◌then◌else◌, Bool-cases, length, any, select, All,
  any-map, Float,
}
use slidko.Decode.Events.{DecodedEvent, kind_is}
use slidko.Decode.Backend.{float, int, ProtocolHypothesis}
use slidko.Measure.Edges.{minimum, maximum}
use slidko.Measure.Smoke.Finding.{SmokeFinding, incoherence_frame_err_rate}
use slidko.Measure.Smoke.Incoherence.{
  is_bad_frame, min_of, max_of, get_channel, needs_address, orphan_finding, orphan_scan,
  framing_finding, detect_i2c_orphan_incoherence, detect_uart_framing_incoherence,
}

-- Of the events before, newest first: the last start, address or stop is an address.
abbrev pub addressed_by : List DecodedEvent → Bool
addressed_by [] = false
addressed_by (e ∷ before) =
    if kind_is "i2c.start" e || kind_is "i2c.stop" e
    then false
    else if kind_is "i2c.address" e
    then true
    else addressed_by before

-- The acks, naks and data that no address precedes in their transaction.
abbrev pub orphans : List DecodedEvent → List DecodedEvent → List DecodedEvent
orphans before [] = []
orphans before (e ∷ events) =
    let rest = orphans (e ∷ before) events in
    if needs_address e && not (addressed_by before) then e ∷ rest else rest

start_needs_none : (e : DecodedEvent) → kind_is "i2c.start" e ≡ true → needs_address e ≡ false
start_needs_none e h = rw ((eq_iff e.kind "i2c.start").0 h)

address_needs_none : (e : DecodedEvent) → kind_is "i2c.address" e ≡ true → needs_address e ≡ false
address_needs_none e h = rw ((eq_iff e.kind "i2c.address").0 h)

stop_needs_none : (e : DecodedEvent) → kind_is "i2c.stop" e ≡ true → needs_address e ≡ false
stop_needs_none e h = rw ((eq_iff e.kind "i2c.stop").0 h)

address_not_stop :
    (e : DecodedEvent) → kind_is "i2c.address" e ≡ true → kind_is "i2c.stop" e ≡ false
address_not_stop e h = rw ((eq_iff e.kind "i2c.address").0 h)

module _ {F : Type 0} (channel : String) where
  orphan_scan-orphans :
      (before events : List DecodedEvent)
      → orphan_scan {F = F} channel (addressed_by before) events
        ≡ map (orphan_finding channel) (orphans before events)
  unfolding orphan_scan
  orphan_scan-orphans before [] = refl
  orphan_scan-orphans before (e ∷ events) =
      let ih = orphan_scan-orphans (e ∷ before) events in
      elim (Bool-cases (kind_is "i2c.start" e)) [
        | inl s ↦ rw (s, start_needs_none e s) (rw s at ih)
        | inr s ↦ elim (Bool-cases (kind_is "i2c.address" e)) [
          | inl a ↦ rw (s, a, address_needs_none e a) (rw (s, address_not_stop e a, a) at ih)
          | inr a ↦ elim (Bool-cases (kind_is "i2c.stop" e)) [
            | inl p ↦ rw (s, a, p, stop_needs_none e p) (rw (s, p) at ih)
            | inr p ↦
                rw (s, a, p)
                  (report (needs_address e && not (addressed_by before)) _ _ (rw (s, p, a) at ih))
          ]
        ]
      ]
    where
      report :
          (b : Bool) (xs : List (SmokeFinding F)) (ys : List DecodedEvent)
          → xs ≡ map (orphan_finding channel) ys
          → (if b then orphan_finding channel e ∷ xs else xs)
            ≡ map (orphan_finding channel) (if b then e ∷ ys else ys)
      report true xs ys h = ap (◌∷◌ (orphan_finding channel e)) h
      report false xs ys h = h

module _ {F : Type 0} (events : List DecodedEvent) (hypothesis : ProtocolHypothesis F) where
  -- The I2C check reports exactly the ack, nak and data events for which the last start, address or
  -- stop before them is not an address (or there is none), one finding for each, in order.
  pub detect_i2c_orphan_incoherence-orphans :
      detect_i2c_orphan_incoherence events hypothesis
      ≡ map (orphan_finding (get_channel "sda" hypothesis.channel_assignments)) (orphans [] events)
  unfolding detect_i2c_orphan_incoherence
  detect_i2c_orphan_incoherence-orphans = orphan_scan-orphans _ [] events

minimum-le : (a : ℕ) (xs : List ℕ) → (minimum a xs ≤ a) × All (λ x. minimum a xs ≤ x) xs
minimum-le a [] = (omega arith, tt)
minimum-le a (b ∷ xs) =
    let (below, rest) = minimum-le (min a b) xs in (omega arith, (omega arith, rest))

le-maximum : (a : ℕ) (xs : List ℕ) → (a ≤ maximum a xs) × All (λ x. x ≤ maximum a xs) xs
le-maximum a [] = (omega arith, tt)
le-maximum a (b ∷ xs) =
    let (above, rest) = le-maximum (max a b) xs in (omega arith, (omega arith, rest))

min_of-le : (xs : List ℕ) → All (λ x. min_of xs ≤ x) xs
min_of-le [] = tt
min_of-le (x ∷ xs) = minimum-le x xs

le-max_of : (xs : List ℕ) → All (λ x. x ≤ max_of xs) xs
le-max_of [] = tt
le-max_of (x ∷ xs) = le-maximum x xs

All-map {ℓ κ} :
    {A B : Type ℓ} (f : A → B) (P : B → Type κ) (xs : List A)
    → All P (map f xs)
    → All (λ x. P (f x)) xs
All-map f P [] h = tt
All-map f P (x ∷ xs) h = (h.0, All-map f P xs h.1)

All-both {ℓ κ} :
    {A : Type ℓ} (P Q : A → Type κ) (xs : List A) → All P xs → All Q xs → All (λ x. P x × Q x) xs
All-both P Q [] h k = tt
All-both P Q (x ∷ xs) h k = ((h.0, k.0), All-both P Q xs h.1 k.1)

-- The window begins with the first of the frames in `bad` to begin, and ends with the last to end.
abbrev pub Spans : {F : Type 0} → SmokeFinding F → List DecodedEvent → Type 0
Spans f bad =
    All (λ e. (f.start_sample ≤ e.start_sample) × (e.end_sample ≤ f.end_sample)) bad
    × (any (λ e. e.start_sample == f.start_sample) bad ≡ true)
    × (any (λ e. e.end_sample == f.end_sample) bad ≡ true)

-- The one finding of the check: on the line "rx", over the frames with an error, with their number and that of all frames.
abbrev pub IsFramingFinding :
    {F : Type 0} ⦃fl : Float F⦄
    → ProtocolHypothesis F
    → ℕ
    → List DecodedEvent
    → SmokeFinding F
    → Type 0
IsFramingFinding ⦃fl⦄ hypothesis frames bad f =
    (f.check ≡ "protocol_incoherence")
    × (f.channel ≡ get_channel "rx" hypothesis.channel_assignments)
    × Spans f bad
    × (f.evidence
        ≡ ("framing_error_count", int (length bad))
          ∷ ("total_frames", int frames)
          ∷ ("rate", float (fl.div (fl.of_ℕ (length bad)) (fl.of_ℕ frames)))
          ∷ [])

-- Nothing where no frame is bad, and else the one finding.
abbrev pub IsVerdict :
    {F : Type 0} ⦃fl : Float F⦄
    → ProtocolHypothesis F
    → List DecodedEvent
    → Bool
    → List (SmokeFinding F)
    → Type 0
IsVerdict hypothesis uart_events false findings = findings ≡ []
IsVerdict {F = F} hypothesis uart_events true findings =
    (f : SmokeFinding F) × (findings ≡ f ∷ [])
    × IsFramingFinding hypothesis (length uart_events) (select is_bad_frame uart_events) f

minimum-any : (a : ℕ) (xs : List ℕ) → any (λ x. x == minimum a xs) (a ∷ xs) ≡ true
minimum-any a [] = ground arith
minimum-any a (b ∷ xs) =
    let ih = minimum-any (min a b) xs in
    elim (Bool-cases (leb a b)) [
      | inl below ↦
          let least : min a b ≡ a = ground (arith, below) in ground (arith, rw least at ih, least)
      | inr above ↦
          let least : min a b ≡ b = ground (arith, above) in ground (arith, rw least at ih, least)
    ]

maximum-any : (a : ℕ) (xs : List ℕ) → any (λ x. x == maximum a xs) (a ∷ xs) ≡ true
maximum-any a [] = ground arith
maximum-any a (b ∷ xs) =
    let ih = maximum-any (max a b) xs in
    elim (Bool-cases (leb a b)) [
      | inl below ↦
          let greatest : max a b ≡ b = ground (arith, below) in
          ground (arith, rw greatest at ih, greatest)
      | inr above ↦
          let greatest : max a b ≡ a = ground (arith, above) in
          ground (arith, rw greatest at ih, greatest)
    ]

length-select_zero {ℓ} :
    {A : Type ℓ} (p : A → Bool) (xs : List A) → (length (select p xs) == 0) ≡ not (any p xs)
length-select_zero p [] = refl
length-select_zero p (x ∷ xs) = ground (arith, length-select_zero p xs)

-- The quotient of two counts is 0.0 or below just when the first is 0.
abbrev pub RateIsExact : (F : Type 0) ⦃fl : Float F⦄ → ℕ → ℕ → Type 0
RateIsExact F ⦃fl⦄ n m = fl.le (fl.div (fl.of_ℕ n) (fl.of_ℕ m)) (fl.decimal 0 1) ≡ (n == 0)

module _ {F : Type 0} ⦃fl : Float F⦄ where
  framing_finding-IsFramingFinding :
      (hypothesis : ProtocolHypothesis F) (us : List DecodedEvent) (b : DecodedEvent)
      (bad : List DecodedEvent)
      → IsFramingFinding hypothesis
          (length us)
          (b ∷ bad)
          (framing_finding {F = F} (get_channel "rx" hypothesis.channel_assignments) us (b ∷ bad))
  unfolding framing_finding
  framing_finding-IsFramingFinding hypothesis us b bad =
      let starts : List ℕ = map (λ e. e.start_sample) (b ∷ bad) in
      let ends : List ℕ = map (λ e. e.end_sample) (b ∷ bad) in
      let span : Spans
          (framing_finding {F = F} (get_channel "rx" hypothesis.channel_assignments) us (b ∷ bad))
          (b ∷ bad) =
        (
          All-both _ _ (b ∷ bad)
              (All-map (λ (e : DecodedEvent). e.start_sample) _ (b ∷ bad) (min_of-le starts))
              (All-map (λ (e : DecodedEvent). e.end_sample) _ (b ∷ bad) (le-max_of ends)),
          sym (any-map (λ n. n == min_of starts) (λ (e : DecodedEvent). e.start_sample) (b ∷ bad))
              ∙ minimum-any b.start_sample (map (λ e. e.start_sample) bad),
          sym (any-map (λ n. n == max_of ends) (λ (e : DecodedEvent). e.end_sample) (b ∷ bad))
              ∙ maximum-any b.end_sample (map (λ e. e.end_sample) bad),
        ) in
      (refl, refl, span, refl)

  some_bad :
      (hypothesis : ProtocolHypothesis F) (us bad : List DecodedEvent)
      → (length bad == 0) ≡ false
      → IsFramingFinding hypothesis
          (length us)
          bad
          (framing_finding {F = F} (get_channel "rx" hypothesis.channel_assignments) us bad)
  some_bad hypothesis us [] h = let impossible : ⊥ = ground (arith, h) in absurd impossible
  some_bad hypothesis us (b ∷ bad) h = framing_finding-IsFramingFinding hypothesis us b bad

  framing-IsVerdict :
      (hypothesis : ProtocolHypothesis F) (us : List DecodedEvent)
      → let bad = select is_bad_frame us in
        RateIsExact F (length bad) (length us)
        → IsVerdict hypothesis us (any is_bad_frame us) (
            if length us == 0
            then []
            else if fl.le
                (fl.div (fl.of_ℕ (length bad)) (fl.of_ℕ (length us)))
                incoherence_frame_err_rate
            then []
            else framing_finding (get_channel "rx" hypothesis.channel_assignments) us bad ∷ [])
  framing-IsVerdict hypothesis [] exact = refl
  framing-IsVerdict hypothesis (u ∷ us) exact =
      let bad = select is_bad_frame (u ∷ us) in
      let many : (length (u ∷ us) == 0) ≡ false = ground arith in
      let count = length-select_zero is_bad_frame (u ∷ us) in
      elim (Bool-cases (any is_bad_frame (u ∷ us))) [
        | inl y ↦
            let some_frame : (length bad == 0) ≡ false = count ∙ ap not y in
            rw (many, exact ∙ some_frame, y) (_, refl, some_bad hypothesis (u ∷ us) bad some_frame)
        | inr n ↦
            let no_frame : (length bad == 0) ≡ true = count ∙ ap not n in
            rw (many, exact ∙ no_frame, n) refl
      ]

  -- If the quotient of the number of frames with an error and of all frames is 0.0 or below only for no such frame, the UART
  -- check is silent when no uart.byte event has a framing error, and else gives one finding: on the line "rx", from the first
  -- start to the last end of the frames with an error, with the numbers of these and of all frames.
  pub detect_uart_framing_incoherence_lem :
      (events : List DecodedEvent) (hypothesis : ProtocolHypothesis F)
      → let uart_events = select (kind_is "uart.byte") events in
        RateIsExact F (length (select is_bad_frame uart_events)) (length uart_events)
        → IsVerdict hypothesis uart_events
            (any is_bad_frame uart_events)
            (detect_uart_framing_incoherence events hypothesis)
  unfolding detect_uart_framing_incoherence
  detect_uart_framing_incoherence_lem events hypothesis exact =
      framing-IsVerdict hypothesis (select (kind_is "uart.byte") events) exact
