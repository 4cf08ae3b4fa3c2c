-- ===== src/Decode/NativeUart/Stream.antt =====
-- What the decoder's loop gives on any signal.
use slidko.Prelude.{
  ℕ, zero, suc, ◌+◌, ◌-◌, ◌≤◌, ◌<◌, ◌≡◌, refl, sym, inl, inr, Bool, true, false, not, ◌&&◌, Option,
  none, some, List, [], ◌∷◌, arith, ltb, leb, if◌then◌else◌, Bool-cases, length, Float,
}
use slidko.Result.{ok}
use slidko.Measure.Edges.{Channel}
use slidko.Decode.Events.{DecodedEvent}
use slidko.Decode.NativeUart.{
  at, read_bits, center_offset, frame_samples, bit_center, decode_uart_byte, uart_byte, decode_at,
  decode_loop,
}

-- Events in order from `lo` on, each on a falling edge, `frame` samples long, none inside another.
abbrev pub IsStream : Channel → ℕ → ℕ → List DecodedEvent → Type 0
IsStream rx_signal frame lo [] = Unit
IsStream rx_signal frame lo (e ∷ events) =
    (lo ≤ e.start_sample)
    × (at rx_signal (e.start_sample - 1) ≡ ok true)
    × (at rx_signal e.start_sample ≡ ok false)
    × (e.end_sample + 1 ≡ e.start_sample + frame)
    × IsStream rx_signal frame (e.end_sample + 1) events

IsStream-lower :
    (rx_signal : Channel) (frame lo : ℕ) (events : List DecodedEvent)
    → IsStream rx_signal frame (lo + 1) events
    → IsStream rx_signal frame lo events
IsStream-lower rx_signal frame lo [] h = tt
IsStream-lower rx_signal frame lo (e ∷ events) h = (omega arith, h.1, h.2, h.3, h.4)

at-ok : (rx_signal : Channel) (i : ℕ) → i < length rx_signal → (b : Bool) × (at rx_signal i ≡ ok b)
at-ok [] i h = let impossible : ⊥ = omega arith in absurd impossible
at-ok (b ∷ rx_signal) zero h = (b, refl)
at-ok (b ∷ rx_signal) (suc i) h = at-ok rx_signal i (omega arith)

read_bits-ok :
    (rx_signal : Channel) (center : ℕ → ℕ) (n i value : ℕ)
    → ((k : ℕ) → k < n → center (i + k + 1) < length rx_signal)
    → (v : ℕ) × (read_bits rx_signal center n i value ≡ ok v)
unfolding read_bits
read_bits-ok rx_signal center zero i value inside = (value, refl)
read_bits-ok rx_signal center (suc n) i value inside =
    let (b, first) =
      at-ok rx_signal (center (i + 1)) (rw (sym plus_zero) (inside 0 (omega arith))) in
    rw first (
      read_bits-ok rx_signal center n (i + 1) _
        (λ k h. rw (shifted k) (inside (suc k) (omega arith))))
  where
    plus_zero : i + 0 + 1 ≡ i + 1
    plus_zero = omega arith

    shifted : (k : ℕ) → i + 1 + k + 1 ≡ i + suc k + 1
    shifted k = omega arith

module _ {F : Type 0} ⦃fl : Float F⦄ (rx_signal : Channel) (bit_period_samples : F)
    (increases : (k : ℕ)
      → k < 9
      → center_offset bit_period_samples k ≤ center_offset bit_period_samples 9)
    (positive : 0 < frame_samples bit_period_samples 8) where
  abbrev frame : ℕ
  frame = frame_samples bit_period_samples 8

  -- The result of a turn: nothing, or a byte whose frame begins with a falling edge at `idx`.
  abbrev IsTurn : ℕ → Option (ℕ × ℕ × Bool) → Type 0
  IsTurn idx none = Unit
  IsTurn idx (some (value, end_sample, stop_bit_high)) =
      (at rx_signal (idx - 1) ≡ ok true)
      × (at rx_signal idx ≡ ok false)
      × (end_sample + 1 ≡ idx + frame)

  inside :
      (idx k : ℕ)
      → k < 8
      → bit_center bit_period_samples idx 9 < length rx_signal
      → bit_center bit_period_samples idx (0 + k + 1) < length rx_signal
  unfolding bit_center
  inside idx k h stop_inside =
      let same : 0 + k + 1 ≡ k + 1 = omega arith in
      let earlier = increases (k + 1) (omega arith) in rw same (omega arith)

  decode_uart_byte-ok :
      (idx : ℕ)
      → at rx_signal (idx - 1) ≡ ok true
      → at rx_signal idx ≡ ok false
      → (d : Option (ℕ × ℕ × Bool)) × (decode_uart_byte rx_signal idx bit_period_samples 8 ≡ ok d)
        × IsTurn idx d
  unfolding decode_uart_byte
  decode_uart_byte-ok idx before now =
      elim (Bool-cases (leb (length rx_signal) (bit_center bit_period_samples idx 9))) [
        | inl truncated ↦ rw truncated (none, refl, tt)
        | inr whole ↦
            let stop_inside : bit_center bit_period_samples idx 9 < length rx_signal =
              ground (arith, whole) in
            let (stop, stop_read) = at-ok rx_signal _ stop_inside in
            let (value, byte_read) =
              read_bits-ok rx_signal (bit_center bit_period_samples idx) 8 0 0
                (λ k h. inside idx k h stop_inside) in
            rw (whole, stop_read, byte_read)
              (some (value, idx + frame - 1, stop), refl, (before, now, omega arith))
      ]

  decode_at-ok :
      (idx : ℕ)
      → idx < length rx_signal
      → (d : Option (ℕ × ℕ × Bool)) × (decode_at rx_signal bit_period_samples 8 idx ≡ ok d)
        × IsTurn idx d
  unfolding decode_at
  decode_at-ok idx h =
      let (before, read_before) = at-ok rx_signal (idx - 1) (omega arith) in
      let (now, read_now) = at-ok rx_signal idx h in
      rw (read_before, read_now) (by_levels before now read_before read_now)
    where
      by_levels :
          (b c : Bool)
          → at rx_signal (idx - 1) ≡ ok b
          → at rx_signal idx ≡ ok c
          → (d : Option (ℕ × ℕ × Bool)) × ((if b && not c
                then decode_uart_byte rx_signal idx bit_period_samples 8
                else ok none)
              ≡ ok d)
            × IsTurn idx d
      by_levels true false e f = decode_uart_byte-ok idx e f
      by_levels true true e f = (none, refl, tt)
      by_levels false c e f = (none, refl, tt)

  abbrev Finishes : ℕ → ℕ → Type 0
  Finishes fuel idx =
      (events : List DecodedEvent) × (decode_loop rx_signal bit_period_samples 8 fuel idx
        ≡ ok events)
      × (decode_loop rx_signal bit_period_samples 8 (suc fuel) idx ≡ ok events)
      × IsStream rx_signal frame idx events

  turn-Finishes :
      (fuel idx : ℕ) (d : Option (ℕ × ℕ × Bool))
      → ltb idx (length rx_signal) ≡ true
      → decode_at rx_signal bit_period_samples 8 idx ≡ ok d
      → IsTurn idx d
      → ((i : ℕ) → idx < i → Finishes fuel i)
      → Finishes (suc fuel) idx
  unfolding decode_loop
  turn-Finishes fuel idx none more turn fact later =
      let (events, enough, more_fuel, stream) = later (idx + 1) (omega arith) in
      (
        events,
        rw (decode_loop, more, turn) enough,
        rw (decode_loop, more, turn) more_fuel,
        IsStream-lower rx_signal frame idx events stream,
      )
  turn-Finishes fuel idx (some (value, end_sample, stop_bit_high)) more turn fact later =
      let (events, enough, more_fuel, stream) =
        later (end_sample + 1) (let p = positive in omega arith) in
      (
        uart_byte idx value end_sample stop_bit_high ∷ events,
        rw (decode_loop, more, turn, enough) refl,
        rw (decode_loop, more, turn, more_fuel) refl,
        (omega arith, fact.0, fact.1, fact.2, stream),
      )

  done-Finishes : (fuel idx : ℕ) → ltb idx (length rx_signal) ≡ false → Finishes fuel idx
  unfolding decode_loop
  done-Finishes zero idx done = ([], refl, rw (decode_loop, done) refl, tt)
  done-Finishes (suc fuel) idx done =
      ([], rw (decode_loop, done) refl, rw (decode_loop, done) refl, tt)

  -- On any signal, if the sample points of a frame do not pass its stop bit and a frame has at
  -- least one sample, the loop finishes without an error, more fuel gives the same, and its events
  -- are in order: each begins on a falling edge, is one frame long, and begins after the end of the
  -- one before. The fuel asked for is the number of samples from `idx` on.
  pub decode_loop-IsStream : (fuel idx : ℕ) → length rx_signal ≤ fuel + idx → Finishes fuel idx
  decode_loop-IsStream zero idx enough = done-Finishes zero idx (ground (arith, enough))
  decode_loop-IsStream (suc fuel) idx enough = elim (Bool-cases (ltb idx (length rx_signal))) [
    | inr done ↦ done-Finishes (suc fuel) idx done
    | inl more ↦
        let (d, turn, fact) = decode_at-ok idx (ground (arith, more)) in
        turn-Finishes fuel idx d more turn fact
          (λ i later. decode_loop-IsStream fuel i (omega arith))
  ]
