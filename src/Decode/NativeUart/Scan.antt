-- ===== src/Decode/NativeUart/Scan.antt =====
-- A line that carries bytes, and what the decoder's loop makes of it.
use slidko.Prelude.{
  ℕ, zero, suc, ◌+◌, ◌-◌, ◌*◌, ◌≤◌, ◌<◌, ◌≡◌, refl, sym, ap, ◌∙◌, Bool, true, false, some, List, [],
  ◌∷◌, ◌++◌, arith, ltb, length, get_or, replicate, All, length-append, length-replicate, Float,
}
use slidko.Result.{ok}
use slidko.Measure.Edges.{Channel}
use slidko.Decode.Events.{DecodedEvent}
use slidko.Decode.NativeUart.{at, uart_byte, center_offset, frame_samples, decode_at, decode_loop}
use slidko.Decode.NativeUart.Frame.{
  wave, frame, value_from, IsCentered, at-append, at-replicate, at-wave, ++-assoc_channel,
  length-wave, length-frame, get_or-at_end, decode_uart_byte-frame,
}

-- The frames of the bytes, with nothing between them.
unfoldable pub transmit : ℕ → List (List Bool) → Channel
transmit period [] = []
transmit period (byte ∷ bytes) = wave period (frame byte) ++ transmit period bytes

-- One event for each byte, with the first and the last sample of its frame.
unfoldable pub received : ℕ → ℕ → List (List Bool) → List DecodedEvent
received period start [] = []
received period start (byte ∷ bytes) =
    uart_byte start (value_from 0 byte) (start + 10 * period - 1) true
    ∷ received period (start + 10 * period) bytes

abbrev pub AreBytes : List (List Bool) → Type 0
AreBytes = All (λ byte. length byte ≡ 8)

append-nil : (xs : Channel) → xs ++ [] ≡ xs
append-nil [] = refl
append-nil (x ∷ xs) = ap (◌∷◌ x) (append-nil xs)

length-wave_of_frame :
    (period : ℕ) (byte : List Bool)
    → length byte ≡ 8
    → length (wave period (frame byte)) ≡ 10 * period
length-wave_of_frame period byte eight =
    length-wave period (frame byte) ∙ ap (λ n. n * period) (length-frame byte eight)

length-transmit :
    (period : ℕ) (bytes : List (List Bool))
    → 0 < period
    → AreBytes bytes
    → length bytes ≤ length (transmit period bytes)
unfolding transmit
length-transmit period [] h octets = omega arith
length-transmit period (byte ∷ bytes) h octets =
    let rest = length-transmit period bytes h octets.1 in
    rw
      (
        length-append (wave period (frame byte)) (transmit period bytes),
        length-wave_of_frame period byte octets.0,
      )
      (omega arith)

module _ {F : Type 0} ⦃fl : Float F⦄ (bit_period_samples : F) (period : ℕ)
    (centered : IsCentered period (center_offset bit_period_samples) 10)
    (whole : frame_samples bit_period_samples 8 ≡ 10 * period) where
  positive : 0 < period
  positive = let c = (centered 0 (omega arith)).1 in omega arith

  module _ (pre : Channel) (byte : List Bool) (eight : length byte ≡ 8) where
    start_is_low :
        (s : Channel) → at (pre ++ (wave period (frame byte) ++ s)) (length pre) ≡ ok false
    start_is_low s =
        ap (at (pre ++ (wave period (frame byte) ++ s))) (omega arith)
        ∙ at-append pre (wave period (frame byte) ++ s) 0
        ∙ at-wave period (frame byte) s 0 0 (let ten = length-frame byte eight in omega arith)
            (omega arith) (let p = positive in omega arith)
        ∙ ap ok (unfold frame in refl)

    last_bit : get_or (frame byte) 9 false ≡ true
    last_bit =
        unfold frame in
        ap (λ n. get_or (byte ++ true ∷ []) n false) (sym eight) ∙ get_or-at_end byte true

    stop_is_high :
        (s : Channel)
        → at (pre ++ (wave period (frame byte) ++ s)) (length pre + 10 * period - 1) ≡ ok true
    stop_is_high s =
        ap (at (pre ++ (wave period (frame byte) ++ s))) (let p = positive in omega arith)
        ∙ at-append pre (wave period (frame byte) ++ s) (10 * period - 1)
        ∙ at-wave period (frame byte) s 9 (10 * period - 1)
            (let ten = length-frame byte eight in omega arith) (let p = positive in omega arith)
            (let p = positive in omega arith)
        ∙ ap ok last_bit

    decode_at-frame :
        (s : Channel)
        → at (pre ++ (wave period (frame byte) ++ s)) (length pre - 1) ≡ ok true
        → decode_at (pre ++ (wave period (frame byte) ++ s)) bit_period_samples 8 (length pre)
          ≡ ok (some (value_from 0 byte, length pre + 10 * period - 1, true))
    unfolding decode_at
    decode_at-frame s before =
        rw (before, start_is_low s)
          (rw (sym whole)
            (decode_uart_byte-frame bit_period_samples period centered pre byte s eight))

  loop-transmit :
      (bytes : List (List Bool)) (pre : Channel) (fuel : ℕ)
      → 0 < length pre
      → AreBytes bytes
      → at (pre ++ transmit period bytes) (length pre - 1) ≡ ok true
      → length bytes ≤ fuel
      → decode_loop (pre ++ transmit period bytes) bit_period_samples 8 fuel (length pre)
        ≡ ok (received period (length pre) bytes)
  unfolding decode_loop received transmit
  loop-transmit [] pre zero some_idle octets high enough = refl
  loop-transmit [] pre (suc fuel) some_idle octets high enough = rw (decode_loop, done) refl
    where
      done : ltb (length pre) (length (pre ++ [])) ≡ false
      done = rw (append-nil pre) (ground arith)
  loop-transmit (byte ∷ bytes) pre zero some_idle octets high enough =
      let impossible : ⊥ = omega arith in absurd impossible
  loop-transmit (byte ∷ bytes) pre (suc fuel) some_idle octets high enough =
      rw
        (
          decode_loop,
          more,
          decode_at-frame pre byte octets.0 (transmit period bytes) high,
          next (
              loop-transmit bytes (pre ++ wave period (frame byte)) fuel (rw size (omega arith))
                octets.1 still_high (omega arith)),
        )
        refl
    where
      size : length (pre ++ wave period (frame byte)) ≡ length pre + 10 * period
      size =
          length-append pre _ ∙ ap (λ n. length pre + n) (length-wave_of_frame period byte octets.0)

      more :
          ltb (length pre) (length (pre ++ (wave period (frame byte) ++ transmit period bytes)))
          ≡ true
      more =
          let p = positive in
          rw
            (
              length-append pre (wave period (frame byte) ++ transmit period bytes),
              length-append (wave period (frame byte)) (transmit period bytes),
              length-wave_of_frame period byte octets.0,
            )
            (ground (arith, p))

      still_high :
          at
            ((pre ++ wave period (frame byte)) ++ transmit period bytes)
            (length (pre ++ wave period (frame byte)) - 1)
          ≡ ok true
      still_high =
          rw (++-assoc_channel pre (wave period (frame byte)) (transmit period bytes), size)
            (stop_is_high pre byte octets.0 (transmit period bytes))

      next :
          decode_loop
              ((pre ++ wave period (frame byte)) ++ transmit period bytes)
              bit_period_samples
              8
              fuel
              (length (pre ++ wave period (frame byte)))
            ≡ ok (received period (length (pre ++ wave period (frame byte))) bytes)
          → decode_loop
              (pre ++ (wave period (frame byte) ++ transmit period bytes))
              bit_period_samples
              8
              fuel
              (length pre + 10 * period - 1 + 1)
            ≡ ok (received period (length pre + 10 * period) bytes)
      next ih =
          ap
            (λ i.
              decode_loop (pre ++ (wave period (frame byte) ++ transmit period bytes))
                bit_period_samples 8 fuel i)
            (let p = positive in rw size (omega arith))
          ∙ ap
              (λ rx.
                decode_loop rx bit_period_samples 8 fuel (length (pre ++ wave period (frame byte))))
              (sym (++-assoc_channel pre (wave period (frame byte)) (transmit period bytes)))
          ∙ ih
          ∙ ap (λ i. ok (received period i bytes)) size

  module _ (idle : ℕ) (bytes : List (List Bool)) (octets : AreBytes bytes)
      (some_idle : 0 < idle) where
    abbrev line : Channel
    line = replicate idle true ++ transmit period bytes

    idle_is_high : (i : ℕ) → i < idle → at line i ≡ ok true
    idle_is_high i h = at-replicate idle true (transmit period bytes) i h

    loop-idle :
        (left idx fuel : ℕ)
        → 0 < idx
        → idx + left ≡ idle
        → left + length bytes ≤ fuel
        → decode_loop line bit_period_samples 8 fuel idx ≡ ok (received period idle bytes)
    unfolding decode_loop decode_at
    loop-idle zero idx fuel started at_end enough =
        let here : idx ≡ length (replicate idle true) =
          rw (length-replicate idle true) (omega arith) in
        ap (decode_loop line bit_period_samples 8 fuel) here
        ∙ loop-transmit bytes (replicate idle true) fuel (rw (length-replicate idle true) some_idle)
            octets (rw (length-replicate idle true) (idle_is_high (idle - 1) (omega arith)))
            (omega arith)
        ∙ ap (λ i. ok (received period i bytes)) (length-replicate idle true)
    loop-idle (suc left) idx zero started at_end enough =
        let impossible : ⊥ = omega arith in absurd impossible
    loop-idle (suc left) idx (suc fuel) started at_end enough =
        rw (decode_loop, more, idle_is_high (idx - 1) (omega arith), idle_is_high idx (omega arith))
          (loop-idle left (idx + 1) fuel (omega arith) (omega arith) (omega arith))
      where
        more : ltb idx (length line) ≡ true
        more =
            rw
              (
                length-append (replicate idle true) (transmit period bytes),
                length-replicate idle true,
              )
              (ground (arith, at_end))

    -- The line's samples are enough fuel, and each byte on an idle line is received.
    pub decode_loop-line :
        decode_loop line bit_period_samples 8 (length line) 1 ≡ ok (received period idle bytes)
    decode_loop-line = loop-idle (idle - 1) 1 (length line) (omega arith) (omega arith) (
        let p = length-transmit period bytes positive octets in
        rw (length-append (replicate idle true) (transmit period bytes), length-replicate idle true)
          (omega arith))
