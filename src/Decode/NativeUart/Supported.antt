-- ===== src/Decode/NativeUart/Supported.antt =====
-- What the native decoder accepts: the guards of `decode`, and that, for whole numbers of data bits and sound bit periods,
-- nothing else makes it fail.
use slidko.Prelude.{
  ℕ, ◌≤◌, ◌<◌, String, ◌≡◌, refl, sym, ◌∙◌, ◌↔◌, Bool, true, false, not, Option, none, some, List,
  arith, if◌then◌else◌, length, lookup, Float,
}
use slidko.Result.{Result, Error, ok, err, require, require-eq, >>=-eq-ok, ok-injective}
use slidko.Decode.NativeUart.Guards.{
  IsNoFloat, IsAbsentOr, IsOneStop, IsRate, bit_period_iff, is_8n1_iff,
}
use slidko.Capture.{Capture}
use slidko.Measure.Edges.{Channel}
use slidko.Decode.Backend.{Value, ProtocolHypothesis}
use slidko.Decode.Events.{DecodedEvent}
use slidko.Decode.NativeUart.{
  in_range_of, value_error, center_offset, frame_samples, decode, is_8n1, bit_period,
}
use slidko.Decode.NativeUart.Stream.{decode_loop-IsStream}

require-inv :
    {A : Type 0} (k : String) (d : List (String × A)) {v : A}
    → require k d ≡ ok v
    → lookup k d ≡ some v
require-inv {A = A} k d {v} e = by_entry (lookup k d) refl
  where
    by_entry : (entry : Option A) → lookup k d ≡ entry → lookup k d ≡ some v
    by_entry none missing = cc
    by_entry (some w) found =
        let same : require k d ≡ ok w = require-eq k d found in
        rw (ok-injective w v (sym same ∙ e)) at found

-- If a bit period is a sample or more, the sample points of a frame do not pass its stop bit, and a frame has a sample.
abbrev pub Advances : (F : Type 0) ⦃fl : Float F⦄ → F → Type 0
Advances F ⦃fl⦄ p =
    fl.lt p (fl.of_ℕ 1) ≡ false
    → ((k : ℕ) → k < 9 → center_offset p k ≤ center_offset p 9) × (0 < frame_samples p 8)

-- A guard that did not raise.
passed :
    {A : Type 0} (b : Bool) (raised : Error) {rest : Result A} {a : A}
    → (if b then err raised else rest) ≡ ok a
    → (b ≡ false) × (rest ≡ ok a)
passed true raised e = cc
passed false raised e = (refl, e)

module _ {F : Type 0} ⦃fl : Float F⦄ where
  -- A hypothesis that the decoder can follow on a capture.
  pub record IsSupported (capture : Capture F) (hypothesis : ProtocolHypothesis F) : Type 0 where
    pub rx_channel : String
    pub assigned : lookup "rx" hypothesis.channel_assignments ≡ some rx_channel
    pub parity : IsAbsentOr (Value.text "none") (lookup "parity" hypothesis.parameters)
    pub data_bits : IsAbsentOr (Value.int 8) (lookup "data_bits" hypothesis.parameters)
    pub stop_bits : IsOneStop (lookup "stop_bits" hypothesis.parameters)
    pub rx_signal : Channel
    pub captured : lookup rx_channel capture.channels ≡ some rx_signal
    pub baud : Value F
    pub stated : lookup "baud" hypothesis.parameters ≡ some baud
    pub period : F
    pub rate : IsRate capture.samplerate_hz baud period
    pub slow_enough : fl.lt period (fl.of_ℕ 1) ≡ false

  abbrev pub PeriodAdvances : Capture F → ProtocolHypothesis F → Type 0
  PeriodAdvances capture hypothesis =
      (baud : Value F) (p : F)
      → lookup "baud" hypothesis.parameters ≡ some baud
      → IsRate capture.samplerate_hz baud p
      → Advances F p

  whole_range :
      (v : Option (Value F)) (events : List DecodedEvent)
      → IsNoFloat v
      → in_range_of v events ≡ ok events
  whole_range none events whole = refl
  whole_range (some Value.null) events whole = refl
  whole_range (some (Value.int n)) events whole = refl
  whole_range (some (Value.text s)) events whole = refl
  whole_range (some (Value.float x)) events whole = absurd whole

  decode_loops :
      (capture : Capture F) (hypothesis : ProtocolHypothesis F)
      → IsNoFloat (lookup "data_bits" hypothesis.parameters)
      → PeriodAdvances capture hypothesis
      → IsSupported capture hypothesis
      → (events : List DecodedEvent) × (decode capture hypothesis ≡ ok events)
  unfolding decode
  decode_loops capture hypothesis whole advances s =
      let (increases, positive) = advances s.baud s.period s.stated s.rate s.slow_enough in
      let (events, finished, _, _) =
        decode_loop-IsStream s.rx_signal s.period increases positive (length s.rx_signal) 1
          (omega arith) in
      (
        events,
        rw
            (
              decode,
              require-eq "rx" hypothesis.channel_assignments s.assigned,
              (is_8n1_iff hypothesis.parameters whole).1 (s.parity, s.data_bits, s.stop_bits),
              require-eq s.rx_channel capture.channels s.captured,
              require-eq "baud" hypothesis.parameters s.stated,
              (bit_period_iff capture.samplerate_hz s.baud s.period).1 s.rate,
              s.slow_enough,
              finished,
            )
            (whole_range (lookup "data_bits" hypothesis.parameters) events whole),
      )

  decode_guards :
      (capture : Capture F) (hypothesis : ProtocolHypothesis F) {events : List DecodedEvent}
      → IsNoFloat (lookup "data_bits" hypothesis.parameters)
      → decode capture hypothesis ≡ ok events
      → IsSupported capture hypothesis
  unfolding decode
  decode_guards capture hypothesis whole e =
      let (rx, assigned, e1) = >>=-eq-ok (require "rx" hypothesis.channel_assignments) _ e in
      let (b, checked, e2) = >>=-eq-ok (is_8n1 hypothesis.parameters) _ e1 in
      let (is_supported, e3) = passed (not b) (value_error "Native UART only supports 8N1") e2 in
      let (rx_signal, captured, e4) = >>=-eq-ok (require rx capture.channels) _ e3 in
      let (baud, stated, e5) = >>=-eq-ok (require "baud" hypothesis.parameters) _ e4 in
      let (period, rate, e6) = >>=-eq-ok (bit_period capture.samplerate_hz baud) _ e5 in
      let (slow_enough, _) = passed (fl.lt period (fl.of_ℕ 1)) (value_error "baud too high") e6 in
      let supported : b ≡ true = ground (arith, is_supported) in
      let (parity, data_bits, stop_bits) =
        (is_8n1_iff hypothesis.parameters whole).0 (rw supported at checked) in
      record {
        rx_channel = rx;
        assigned = require-inv "rx" hypothesis.channel_assignments assigned;
        parity = parity;
        data_bits = data_bits;
        stop_bits = stop_bits;
        rx_signal = rx_signal;
        captured = require-inv rx capture.channels captured;
        baud = baud;
        stated = require-inv "baud" hypothesis.parameters stated;
        period = period;
        rate = (bit_period_iff capture.samplerate_hz baud period).0 rate;
        slow_enough = slow_enough;
      }

  -- If the number of data bits is not given as a float, and at the bit period of the hypothesis, if it is a sample or more,
  -- the sample points of a frame do not pass its stop bit and a frame has at least one sample, then the decoder gives events
  -- exactly for the hypotheses that it supports, and raises for the others. Supported are: a channel for "rx" that the capture
  -- has, no parity or "none", no number of data bits or 8, no stop bits or a number close to 1, and a baud that is not 0 with
  -- a bit period of at least a sample. The samples do not matter.
  pub decode-IsSupported :
      (capture : Capture F) (hypothesis : ProtocolHypothesis F)
      → IsNoFloat (lookup "data_bits" hypothesis.parameters)
      → PeriodAdvances capture hypothesis
      → ((events : List DecodedEvent) × (decode capture hypothesis ≡ ok events))
        ↔ IsSupported capture hypothesis
  decode-IsSupported capture hypothesis whole advances = (
    λ h. decode_guards capture hypothesis whole h.1,
    decode_loops capture hypothesis whole advances,
  )
