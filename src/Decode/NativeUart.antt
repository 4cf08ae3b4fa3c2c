-- ===== src/Decode/NativeUart.antt =====
-- src/slidko/decode/native_uart.py: the 8N1 decoder that needs no library. A bit period is finite
-- here: of another one Python's `round` raises.
use slidko.Prelude.{
  ℕ, zero, suc, ◌+◌, ◌-◌, ◌*◌, ◌/◌, ◌%◌, ◌^◌, ◌<◌, String, Bool, true, false, not, ◌&&◌, Option,
  none, some, List, [], ◌∷◌, str_eq, ltb, leb, ◌==◌, if◌then◌else◌, length, get_elem?, lookup,
  Float,
}
use slidko.Result.{
  Result, ok, err, ◌>>=◌, require, index_error, key_error, value_error, type_error,
  zero_division_error,
}
use slidko.Capture.{Capture}
use slidko.Measure.Edges.{Channel}
use slidko.Decode.Events.{Payload, DecodedEvent}
use slidko.Decode.Backend.{Value, ProtocolHypothesis}
pub mod Frame
pub mod Scan
pub mod Transmit
pub mod Stream
pub mod Auto
pub mod Guards
pub mod Supported

-- `rx_signal[i]`
abbrev pub at : Channel → ℕ → Result Bool
at rx_signal i = elim (get_elem? rx_signal i) [ none ↦ err index_error | some b ↦ ok b ]

-- The printable ASCII characters, from code 32 on.
abbrev pub printable : String
printable =
    " !\"#$%&'()*+,-./0123456789:;<=>?@ABCDEFGHIJKLMNOPQRSTUVWXYZ[\\]^_`abcdefghijklmnopqrstuvwxyz{|}~"

abbrev pub character : String → ℕ → String
character String.[] n = ""
character (String.◌∷◌ c s) zero = String.◌∷◌ c ""
character (String.◌∷◌ c s) (suc n) = character s n

-- `chr(value) if 32 <= value < 127 else None`
abbrev pub ascii : ℕ → Payload
ascii value =
    if leb 32 value && ltb value 127
    then Payload.text (character printable (value - 32))
    else Payload.null

abbrev pub uart_byte : ℕ → ℕ → ℕ → Bool → DecodedEvent
uart_byte start_sample value end_sample stop_bit_high = record {
  kind = "uart.byte";
  start_sample = start_sample;
  end_sample = end_sample;
  payload =
      ("value", Payload.int value)
      ∷ ("ascii", ascii value)
      ∷ ("framing_error", Payload.flag (not stop_bit_high))
      ∷ [];
  channel = none;
}

-- The `for i in range(data_bits)` with the sample index of bit `i` as a function: bit `i` of `value`
-- is still 0, so that `|=` is an addition.
unfoldable pub read_bits : Channel → (ℕ → ℕ) → ℕ → ℕ → ℕ → Result ℕ
read_bits rx_signal center zero i value = ok value
read_bits rx_signal center (suc n) i value = do
  b ← at rx_signal (center (i + 1))
  read_bits rx_signal center n (i + 1) (if b then value + 2 ^ i else value)

module _ {F : Type 0} ⦃fl : Float F⦄ where
  -- `round(bit_period_samples * (bit_index_from_start_bit + 0.5))`
  abbrev pub center_offset : F → ℕ → ℕ
  center_offset bit_period_samples bit_index_from_start_bit =
      fl.round
        (fl.mul bit_period_samples (fl.add (fl.of_ℕ bit_index_from_start_bit) (fl.decimal 5 1)))

  -- `round(bit_period_samples * (data_bits + 2))`
  abbrev pub frame_samples : F → ℕ → ℕ
  frame_samples bit_period_samples data_bits =
      fl.round (fl.mul bit_period_samples (fl.of_ℕ (data_bits + 2)))

  unfoldable pub bit_center : F → ℕ → ℕ → ℕ
  bit_center bit_period_samples start_sample bit_index_from_start_bit =
      start_sample + center_offset bit_period_samples bit_index_from_start_bit

  unfoldable pub decode_uart_byte : Channel → ℕ → F → ℕ → Result (Option (ℕ × ℕ × Bool))
  decode_uart_byte rx_signal start_sample bit_period_samples data_bits =
      let center = bit_center bit_period_samples start_sample in
      let stop_center = center (data_bits + 1) in
      if leb (length rx_signal) stop_center then ok none else do
        stop_bit_high ← at rx_signal stop_center
        value ← read_bits rx_signal center data_bits 0 0
        ok (
            some
              (value, start_sample + frame_samples bit_period_samples data_bits - 1, stop_bit_high))

  -- What one turn of the `while` decodes at `idx`.
  unfoldable pub decode_at : Channel → F → ℕ → ℕ → Result (Option (ℕ × ℕ × Bool))
  decode_at rx_signal bit_period_samples data_bits idx = do
    before ← at rx_signal (idx - 1)
    now ← at rx_signal idx
    (if before && not now
        then decode_uart_byte rx_signal idx bit_period_samples data_bits
        else ok none)

  -- The `while idx < n`. Each turn moves `idx` forward, so that the number of samples is enough
  -- fuel.
  unfoldable pub decode_loop : Channel → F → ℕ → ℕ → ℕ → Result (List DecodedEvent)
  decode_loop rx_signal bit_period_samples data_bits zero idx = ok []
  decode_loop rx_signal bit_period_samples data_bits (suc fuel) idx =
      elim (ltb idx (length rx_signal)) [
        | false ↦ ok []
        | true ↦ decode_at rx_signal bit_period_samples data_bits idx >>= λ decoded. elim decoded [
          | none ↦ decode_loop rx_signal bit_period_samples data_bits fuel (idx + 1)
          | some (value, end_sample, stop_bit_high) ↦
              decode_loop rx_signal bit_period_samples data_bits fuel (end_sample + 1) >>= λ rest.
              ok (uart_byte idx value end_sample stop_bit_high ∷ rest)
        ]
      ]

  -- `math.isclose(a, b)`
  abbrev pub is_close : F → F → Bool
  is_close a b =
      fl.le (fl.abs (fl.sub a b))
        (fl.mul (fl.decimal 1 9) (if fl.lt (fl.abs a) (fl.abs b) then fl.abs b else fl.abs a))

  abbrev pub is_none_parity : Option (Value F) → Bool
  is_none_parity none = true
  is_none_parity (some (Value.text parity)) = str_eq parity "none"
  is_none_parity (some _) = false

  abbrev pub is_eight : Option (Value F) → Bool
  is_eight none = true
  is_eight (some (Value.int n)) = n == 8
  is_eight (some (Value.float x)) = fl.le x (fl.of_ℕ 8) && fl.le (fl.of_ℕ 8) x
  is_eight (some _) = false

  abbrev pub is_one : Option (Value F) → Result Bool
  is_one none = ok true
  is_one (some (Value.int n)) = ok (is_close (fl.of_ℕ n) (fl.decimal 10 1))
  is_one (some (Value.float x)) = ok (is_close x (fl.decimal 10 1))
  is_one (some _) = err type_error

  -- The guard: `ok true` where the configuration is 8N1.
  unfoldable pub is_8n1 : List (String × Value F) → Result Bool
  is_8n1 parameters =
      if is_none_parity (lookup "parity" parameters) && is_eight (lookup "data_bits" parameters)
      then is_one (lookup "stop_bits" parameters)
      else ok false

  -- `capture.samplerate_hz / baud`
  unfoldable pub bit_period : ℕ → Value F → Result F
  bit_period samplerate_hz (Value.int n) =
      if n == 0 then err zero_division_error else ok (fl.div (fl.of_ℕ samplerate_hz) (fl.of_ℕ n))
  bit_period samplerate_hz (Value.float x) =
      if fl.le x (fl.of_ℕ 0) && fl.le (fl.of_ℕ 0) x
      then err zero_division_error
      else ok (fl.div (fl.of_ℕ samplerate_hz) x)
  bit_period samplerate_hz _ = err type_error

  -- `range(data_bits)` refuses a float at the first complete frame, and each event is one: with a float 8.0 there is no event.
  abbrev pub in_range_of : Option (Value F) → List DecodedEvent → Result (List DecodedEvent)
  in_range_of (some (Value.float x)) [] = ok []
  in_range_of (some (Value.float x)) (e ∷ events) = err type_error
  in_range_of (some (Value.int n)) events = ok events
  in_range_of (some (Value.text s)) events = ok events
  in_range_of (some Value.null) events = ok events
  in_range_of none events = ok events

  -- `NativeUARTBackend.decode`
  unfoldable pub decode : Capture F → ProtocolHypothesis F → Result (List DecodedEvent)
  decode capture hypothesis = do
    rx_channel ← require "rx" hypothesis.channel_assignments
    supported ← is_8n1 hypothesis.parameters
    (if not supported then err (value_error "Native UART only supports 8N1") else (do
      rx_signal ← require rx_channel capture.channels
      baud ← require "baud" hypothesis.parameters
      bit_period_samples ← bit_period capture.samplerate_hz baud
      (if fl.lt bit_period_samples (fl.of_ℕ 1)
          then err (value_error "baud too high")
          else decode_loop rx_signal bit_period_samples 8 (length rx_signal) 1
            >>= in_range_of (lookup "data_bits" hypothesis.parameters))))
