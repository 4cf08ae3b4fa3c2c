-- ===== src/Decode/Sigrok/Lines.antt =====
-- src/slidko/decode/sigrok_backend.py: the parsers of the lines that sigrok-cli prints. The digits are ASCII, and
-- `int(text, 16)` reads hexadecimal digits.
use slidko.Prelude.{
  ℕ, String, Option, none, some, List, [], ◌∷◌, ◌==◌, if◌then◌else◌, codes, codes_eq, read_number,
  after,
}
use slidko.Result.{Result, ok, err, ◌>>=◌, value_error}
use slidko.Decode.Events.{DecodedEvent, Payload}
use slidko.Decode.NativeUart.{ascii}

abbrev pub dash_end : ℕ → Option (ℕ × List ℕ) → Option (ℕ × ℕ × List ℕ)
dash_end start none = none
dash_end start (some (end, rest)) = some (start, end, rest)

abbrev pub dash : Option (ℕ × List ℕ) → Option (ℕ × ℕ × List ℕ)
dash none = none
dash (some (start, [])) = none
dash (some (start, c ∷ rest)) = if c == 45 then dash_end start (read_number 10 rest) else none

abbrev pub with_range : ℕ → ℕ → Option (List ℕ) → Option (ℕ × ℕ × List ℕ)
with_range start end none = none
with_range start end (some text) = some (start, end, text)

abbrev pub text_after : List ℕ → Option (ℕ × ℕ × List ℕ) → Option (ℕ × ℕ × List ℕ)
text_after label none = none
text_after label (some (start, end, rest)) = with_range start end (after label rest)

-- `^(\d+)-(\d+) LABEL: (.*)$`
unfoldable pub match_line : List ℕ → List ℕ → Option (ℕ × ℕ × List ℕ)
match_line label line = text_after label (dash (read_number 10 line))

-- A whole text of hexadecimal digits.
abbrev pub whole_hex : Option (ℕ × List ℕ) → Option ℕ
whole_hex (some (value, [])) = some value
whole_hex _ = none

unfoldable pub hex_value : List ℕ → Option ℕ
hex_value text = whole_hex (read_number 16 text)

abbrev pub event_of : String → ℕ → ℕ → List (String × Payload) → DecodedEvent
event_of kind start_sample end_sample payload = record {
  kind = kind;
  start_sample = start_sample;
  end_sample = end_sample;
  payload = payload;
  channel = none;
}

abbrev pub valued : (ℕ → DecodedEvent) → Option ℕ → Option DecodedEvent
valued event none = none
valued event (some value) = some (event value)

-- A match whose text is a number, as an event.
abbrev pub word_event : (ℕ → ℕ → ℕ → DecodedEvent) → Option (ℕ × ℕ × List ℕ) → Option DecodedEvent
word_event event none = none
word_event event (some (start, end, text)) = valued (event start end) (hex_value text)

abbrev pub uart_event : ℕ → ℕ → ℕ → DecodedEvent
uart_event start end value =
    event_of "uart.byte" start end (("value", Payload.int value) ∷ ("ascii", ascii value) ∷ [])

abbrev pub spi_event : ℕ → ℕ → ℕ → DecodedEvent
spi_event start end value =
    event_of "spi.transfer" start end (("mosi", Payload.int value) ∷ ("miso", Payload.null) ∷ [])

abbrev pub add_event : Option DecodedEvent → List DecodedEvent → List DecodedEvent
add_event none events = events
add_event (some e) events = e ∷ events

-- The lines that match, as events.
unfoldable pub word_events : (ℕ → ℕ → ℕ → DecodedEvent) → List ℕ → List String → List DecodedEvent
word_events event label [] = []
word_events event label (line ∷ lines) =
    add_event (word_event event (match_line label (codes line))) (word_events event label lines)

unfoldable pub parse_uart_output : List String → List DecodedEvent
unfolding word_events
parse_uart_output stdout_lines = word_events uart_event (codes " uart-1: ") stdout_lines

unfoldable pub parse_spi_output : List String → List DecodedEvent
unfolding word_events
parse_spi_output stdout_lines = word_events spi_event (codes " spi-1: ") stdout_lines

-- What a text after a prefix is: not that, or a number or an exception.
abbrev pub number_or_raise : Option ℕ → Result ℕ
number_or_raise none = err (value_error "invalid literal for int() with base 16")
number_or_raise (some n) = ok n

abbrev pub address : String → ℕ → List (String × Payload)
address rw value = ("address", Payload.int value) ∷ ("rw", Payload.text rw) ∷ []

abbrev pub byte_value : ℕ → List (String × Payload)
byte_value value = ("value", Payload.int value) ∷ []

-- `text.startswith(prefix)`, and then the number after it.
abbrev pub when_prefixed :
    String
    → (ℕ → List (String × Payload))
    → Option (List ℕ)
    → Result (Option (String × List (String × Payload)))
    → Result (Option (String × List (String × Payload)))
when_prefixed kind data_of none otherwise = otherwise
when_prefixed kind data_of (some rest) otherwise =
    number_or_raise (hex_value rest) >>= (λ n. ok (some (kind, data_of n)))

-- The kind and the data of an I2C text, if it has one.
unfoldable pub i2c_text : List ℕ → Result (Option (String × List (String × Payload)))
i2c_text text =
    let read_data =
      when_prefixed "i2c.data" byte_value (after (codes "Data read: ") text) (ok none) in
    let write_data =
      when_prefixed "i2c.data" byte_value (after (codes "Data write: ") text) read_data in
    let read_address =
      when_prefixed "i2c.address" (address "read") (after (codes "Address read: ") text)
        write_data in
    let write_address =
      when_prefixed "i2c.address" (address "write") (after (codes "Address write: ") text)
        read_address in
    if codes_eq text (codes "Start")
    then ok (some ("i2c.start", []))
    else if codes_eq text (codes "Stop")
    then ok (some ("i2c.stop", []))
    else if codes_eq text (codes "ACK")
    then ok (some ("i2c.ack", []))
    else if codes_eq text (codes "NACK")
    then ok (some ("i2c.nak", []))
    else write_address

abbrev pub i2c_event : ℕ → ℕ → Option (String × List (String × Payload)) → Option DecodedEvent
i2c_event start end none = none
i2c_event start end (some (kind, payload)) = some (event_of kind start end payload)

-- One line; `.+` asks for a text that is not empty.
abbrev pub i2c_line : Option (ℕ × ℕ × List ℕ) → Result (Option DecodedEvent)
i2c_line none = ok none
i2c_line (some (start, end, [])) = ok none
i2c_line (some (start, end, c ∷ text)) =
    i2c_text (c ∷ text) >>= (λ found. ok (i2c_event start end found))

unfoldable pub parse_i2c_output : List String → Result (List DecodedEvent)
parse_i2c_output [] = ok []
parse_i2c_output (line ∷ stdout_lines) =
    let rest = parse_i2c_output stdout_lines in
    i2c_line (match_line (codes " i2c-1: ") (codes line))
    >>= (λ found. rest >>= (λ events. ok (add_event found events)))
