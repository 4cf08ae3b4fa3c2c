-- ===== src/Decode/Schema.antt =====
-- src/slidko/decode/events.py: the kinds of events, and the data that each kind has. Every event that the backend of
-- src/slidko/decode/sigrok_backend.py gives is of one of them.
use slidko.Prelude.{
  ℕ, ◌-◌, String, ◌≡◌, refl, inl, inr, Bool, true, false, ◌&&◌, Option, none, some, List, [], ◌∷◌,
  str_eq, ltb, leb, if◌then◌else◌, Bool-cases, All, codes, codes_eq, Float, after,
}
use slidko.Result.{Result, ok, Holds, Holds-bind, Holds-any, Holds-if}
use slidko.Capture.{Capture}
use slidko.Capture.SrFile.{Archive}
use slidko.Decode.Backend.{ProtocolHypothesis}
use slidko.Decode.Sigrok.{decode, decoded_lines, build_uart_args, build_i2c_args, build_spi_args}
use slidko.Decode.Events.{DecodedEvent, Payload}
use slidko.Decode.NativeUart.{ascii, character, printable}
use slidko.Decode.Sigrok.Lines.{
  parse_spi_output, parse_uart_output, parse_i2c_output, i2c_line, i2c_event, valued, word_event,
  word_events, match_line, hex_value, add_event, uart_event, spi_event, number_or_raise,
  when_prefixed, i2c_text, address, byte_value,
}

-- `str | None` and `int | None`
abbrev pub text_or_null : Option String → Payload
text_or_null none = Payload.null
text_or_null (some s) = Payload.text s

abbrev pub int_or_null : Option ℕ → Payload
int_or_null none = Payload.null
int_or_null (some n) = Payload.int n

-- The kind vocabulary and the data of each kind.
pub data HasSchema (kind : String) (payload : List (String × Payload)) : Type 0 where
  uart_data :
      (n : ℕ) (a : Option String)
      → kind ≡ "uart.byte"
      → payload ≡ ("value", Payload.int n) ∷ ("ascii", text_or_null a) ∷ []
      → HasSchema kind payload
  i2c_start : kind ≡ "i2c.start" → payload ≡ [] → HasSchema kind payload
  i2c_address :
      (n : ℕ) (is_read : Bool)
      → kind ≡ "i2c.address"
      → payload
        ≡ ("address", Payload.int n)
          ∷ ("rw", Payload.text (if is_read then "read" else "write"))
          ∷ []
      → HasSchema kind payload
  i2c_ack : kind ≡ "i2c.ack" → payload ≡ [] → HasSchema kind payload
  i2c_nak : kind ≡ "i2c.nak" → payload ≡ [] → HasSchema kind payload
  i2c_data :
      (n : ℕ) → kind ≡ "i2c.data" → payload ≡ ("value", Payload.int n) ∷ [] → HasSchema kind payload
  i2c_stop : kind ≡ "i2c.stop" → payload ≡ [] → HasSchema kind payload
  spi_data :
      (mosi miso : Option ℕ)
      → kind ≡ "spi.transfer"
      → payload ≡ ("mosi", int_or_null mosi) ∷ ("miso", int_or_null miso) ∷ []
      → HasSchema kind payload

abbrev pub IsNormalized : DecodedEvent → Type 0
IsNormalized e = HasSchema e.kind e.payload

ascii_lem : (n : ℕ) → (a : Option String) × (ascii n ≡ text_or_null a)
ascii_lem n = elim (Bool-cases (leb 32 n && ltb n 127)) [
  | inl shown ↦ (some (character printable (n - 32)), rw shown refl)
  | inr hidden ↦ (none, rw hidden refl)
]

uart_event-IsNormalized : (start end value : ℕ) → IsNormalized (uart_event start end value)
uart_event-IsNormalized start end value =
    let (a, e) = ascii_lem value in uart_data value a refl (rw e refl)

spi_event-IsNormalized : (start end value : ℕ) → IsNormalized (spi_event start end value)
spi_event-IsNormalized start end value = spi_data (some value) none refl refl

-- What is found, if anything, is an event of a kind.
abbrev IsFound : Option DecodedEvent → Type 0
IsFound none = Unit
IsFound (some e) = IsNormalized e

word_event-IsFound :
    (event : ℕ → ℕ → ℕ → DecodedEvent) (m : Option (ℕ × ℕ × List ℕ))
    → ((start end value : ℕ) → IsNormalized (event start end value))
    → IsFound (word_event event m)
word_event-IsFound event none h = tt
word_event-IsFound event (some (start, end, text)) h = valued-IsFound (hex_value text)
  where
    valued-IsFound : (v : Option ℕ) → IsFound (valued (event start end) v)
    valued-IsFound none = tt
    valued-IsFound (some value) = h start end value

add_event-All :
    (found : Option DecodedEvent) (events : List DecodedEvent)
    → IsFound found
    → All IsNormalized events
    → All IsNormalized (add_event found events)
add_event-All none events f es = es
add_event-All (some e) events f es = (f, es)

word_events-All :
    (event : ℕ → ℕ → ℕ → DecodedEvent) (label : List ℕ) (lines : List String)
    → ((start end value : ℕ) → IsNormalized (event start end value))
    → All IsNormalized (word_events event label lines)
unfolding word_events
word_events-All event label [] h = tt
word_events-All event label (line ∷ lines) h =
    add_event-All _ (word_events event label lines)
      (word_event-IsFound event (match_line label (codes line)) h)
      (word_events-All event label lines h)

-- A kind with its data, if there is one.
abbrev HasKind : Option (String × List (String × Payload)) → Type 0
HasKind none = Unit
HasKind (some (kind, payload)) = HasSchema kind payload

when_prefixed-HasKind :
    (kind : String) (data_of : ℕ → List (String × Payload)) (rest : Option (List ℕ))
    (otherwise : Result (Option (String × List (String × Payload))))
    → ((n : ℕ) → HasSchema kind (data_of n))
    → Holds HasKind otherwise
    → Holds HasKind (when_prefixed kind data_of rest otherwise)
when_prefixed-HasKind kind data_of none otherwise h o = o
when_prefixed-HasKind kind data_of (some rest) otherwise h o =
    Holds-bind (λ n. Unit {0}) HasKind (number_or_raise (hex_value rest))
      (λ n. ok (some (kind, data_of n))) (Holds-any _) (λ n u. h n)

i2c_text-HasKind : (text : List ℕ) → Holds HasKind (i2c_text text)
unfolding i2c_text
i2c_text-HasKind text =
    let read_data =
      when_prefixed-HasKind "i2c.data" byte_value (after (codes "Data read: ") text) (ok none)
        (λ n. i2c_data n refl refl) tt in
    let write_data =
      when_prefixed-HasKind "i2c.data" byte_value (after (codes "Data write: ") text) _
        (λ n. i2c_data n refl refl) read_data in
    let read_address =
      when_prefixed-HasKind "i2c.address" (address "read") (after (codes "Address read: ") text) _
        (λ n. i2c_address n true refl refl) write_data in
    let write_address =
      when_prefixed-HasKind "i2c.address" (address "write") (after (codes "Address write: ") text) _
        (λ n. i2c_address n false refl refl) read_address in
    Holds-if HasKind (codes_eq text (codes "Start")) _ _ (λ e. i2c_start refl refl)
      (λ e.
        Holds-if HasKind (codes_eq text (codes "Stop")) _ _ (λ e. i2c_stop refl refl)
          (λ e.
            Holds-if HasKind (codes_eq text (codes "ACK")) _ _ (λ e. i2c_ack refl refl)
              (λ e.
                Holds-if HasKind (codes_eq text (codes "NACK")) _ _ (λ e. i2c_nak refl refl)
                  (λ e. write_address))))

i2c_event-IsFound :
    (start end : ℕ) (found : Option (String × List (String × Payload)))
    → HasKind found
    → IsFound (i2c_event start end found)
i2c_event-IsFound start end none h = tt
i2c_event-IsFound start end (some (kind, payload)) h = h

i2c_line-IsFound : (m : Option (ℕ × ℕ × List ℕ)) → Holds IsFound (i2c_line m)
i2c_line-IsFound none = tt
i2c_line-IsFound (some (start, end, [])) = tt
i2c_line-IsFound (some (start, end, c ∷ text)) =
    Holds-bind HasKind IsFound (i2c_text (c ∷ text)) (λ found. ok (i2c_event start end found))
      (i2c_text-HasKind (c ∷ text)) (λ found h. i2c_event-IsFound start end found h)

parse_i2c_output-All : (lines : List String) → Holds (All IsNormalized) (parse_i2c_output lines)
unfolding parse_i2c_output
parse_i2c_output-All [] = tt
parse_i2c_output-All (line ∷ lines) =
    Holds-bind IsFound (All IsNormalized) (i2c_line (match_line (codes " i2c-1: ") (codes line))) _
      (i2c_line-IsFound (match_line (codes " i2c-1: ") (codes line)))
      (λ found f.
        Holds-bind (All IsNormalized) (All IsNormalized) (parse_i2c_output lines)
          (λ events. ok (add_event found events)) (parse_i2c_output-All lines)
          (λ events es. add_event-All found events f es))

module _ {F : Type 0} ⦃fl : Float F⦄ (run : Archive → List String → Result (List String))
    (sr_path : String) where
  -- Whatever sigrok-cli prints, each event that is decoded has a kind of the vocabulary, and its data has the keys of that
  -- kind, in their order, with values of their types, and no other key.
  pub decode-IsNormalized :
      (capture : Capture F) (hypothesis : ProtocolHypothesis F)
      → Holds (All IsNormalized) (decode run sr_path capture hypothesis)
  unfolding decode parse_uart_output parse_spi_output
  decode-IsNormalized capture hypothesis =
      Holds-if P (str_eq hypothesis.protocol "uart") _ _
        (λ e.
          Holds-bind (λ _. Unit {0}) P
            (decoded_lines run sr_path build_uart_args capture hypothesis) _ (Holds-any _)
            (λ lines u. word_events-All uart_event _ lines uart_event-IsNormalized))
        (λ e.
          Holds-if P (str_eq hypothesis.protocol "i2c") _ _
            (λ e.
              Holds-bind (λ _. Unit {0}) P
                (decoded_lines run sr_path build_i2c_args capture hypothesis) _ (Holds-any _)
                (λ lines u. parse_i2c_output-All lines))
            (λ e.
              Holds-if P (str_eq hypothesis.protocol "spi") _ _
                (λ e.
                  Holds-bind (λ _. Unit {0}) P
                    (decoded_lines run sr_path build_spi_args capture hypothesis) _ (Holds-any _)
                    (λ lines u. word_events-All spi_event _ lines spi_event-IsNormalized))
                (λ e. tt)))
    where
      P : List DecodedEvent → Type 0
      P = All IsNormalized
