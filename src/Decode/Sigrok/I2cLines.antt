-- ===== src/Decode/Sigrok/I2cLines.antt =====
-- The lines of the I2C decoder, as sigrok-cli prints them, are parsed as what they say.
use slidko.Prelude.{
  ℕ, String, ◌≡◌, refl, ap, ◌∙◌, Bool, false, some, List, [], ◌∷◌, ◌++◌, map, codes, show,
  show_hex2, digit_in, hex_digit, begins_number, digits_as, read_number-show,
}
use slidko.Result.{ok, ◌>>=◌}
use slidko.Decode.Events.{DecodedEvent, Payload}
use slidko.Decode.Sigrok.Laws.{hex_value-printed, after-append, dash_ends}
use slidko.Decode.Sigrok.Lines.{
  with_range, dash_end, dash, i2c_event, text_after, parse_i2c_output, i2c_line, match_line,
  event_of, address, byte_value, i2c_text,
}

-- What the decoder says of the bus; a number has two digits or more.
pub data Message : Type 0 where
  start : Message
  stop : Message
  ack : Message
  nack : Message
  address_write : ℕ → Message
  address_read : ℕ → Message
  data_write : ℕ → Message
  data_read : ℕ → Message

pub record Annotation : Type 0 where
  pub start_sample : ℕ
  pub end_sample : ℕ
  pub message : Message
  pub capitals : Bool

abbrev digits : Bool → ℕ → List ℕ
digits up n = digits_as up (codes (show_hex2 n))

abbrev pub message_codes : Bool → Message → List ℕ
message_codes up start = codes "Start"
message_codes up stop = codes "Stop"
message_codes up ack = codes "ACK"
message_codes up nack = codes "NACK"
message_codes up (address_write n) = codes "Address write: " ++ digits up n
message_codes up (address_read n) = codes "Address read: " ++ digits up n
message_codes up (data_write n) = codes "Data write: " ++ digits up n
message_codes up (data_read n) = codes "Data read: " ++ digits up n

-- `f"{start}-{end} i2c-1: {message}"`
abbrev pub annotation_codes : Annotation → List ℕ
annotation_codes a =
    codes (show a.start_sample)
    ++ (45
        ∷ (codes (show a.end_sample) ++ (codes " i2c-1: " ++ message_codes a.capitals a.message)))

abbrev pub kind_of : Message → String × List (String × Payload)
kind_of start = ("i2c.start", [])
kind_of stop = ("i2c.stop", [])
kind_of ack = ("i2c.ack", [])
kind_of nack = ("i2c.nak", [])
kind_of (address_write n) = ("i2c.address", address "write" n)
kind_of (address_read n) = ("i2c.address", address "read" n)
kind_of (data_write n) = ("i2c.data", byte_value n)
kind_of (data_read n) = ("i2c.data", byte_value n)

abbrev pub annotated : Annotation → DecodedEvent
annotated a = let kind = kind_of a.message in event_of kind.0 a.start_sample a.end_sample kind.1

i2c_text-message : (up : Bool) (m : Message) → i2c_text (message_codes up m) ≡ ok (some (kind_of m))
unfolding i2c_text
i2c_text-message up start = refl
i2c_text-message up stop = refl
i2c_text-message up ack = refl
i2c_text-message up nack = refl
i2c_text-message up (address_write n) = rw (hex_value-printed up n) refl
i2c_text-message up (address_read n) = rw (hex_value-printed up n) refl
i2c_text-message up (data_write n) = rw (hex_value-printed up n) refl
i2c_text-message up (data_read n) = rw (hex_value-printed up n) refl

space_ends : (rest : List ℕ) → begins_number 10 (codes " i2c-1: " ++ rest) ≡ false
unfolding digit_in hex_digit
space_ends rest = refl

match_line-annotation :
    (a : Annotation)
    → match_line (codes " i2c-1: ") (annotation_codes a)
      ≡ some (a.start_sample, a.end_sample, message_codes a.capitals a.message)
unfolding match_line
match_line-annotation a =
    let label = codes " i2c-1: " in
    let said = message_codes a.capitals a.message in
    let second : List ℕ = codes (show a.end_sample) ++ (label ++ said) in
    ap (λ r. text_after label (dash r))
      (read_number-show a.start_sample (45 ∷ second) (dash_ends second))
    ∙ ap (λ r. text_after label (dash_end a.start_sample r))
        (read_number-show a.end_sample (label ++ said) (space_ends said))
    ∙ ap (λ o. with_range a.start_sample a.end_sample o) (after-append label said)

-- A message is not empty.
some_text :
    (first last : ℕ) (up : Bool) (m : Message)
    → i2c_line (some (first, last, message_codes up m))
      ≡ (i2c_text (message_codes up m) >>= (λ found. ok (i2c_event first last found)))
some_text first last up start = refl
some_text first last up stop = refl
some_text first last up ack = refl
some_text first last up nack = refl
some_text first last up (address_write n) = refl
some_text first last up (address_read n) = refl
some_text first last up (data_write n) = refl
some_text first last up (data_read n) = refl

line-annotated :
    (a : Annotation) (line : String)
    → codes line ≡ annotation_codes a
    → i2c_line (match_line (codes " i2c-1: ") (codes line)) ≡ ok (some (annotated a))
line-annotated a line e =
    ap (λ cs. i2c_line (match_line (codes " i2c-1: ") cs)) e
    ∙ ap (λ m. i2c_line m) (match_line-annotation a)
    ∙ some_text a.start_sample a.end_sample a.capitals a.message
    ∙ ap (λ r. r >>= (λ found. ok (i2c_event a.start_sample a.end_sample found)))
        (i2c_text-message a.capitals a.message)

-- The lines are the printed annotations.
abbrev pub ArePrinted : List Annotation → List String → Type 0
ArePrinted [] [] = Unit
ArePrinted [] (line ∷ lines) = ⊥
ArePrinted (a ∷ annotations) [] = ⊥
ArePrinted (a ∷ annotations) (line ∷ lines) =
    (codes line ≡ annotation_codes a) × ArePrinted annotations lines

-- The lines of printed bus annotations are parsed, with no exception, as the events that they say, in order, each with its
-- sample range, its kind and its address or value; the digits are capitals or small ones.
pub parse_i2c_output-printed :
    (annotations : List Annotation) (lines : List String)
    → ArePrinted annotations lines
    → parse_i2c_output lines ≡ ok (map annotated annotations)
unfolding parse_i2c_output
parse_i2c_output-printed [] [] h = refl
parse_i2c_output-printed [] (line ∷ lines) h = elim h [ ]
parse_i2c_output-printed (a ∷ annotations) [] h = elim h [ ]
parse_i2c_output-printed (a ∷ annotations) (line ∷ lines) (e, h) =
    rw (line-annotated a line e, parse_i2c_output-printed annotations lines h) refl
