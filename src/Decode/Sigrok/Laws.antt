-- ===== src/Decode/Sigrok/Laws.antt =====
-- What the parsers read of the lines that the decoders print.
use slidko.Prelude.{
  ℕ, suc, String, ◌≡◌, refl, sym, ap, ◌∙◌, inl, inr, Bool, true, false, Option, none, some, List,
  [], ◌∷◌, ◌++◌, map, arith, ◌==◌, if◌then◌else◌, Bool-cases, length, select, All, codes, show,
  show_hex2, Float, read_number, digit_in, hex_digit, begins_number, append-nil, after, digits_as,
  read_number-show, read_number-show_hex2,
}
use slidko.Decode.Backend.{ProtocolHypothesis}
use slidko.Decode.Events.{DecodedEvent, kind_is}
use slidko.Measure.Smoke.Finding.{SmokeFinding, incoherence_frame_err_rate}
use slidko.Measure.Smoke.Incoherence.{is_bad_frame, detect_uart_framing_incoherence}
use slidko.Decode.Sigrok.Lines.{
  match_line, text_after, with_range, valued, dash, dash_end, hex_value, whole_hex, word_event,
  uart_event, add_event, word_events, parse_uart_output,
}

-- A word of the UART decoder: its first and last sample, its value, and whether its digits are capitals.
pub record Word : Type 0 where
  pub start_sample : ℕ
  pub end_sample : ℕ
  pub value : ℕ
  pub capitals : Bool

-- `f"{start}-{end} uart-1: {value:02x}"`, as code points.
abbrev pub line_codes : Word → List ℕ
line_codes w =
    codes (show w.start_sample)
    ++ (45
        ∷ (codes (show w.end_sample)
            ++ (codes " uart-1: " ++ digits_as w.capitals (codes (show_hex2 w.value)))))

-- The lines are the printed words.
abbrev pub ArePrinted : List Word → List String → Type 0
ArePrinted [] [] = Unit
ArePrinted [] (line ∷ lines) = ⊥
ArePrinted (w ∷ words) [] = ⊥
ArePrinted (w ∷ words) (line ∷ lines) = (codes line ≡ line_codes w) × ArePrinted words lines

pub hex_value-printed :
    (up : Bool) (n : ℕ) → hex_value (digits_as up (codes (show_hex2 n))) ≡ some n
unfolding hex_value
hex_value-printed up n =
    ap (λ cs. whole_hex (read_number 16 cs)) (sym (append-nil (digits_as up (codes (show_hex2 n)))))
    ∙ ap (λ r. whole_hex r) (read_number-show_hex2 up n [] refl)

pub after-append : (pre xs : List ℕ) → after pre (pre ++ xs) ≡ some xs
after-append [] xs = refl
after-append (p ∷ pre) xs =
    let same : (p == p) ≡ true = ground arith in rw same (after-append pre xs)

pub dash_ends : (rest : List ℕ) → begins_number 10 (45 ∷ rest) ≡ false
unfolding digit_in hex_digit
dash_ends rest = refl

space_ends : (rest : List ℕ) → begins_number 10 (codes " uart-1: " ++ rest) ≡ false
unfolding digit_in hex_digit
space_ends rest = refl

match_line-printed :
    (w : Word)
    → match_line (codes " uart-1: ") (line_codes w)
      ≡ some (w.start_sample, w.end_sample, digits_as w.capitals (codes (show_hex2 w.value)))
unfolding match_line
match_line-printed w =
    let digits = digits_as w.capitals (codes (show_hex2 w.value)) in
    let label = codes " uart-1: " in
    let second : List ℕ = codes (show w.end_sample) ++ (label ++ digits) in
    ap (λ r. text_after label (dash r))
      (read_number-show w.start_sample (45 ∷ second) (dash_ends second))
    ∙ ap (λ r. text_after label (dash_end w.start_sample r))
        (read_number-show w.end_sample (label ++ digits) (space_ends digits))
    ∙ ap (λ o. with_range w.start_sample w.end_sample o) (after-append label digits)

abbrev pub event_at : Word → DecodedEvent
event_at w = uart_event w.start_sample w.end_sample w.value

line-printed :
    (w : Word) (line : String)
    → codes line ≡ line_codes w
    → word_event uart_event (match_line (codes " uart-1: ") (codes line)) ≡ some (event_at w)
line-printed w line e =
    ap (λ cs. word_event uart_event (match_line (codes " uart-1: ") cs)) e
    ∙ ap (λ m. word_event uart_event m) (match_line-printed w)
    ∙ ap (λ o. valued (uart_event w.start_sample w.end_sample) o)
        (hex_value-printed w.capitals w.value)

-- The lines of printed words, with capital digits or small ones, are parsed as the words, in order, each with its
-- sample range, its value and the character of the value.
pub parse_uart_output-printed :
    (words : List Word) (lines : List String)
    → ArePrinted words lines
    → parse_uart_output lines ≡ map event_at words
unfolding parse_uart_output word_events
parse_uart_output-printed [] [] h = refl
parse_uart_output-printed [] (line ∷ lines) h = elim h [ ]
parse_uart_output-printed (w ∷ words) [] h = elim h [ ]
parse_uart_output-printed (w ∷ words) (line ∷ lines) (e, h) =
    ap (λ o. add_event o (word_events uart_event (codes " uart-1: ") lines)) (line-printed w line e)
    ∙ ap (◌∷◌ (event_at w)) (parse_uart_output-printed words lines h)

-- No parsed event has a framing error.
abbrev IsGood : DecodedEvent → Type 0
IsGood e = is_bad_frame e ≡ false

valued-IsGood :
    (start end : ℕ) (value : Option ℕ) (events : List DecodedEvent)
    → All IsGood events
    → All IsGood (add_event (valued (uart_event start end) value) events)
valued-IsGood start end none events h = h
valued-IsGood start end (some value) events h = (refl, h)

word_event-IsGood :
    (m : Option (ℕ × ℕ × List ℕ)) (events : List DecodedEvent)
    → All IsGood events
    → All IsGood (add_event (word_event uart_event m) events)
word_event-IsGood none events h = h
word_event-IsGood (some (start, end, text)) events h =
    valued-IsGood start end (hex_value text) events h

word_events-IsGood :
    (lines : List String) → All IsGood (word_events uart_event (codes " uart-1: ") lines)
unfolding word_events
word_events-IsGood [] = tt
word_events-IsGood (line ∷ lines) =
    word_event-IsGood (match_line (codes " uart-1: ") (codes line)) _ (word_events-IsGood lines)

select-IsGood :
    (events : List DecodedEvent)
    → All IsGood events
    → select is_bad_frame (select (kind_is "uart.byte") events) ≡ []
select-IsGood [] h = refl
select-IsGood (e ∷ events) (good, h) = elim (Bool-cases (kind_is "uart.byte" e)) [
  | inl y ↦ rw (y, good) (select-IsGood events h)
  | inr n ↦ rw n (select-IsGood events h)
]

module _ {F : Type 0} ⦃fl : Float F⦄ where
  quiet :
      (frames bad : List DecodedEvent)
      → bad ≡ []
      → (finding : SmokeFinding F)
      → ((n : ℕ) → fl.le (fl.div (fl.of_ℕ 0) (fl.of_ℕ (suc n))) incoherence_frame_err_rate ≡ true)
      → (if length frames == 0
          then []
          else if fl.le
              (fl.div (fl.of_ℕ (length bad)) (fl.of_ℕ (length frames)))
              incoherence_frame_err_rate
          then []
          else finding ∷ [])
        ≡ []
  quiet [] bad e finding none_le = refl
  quiet (f ∷ frames) bad e finding none_le =
      let some_left : (length (f ∷ frames) == 0) ≡ false = ground arith in
      rw (some_left, e, none_le (length frames)) refl

  -- The events that sigrok-cli's UART lines are parsed as never make the smoke detector report framing errors, whatever
  -- the lines are, if 0 over any positive number of frames is at most the threshold rate.
  pub detect_uart_framing_incoherence-parse_uart_output :
      (lines : List String) (hypothesis : ProtocolHypothesis F)
      → ((n : ℕ) → fl.le (fl.div (fl.of_ℕ 0) (fl.of_ℕ (suc n))) incoherence_frame_err_rate ≡ true)
      → detect_uart_framing_incoherence (parse_uart_output lines) hypothesis ≡ []
  unfolding detect_uart_framing_incoherence parse_uart_output
  detect_uart_framing_incoherence-parse_uart_output lines hypothesis none_le =
      let events = word_events uart_event (codes " uart-1: ") lines in
      quiet (select (kind_is "uart.byte") events) _
        (select-IsGood events (word_events-IsGood lines)) _ none_le
