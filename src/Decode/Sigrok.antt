-- ===== src/Decode/Sigrok.antt =====
-- src/slidko/decode/sigrok_backend.py: decoding by sigrok-cli. The program that runs is a parameter: what it prints
-- for a session file and arguments, or that it fails.
use slidko.Prelude.{
  ℕ, ◌+◌, ◌-◌, String, concat, not, ◌&&◌, Option, none, some, List, [], ◌∷◌, ◌++◌, str_eq,
  if◌then◌else◌, select, codes, is_empty, show, lookup, Float, read_number,
}
use slidko.Result.{Result, ok, err, ◌>>=◌, require, value_error, type_error}
use slidko.Capture.{Capture}
use slidko.Capture.SrFile.{Archive, write_sr}
use slidko.Decode.FromMeasure.{get}
use slidko.Decode.Sigrok.Lines.{parse_uart_output, parse_i2c_output, parse_spi_output}
use slidko.Decode.Backend.{ProtocolHypothesis, Value, null, int, float, text}
use slidko.Decode.Events.{DecodedEvent}
pub mod Lines
pub mod Laws
pub mod I2cLines
pub mod Building
pub mod Files

-- A line of sigrok-cli's arguments.
abbrev pub command : String → String → String → List String
command sr_path decoder annotation =
    "sigrok-cli" ∷ "-i" ∷ sr_path ∷ "-P" ∷ decoder ∷ "-A" ∷ annotation
    ∷ "--protocol-decoder-samplenum" ∷ []

-- `f"{key}={value}"`
abbrev option : String → String → String
option key value = concat key (concat "=" value)

-- `":".join(params)`
unfoldable pub join_colons : List String → String
join_colons [] = ""
join_colons (x ∷ []) = x
join_colons (x ∷ y ∷ xs) = concat x (concat ":" (join_colons (y ∷ xs)))

-- `if channel: params.append(...)`
abbrev pub option_if : String → Option String → List String
option_if key none = []
option_if key (some channel) = if is_empty channel then [] else option key channel ∷ []

abbrev pub whole_text : String → Option (ℕ × List ℕ) → Result String
whole_text s (some (n, [])) = ok s
whole_text s _ = err (value_error s)

-- `_run_sigrok`: the lines that are not empty.
unfoldable pub run_sigrok :
    (Archive → List String → Result (List String)) → Archive → List String → Result (List String)
run_sigrok run archive args =
    run archive args >>= (λ lines. ok (select (λ line. not (is_empty line)) lines))

module _ {F : Type 0} ⦃fl : Float F⦄ where
  -- `f"{value}"`
  abbrev pub value_text : Value F → String
  value_text null = "None"
  value_text (int n) = show n
  value_text (float x) = fl.repr x
  value_text (text s) = s

  -- A text is not equal to the number that it is read as.
  unfoldable pub format_stop_bits : Value F → Result String
  format_stop_bits null = err type_error
  format_stop_bits (int n) = ok (show n)
  format_stop_bits (text s) = whole_text s (read_number 10 (codes s))
  format_stop_bits (float x) =
      let n = fl.trunc x in
      ok (if fl.le x (fl.of_ℕ n) && fl.le (fl.of_ℕ n) x then show n else fl.repr x)

  unfoldable pub build_uart_args : String → ProtocolHypothesis F → Result (List String)
  build_uart_args sr_path hypothesis = do
    baud ← require "baud" hypothesis.parameters
    let data_bits = get "data_bits" (int 8) hypothesis.parameters
    let parity = get "parity" (text "none") hypothesis.parameters
    stop_bits ← format_stop_bits (get "stop_bits" (float (fl.decimal 10 1)) hypothesis.parameters)
    rx_channel ← require "rx" hypothesis.channel_assignments
    ok (
        command sr_path
          (join_colons (
            "uart"
            ∷ option "rx" rx_channel
            ∷ option "baudrate" (value_text baud)
            ∷ option "data_bits" (value_text data_bits)
            ∷ option "parity" (value_text parity)
            ∷ option "stop_bits" stop_bits
            ∷ []))
          "uart=rx-data")

  unfoldable pub build_i2c_args : String → ProtocolHypothesis F → Result (List String)
  build_i2c_args sr_path hypothesis = do
    scl_channel ← require "scl" hypothesis.channel_assignments
    sda_channel ← require "sda" hypothesis.channel_assignments
    ok (
        command sr_path
          (join_colons ("i2c" ∷ option "scl" scl_channel ∷ option "sda" sda_channel ∷ []))
          "i2c=addr-data")

  unfoldable pub build_spi_args : String → ProtocolHypothesis F → Result (List String)
  build_spi_args sr_path hypothesis = do
    clk_channel ← require "clk" hypothesis.channel_assignments
    let params =
        (option "clk" clk_channel
          ∷ option "cpol" (value_text (get "cpol" (int 0) hypothesis.parameters))
          ∷ option "cpha" (value_text (get "cpha" (int 0) hypothesis.parameters))
          ∷ option "wordsize" (value_text (get "wordsize" (int 8) hypothesis.parameters))
          ∷ (option_if "mosi" (lookup "mosi" hypothesis.channel_assignments)
              ++ (option_if "miso" (lookup "miso" hypothesis.channel_assignments)
                  ++ option_if "cs" (lookup "cs" hypothesis.channel_assignments))))
    ok (command sr_path (concat "spi:" (join_colons params)) "spi=mosi-data")

  module _ (run : Archive → List String → Result (List String)) (sr_path : String) where
    -- The capture is written before the arguments are built. The file at `sr_path` is temporary: it is removed however
    -- this ends.
    unfoldable pub decoded_lines :
        (String → ProtocolHypothesis F → Result (List String))
        → Capture F
        → ProtocolHypothesis F
        → Result (List String)
    unfolding run_sigrok
    decoded_lines build_args capture hypothesis = do
      archive ← write_sr capture none
      args ← build_args sr_path hypothesis
      run_sigrok run archive args

    unfoldable pub decode : Capture F → ProtocolHypothesis F → Result (List DecodedEvent)
    decode capture hypothesis =
        if str_eq hypothesis.protocol "uart"
        then (decoded_lines build_uart_args capture hypothesis
            >>= (λ lines. ok (parse_uart_output lines)))
        else if str_eq hypothesis.protocol "i2c"
        then (decoded_lines build_i2c_args capture hypothesis >>= parse_i2c_output)
        else if str_eq hypothesis.protocol "spi"
        then (decoded_lines build_spi_args capture hypothesis
            >>= (λ lines. ok (parse_spi_output lines)))
        else err (value_error (concat "Unsupported protocol " hypothesis.protocol))
