-- ===== src/Examples/Lines.antt =====
-- Concrete inputs for decoding by sigrok-cli.
use slidko.Prelude.{
  String, ◌≡◌, refl, true, false, Option, none, some, List, [], ◌∷◌, map, arith, All, is_empty,
  show, show_hex2, lookup, read_number, digit_in, hex_digit,
}
use slidko.Prelude.Ratio.{Ratio, ratio_float}
use slidko.Numpy.{plain_numpy}
use slidko.Examples.Arrays.{plain_statistics}
use slidko.Examples.Files.{two_lines}
use slidko.Result.{Result, ok, err, file_not_found, Holds}
use slidko.Json.{put, erase}
use slidko.Decode.Events.{Payload}
use slidko.Decode.Schema.{IsNormalized, decode-IsNormalized}
use slidko.Decode.Sigrok.I2cLines
use slidko.Decode.Sigrok.I2cLines.{
  Annotation, address_write, ack, data_write, annotated, parse_i2c_output-printed,
}
use slidko.Decode.Sigrok.Files.{Files, run_on, decode_in, lines_in, decode_in-decode}
use slidko.Capture.SrFile.{
  Archive, metadata_text, write_sr, packed_bytes, columns_of, pack_rows, byte_of, chunks_of,
  chunked,
}
use slidko.Decode.Backend.{ProtocolHypothesis}
use slidko.Decode.Sigrok.Lines.{
  parse_uart_output, parse_i2c_output, i2c_text, match_line, hex_value, event_of,
}
use slidko.Decode.Sigrok.{decode, build_i2c_args, join_colons, run_sigrok}
use slidko.Decode.Sigrok.Laws.{
  Word, ArePrinted, event_at, parse_uart_output-printed,
  detect_uart_framing_incoherence-parse_uart_output,
}
use slidko.Decode.Sigrok.Building.{Decodes, classify_capture-Decodes}
use slidko.Measure.Smoke.Incoherence.{detect_uart_framing_incoherence}
use slidko.Measure.Whole.{classify_capture}

abbrev letter : Word
letter = record { start_sample = 4368; end_sample = 6036; value = 0x41; capitals = true }

abbrev newline : Word
newline = record { start_sample = 7000; end_sample = 8668; value = 0x0A; capitals = true }

abbrev printed : List String
printed = "4368-6036 uart-1: 41" ∷ "7000-8668 uart-1: 0A" ∷ []

printed-ArePrinted : ArePrinted (letter ∷ newline ∷ []) printed
unfolding show show_hex2
printed-ArePrinted = (refl, (refl, tt))

parse_uart_output-printed_example : parse_uart_output printed ≡ map event_at (letter ∷ newline ∷ [])
parse_uart_output-printed_example =
    parse_uart_output-printed (letter ∷ newline ∷ []) printed printed-ArePrinted

abbrev uart : ProtocolHypothesis Ratio
uart = record { protocol = "uart"; parameters = []; channel_assignments = ("rx", "D0") ∷ [] }

detect_uart_framing_incoherence-parse_uart_output_example :
    detect_uart_framing_incoherence (parse_uart_output printed) uart ≡ []
detect_uart_framing_incoherence-parse_uart_output_example =
    detect_uart_framing_incoherence-parse_uart_output printed uart (λ n. ground arith)

abbrev two_archive : Archive
two_archive = record {
  metadata = metadata_text two_lines;
  chunks = ("logic-1-1", 3 ∷ 2 ∷ 1 ∷ []) ∷ [];
}

two_lines-written : write_sr two_lines none ≡ ok two_archive
unfolding write_sr packed_bytes columns_of pack_rows byte_of chunks_of chunked show
two_lines-written = refl

-- A sigrok-cli that prints two words.
abbrev prints : Archive → List String → Result (List String)
prints archive args = ok printed

classify_capture-Decodes_example :
    All
      (Decodes prints "/tmp/a.sr" two_lines two_archive)
      (classify_capture two_lines.channels 1000000)
classify_capture-Decodes_example =
    classify_capture-Decodes prints "/tmp/a.sr" two_lines two_archive two_lines-written
      two_lines.channels 1000000

-- Files with a report, in which sigrok-cli finds a line for the session that was written.
abbrev before : Files
before = ("report.txt", none) ∷ []

abbrev i2c_bus : ProtocolHypothesis Ratio
i2c_bus = record {
  protocol = "i2c";
  parameters = [];
  channel_assignments = ("scl", "scl") ∷ ("sda", "sda") ∷ [];
}

abbrev if_written : Option (Option Archive) → Result (List String)
if_written (some (some archive)) = ok ("4-9 i2c-1: Address write: 68" ∷ "9-10 i2c-1: NACK" ∷ [])
if_written _ = err file_not_found

abbrev sigrok : Files → List String → Result (List String)
sigrok files args = if_written (lookup "/tmp/a.sr" files)

decode_in-decode_example :
    decode_in sigrok "/tmp/a.sr" two_lines i2c_bus before
    ≡ (decode (run_on sigrok "/tmp/a.sr" before) "/tmp/a.sr" two_lines i2c_bus, before)
decode_in-decode_example = decode_in-decode sigrok "/tmp/a.sr" before refl two_lines i2c_bus

-- The address and its NAK are read, and the files are as before.
decode_in_runs : decode_in sigrok "/tmp/a.sr" two_lines i2c_bus before ≡ (
  ok (
      event_of "i2c.address" 4 9 (("address", Payload.int 0x68) ∷ ("rw", Payload.text "write") ∷ [])
      ∷ event_of "i2c.nak" 9 10 []
      ∷ []),
  before,
)
unfolding decode_in lines_in write_sr packed_bytes columns_of pack_rows byte_of chunks_of chunked
    show build_i2c_args join_colons run_sigrok parse_i2c_output i2c_text match_line hex_value put
    erase is_empty read_number digit_in hex_digit
decode_in_runs = refl

decode-IsNormalized_example :
    Holds
      (All IsNormalized)
      (decode (run_on sigrok "/tmp/a.sr" before) "/tmp/a.sr" two_lines i2c_bus)
decode-IsNormalized_example =
    decode-IsNormalized (run_on sigrok "/tmp/a.sr" before) "/tmp/a.sr" two_lines i2c_bus

abbrev bus_lines : List String
bus_lines =
    "780-3300 i2c-1: Address write: 68" ∷ "3660-4020 i2c-1: ACK" ∷ "4020-6900 i2c-1: Data write: aa"
    ∷ []

abbrev bus_annotations : List Annotation
bus_annotations =
    record { start_sample = 780; end_sample = 3300; message = address_write 0x68; capitals = true }
    ∷ record { start_sample = 3660; end_sample = 4020; message = ack; capitals = true }
    ∷ record { start_sample = 4020; end_sample = 6900; message = data_write 0xAA; capitals = false }
    ∷ []

bus_lines-ArePrinted : I2cLines.ArePrinted bus_annotations bus_lines
unfolding show show_hex2
bus_lines-ArePrinted = (refl, (refl, (refl, tt)))

parse_i2c_output-printed_example : parse_i2c_output bus_lines ≡ ok (map annotated bus_annotations)
parse_i2c_output-printed_example =
    parse_i2c_output-printed bus_annotations bus_lines bus_lines-ArePrinted
