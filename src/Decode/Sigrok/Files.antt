-- ===== src/Decode/Sigrok/Files.antt =====
-- src/slidko/decode/sigrok_backend.py: the temporary session file. The files are a dictionary from paths to what they
-- hold: nothing yet, or a session. sigrok-cli is an arbitrary function of the files and of its arguments.
use slidko.Prelude.{
  String, concat, ◌≡◌, refl, ap, ◌∙◌, inl, inr, false, Option, none, some, List, str_eq,
  if◌then◌else◌, Bool-cases, has_key, Float,
}
use slidko.Result.{Result, ok, err, ◌>>=◌, value_error}
use slidko.Json.{put, erase, put-put, erase-put}
use slidko.Capture.{Capture}
use slidko.Capture.SrFile.{Archive, write_sr}
use slidko.Decode.Backend.{ProtocolHypothesis}
use slidko.Decode.Events.{DecodedEvent}
use slidko.Decode.Sigrok.{
  build_uart_args, build_i2c_args, build_spi_args, decoded_lines, decode, run_sigrok,
}
use slidko.Decode.Sigrok.Lines.{parse_uart_output, parse_i2c_output, parse_spi_output}

abbrev pub Files : Type 0
Files = List (String × Option Archive)

-- The file of the capture, in the files.
abbrev pub written : String → Files → Archive → Files
written sr_path files archive = put sr_path (some archive) (put sr_path none files)

-- A result and the files, read on.
abbrev pub parsed : {A B : Type 0} → (A → Result B) → Result A × Files → Result B × Files
parsed read (r, files) = (r >>= read, files)

-- `finally: Path(sr_path).unlink(missing_ok=True)`
abbrev pub finally_unlink : String → Result (List String) × Files → Result (List String) × Files
finally_unlink sr_path (r, files) = (r, erase sr_path files)

-- sigrok-cli on a session that has been written to its file.
abbrev pub run_on :
    (Files → List String → Result (List String))
    → String
    → Files
    → Archive
    → List String
    → Result (List String)
run_on run sr_path files archive args = run (written sr_path files archive) args

module _ {F : Type 0} ⦃fl : Float F⦄ (run : Files → List String → Result (List String))
    (sr_path : String) where
  -- The body of the `try`: what it gives, and the files.
  abbrev pub try_lines :
      (String → ProtocolHypothesis F → Result (List String))
      → ProtocolHypothesis F
      → Result Archive
      → Files
      → Result (List String) × Files
  try_lines build_args hypothesis (err raised) files = (err raised, put sr_path none files)
  try_lines build_args hypothesis (ok archive) files = (
    build_args sr_path hypothesis >>= run_sigrok (run_on run sr_path files) archive,
    written sr_path files archive,
  )

  unfoldable pub lines_in :
      (String → ProtocolHypothesis F → Result (List String))
      → Capture F
      → ProtocolHypothesis F
      → Files
      → Result (List String) × Files
  lines_in build_args capture hypothesis files =
      finally_unlink sr_path (try_lines build_args hypothesis (write_sr capture none) files)

  unfoldable pub decode_in :
      Capture F → ProtocolHypothesis F → Files → Result (List DecodedEvent) × Files
  decode_in capture hypothesis files =
      if str_eq hypothesis.protocol "uart"
      then parsed (λ lines. ok (parse_uart_output lines))
          (lines_in build_uart_args capture hypothesis files)
      else if str_eq hypothesis.protocol "i2c"
      then parsed parse_i2c_output (lines_in build_i2c_args capture hypothesis files)
      else if str_eq hypothesis.protocol "spi"
      then parsed (λ lines. ok (parse_spi_output lines))
          (lines_in build_spi_args capture hypothesis files)
      else (err (value_error (concat "Unsupported protocol " hypothesis.protocol)), files)

  module _ (files : Files) (fresh : has_key sr_path files ≡ false) where
    try_lines-decoded_lines :
        (build_args : String → ProtocolHypothesis F → Result (List String))
        (hypothesis : ProtocolHypothesis F) (archive : Result Archive)
        → finally_unlink sr_path (try_lines build_args hypothesis archive files) ≡ (
          archive
              >>= (λ a. build_args sr_path hypothesis >>= run_sigrok (run_on run sr_path files) a),
          files,
        )
    try_lines-decoded_lines build_args hypothesis (err raised) =
        ap (λ f. (err raised, f)) (erase-put sr_path none files fresh)
    try_lines-decoded_lines build_args hypothesis (ok archive) =
        ap (λ f. ((try_lines build_args hypothesis (ok archive) files).0, f))
          (ap (erase sr_path) (put-put sr_path (some archive) none files)
            ∙ erase-put sr_path (some archive) files fresh)

    lines_in-decoded_lines :
        (build_args : String → ProtocolHypothesis F → Result (List String)) (capture : Capture F)
        (hypothesis : ProtocolHypothesis F)
        → lines_in build_args capture hypothesis files
          ≡ (decoded_lines (run_on run sr_path files) sr_path build_args capture hypothesis, files)
    unfolding lines_in decoded_lines
    lines_in-decoded_lines build_args capture hypothesis =
        try_lines-decoded_lines build_args hypothesis (write_sr capture none)

    -- Decoding gives what `decode` gives, where sigrok-cli runs on the session that was written, and however it ends,
    -- with events or with an exception, the files are again what they were. The name of the temporary file is new.
    pub decode_in-decode :
        (capture : Capture F) (hypothesis : ProtocolHypothesis F)
        → decode_in capture hypothesis files
          ≡ (decode (run_on run sr_path files) sr_path capture hypothesis, files)
    unfolding decode_in decode
    decode_in-decode capture hypothesis = elim (Bool-cases (str_eq hypothesis.protocol "uart")) [
      | inl uart ↦ rw (uart, lines_in-decoded_lines build_uart_args capture hypothesis) refl
      | inr not_uart ↦ elim (Bool-cases (str_eq hypothesis.protocol "i2c")) [
        | inl i2c ↦
            rw (not_uart, i2c, lines_in-decoded_lines build_i2c_args capture hypothesis) refl
        | inr not_i2c ↦ elim (Bool-cases (str_eq hypothesis.protocol "spi")) [
          | inl spi ↦
              rw (not_uart, not_i2c, spi, lines_in-decoded_lines build_spi_args capture hypothesis)
                refl
          | inr not_spi ↦ rw (not_uart, not_i2c, not_spi) refl
        ]
      ]
    ]
