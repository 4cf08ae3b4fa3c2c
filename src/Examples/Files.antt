-- ===== src/Examples/Files.antt =====
-- Concrete inputs for session files.
use slidko.Prelude.{ℕ, String, ◌≡◌, refl, ap, true, false, Option, some, List, [], ◌∷◌, arith, show}
use slidko.Prelude.Ratio.{Ratio, ratio, ratio_float}
use slidko.Result.{Result, ok}
use slidko.Capture.{Capture}
use slidko.Capture.SrFile.{
  Archive, metadata, write_sr, packed_bytes, columns_of, pack_rows, byte_of, chunks_of, chunked,
}
use slidko.Capture.SrFile.Read.{read_sr}
use slidko.Capture.SrFile.Read.Laws.{read_sr-write_sr}

abbrev pub two_lines : Capture Ratio
two_lines = record {
  channels = ("scl", true ∷ false ∷ true ∷ []) ∷ ("sda", true ∷ true ∷ false ∷ []) ∷ [];
  samplerate_hz = 1000000;
  instrument = some "fx2lafw";
  threshold_v = some (ratio 3 2);
}

-- A configuration parser that knows this file, and a reader of its threshold.
abbrev parse : String → Result (List (String × String))
parse text = ok (metadata two_lines)

abbrev to_float : List ℕ → Option Ratio
to_float text = some (ratio 3 2)

read_sr-write_sr_example :
    (archive : Archive) × (write_sr two_lines (some 2) ≡ ok archive)
    × (read_sr to_float parse archive ≡ ok two_lines)
read_sr-write_sr_example =
    read_sr-write_sr to_float parse two_lines (some 2) ((refl, (refl, tt)), omega arith) refl
      (λ v e. ap some cc)

-- Three samples in chunks of two bytes.
chunks_run :
    (packed_bytes two_lines.channels ≡ ok (3 ∷ 2 ∷ 1 ∷ []))
    × (chunks_of (some 2) (3 ∷ 2 ∷ 1 ∷ []) ≡ ("logic-1-1", 3 ∷ 2 ∷ []) ∷ ("logic-1-2", 1 ∷ []) ∷ [])
unfolding packed_bytes columns_of pack_rows byte_of chunks_of chunked show
chunks_run = (refl, refl)
