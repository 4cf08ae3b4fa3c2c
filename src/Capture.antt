-- ===== src/Capture.antt =====
-- src/slidko/capture/model.py: a capture of logic signals with its provenance.
use slidko.Prelude.{ℕ, String, Option, List}
use slidko.Measure.Edges.{Channel}
pub mod SrFile
pub mod SigrokCli

-- The keys of `provenance` that the code reads: the instrument's name and threshold.
pub record Capture (F : Type 0) : Type 0 where
  pub channels : List (String × Channel)
  pub samplerate_hz : ℕ
  pub instrument : Option String
  pub threshold_v : Option F
