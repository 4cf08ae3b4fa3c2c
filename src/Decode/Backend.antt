-- ===== src/Decode/Backend.antt =====
-- src/slidko/decode/backend.py: what Measure infers about a capture, handed to a decoder.
use slidko.Prelude.{ℕ, String, List}

-- What a value of `parameters: dict[str, Any]` may be.
pub data Value (F : Type 0) : Type 0 where
  null : Value F
  int : ℕ → Value F
  float : F → Value F
  text : String → Value F

pub record ProtocolHypothesis (F : Type 0) : Type 0 where
  pub protocol : String
  pub parameters : List (String × Value F)
  pub channel_assignments : List (String × String)
