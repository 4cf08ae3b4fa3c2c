-- ===== src/Corpus/Sidecar.antt =====
-- src/slidko/corpus/sidecar.py: the record that goes with a raw capture.
use slidko.Prelude.{ℕ, String, Bool, Option, none, some, List, [], ◌∷◌}
use slidko.Json.{Dict}
pub mod ToJson
pub mod FromJson
pub mod RoundTrip

pub record Instrument (F : Type 0) : Type 0 where
  pub model : String
  pub samplerate_hz : ℕ
  pub threshold_v : F
  pub channels : List (String × String)

pub record Driver (F : Type 0) : Type 0 where
  pub chip : String
  pub vdd_v : F
  pub series_r_ohm : F

pub record Transport (F : Type 0) : Type 0 where
  pub cable : String
  pub length_m : F
  pub twisted : Bool
  pub shielded : Bool
  pub termination : String

pub record Receiver (F : Type 0) : Type 0 where
  pub part : String
  pub vdd_v : F
  pub vih_v : F

pub record Protocol (F : Type 0) : Type 0 where
  pub name : String
  pub nominal : Dict F

pub record FaultInjected (F : Type 0) : Type 0 where
  pub class_ : String
  pub params : Dict F

pub record ReceiverVerdict : Type 0 where
  pub observed : String
  pub notes : String
  pub contemporaneous : Bool

pub record SweepCell (F : Type 0) : Type 0 where
  pub name : String
  pub axis : String
  pub value : F

pub record Sidecar (F : Type 0) : Type 0 where
  pub id : String
  pub capture_file : String
  pub instrument : Instrument F
  pub driver : Driver F
  pub transport : Transport F
  pub receiver : Receiver F
  pub protocol : Protocol F
  pub fault_injected : FaultInjected F
  pub receiver_verdict : Option ReceiverVerdict
  pub sweep_cell : Option (SweepCell F)
  pub referee : Option (Dict F)

-- `Sidecar.validate`
abbrev verdict_errors : Option ReceiverVerdict → List String
verdict_errors none = "receiver_verdict is required" ∷ []
verdict_errors (some verdict) = []

unfoldable pub validate : {F : Type 0} → Sidecar F → List String
validate sidecar = verdict_errors sidecar.receiver_verdict
