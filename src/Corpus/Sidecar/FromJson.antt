-- ===== src/Corpus/Sidecar/FromJson.antt =====
-- src/slidko/corpus/sidecar.py: `Sidecar.from_json`. The source does not check the type of a value against its
-- annotation; here a value of another type is a TypeError.
use slidko.Prelude.{String, Option, none, some, List, [], ◌∷◌, lookup, Float}
use slidko.Result.{Result, ok, ◌>>=◌, require}
use slidko.Json.{
  as_float, erase, put, Json, Dict, as_text, as_number, as_bool, as_dict, each, arguments,
  some_value, if_present,
}
use slidko.Corpus.Sidecar.{
  Instrument, Driver, Transport, Receiver, Protocol, FaultInjected, ReceiverVerdict, SweepCell,
  Sidecar,
}

abbrev pub renamed : {V : Type 0} → Option V → List (String × V) → List (String × V)
renamed none d = d
renamed (some v) d = put "class_" v (erase "class" d)

-- `if "class" in d: d["class_"] = d.pop("class")`
abbrev pub rename_class : {V : Type 0} → List (String × V) → List (String × V)
rename_class d = renamed (lookup "class" d) d

unfoldable pub receiver_verdict_of : {F : Type 0} → Dict F → Result ReceiverVerdict
receiver_verdict_of given = do
  d ← arguments ("observed" ∷ "notes" ∷ "contemporaneous" ∷ []) given
  observed ← require "observed" d >>= as_text
  notes ← require "notes" d >>= as_text
  contemporaneous ← require "contemporaneous" d >>= as_bool
  ok (record { observed = observed; notes = notes; contemporaneous = contemporaneous })

-- `f(**data[k])`
abbrev pub part : {F A : Type 0} → String → (Dict F → Result A) → Dict F → Result A
part k read given = require k given >>= as_dict >>= read

-- The same of a key that may be missing or null.
abbrev pub optional_part :
    {F A : Type 0} → String → (Dict F → Result A) → Dict F → Result (Option A)
optional_part k read given = if_present (λ j. as_dict j >>= read) (some_value (lookup k given))

module _ {F : Type 0} ⦃fl : Float F⦄ where
  abbrev pub read_channel : String × Json F → Result (String × String)
  read_channel (name, j) = as_text j >>= (λ s. ok (name, s))

  unfoldable pub instrument_of : Dict F → Result (Instrument F)
  instrument_of given = do
    d ← arguments ("model" ∷ "samplerate_hz" ∷ "threshold_v" ∷ "channels" ∷ []) given
    model ← require "model" d >>= as_text
    samplerate_hz ← require "samplerate_hz" d >>= as_number
    threshold_v ← require "threshold_v" d >>= as_float
    channels ← require "channels" d >>= as_dict >>= each read_channel
    ok (record {
      model = model;
      samplerate_hz = samplerate_hz;
      threshold_v = threshold_v;
      channels = channels;
    })

  unfoldable pub driver_of : Dict F → Result (Driver F)
  driver_of given = do
    d ← arguments ("chip" ∷ "vdd_v" ∷ "series_r_ohm" ∷ []) given
    chip ← require "chip" d >>= as_text
    vdd_v ← require "vdd_v" d >>= as_float
    series_r_ohm ← require "series_r_ohm" d >>= as_float
    ok (record { chip = chip; vdd_v = vdd_v; series_r_ohm = series_r_ohm })

  unfoldable pub transport_of : Dict F → Result (Transport F)
  transport_of given = do
    d ← arguments ("cable" ∷ "length_m" ∷ "twisted" ∷ "shielded" ∷ "termination" ∷ []) given
    cable ← require "cable" d >>= as_text
    length_m ← require "length_m" d >>= as_float
    twisted ← require "twisted" d >>= as_bool
    shielded ← require "shielded" d >>= as_bool
    termination ← require "termination" d >>= as_text
    ok (record {
      cable = cable;
      length_m = length_m;
      twisted = twisted;
      shielded = shielded;
      termination = termination;
    })

  unfoldable pub receiver_of : Dict F → Result (Receiver F)
  receiver_of given = do
    d ← arguments ("part" ∷ "vdd_v" ∷ "vih_v" ∷ []) given
    part ← require "part" d >>= as_text
    vdd_v ← require "vdd_v" d >>= as_float
    vih_v ← require "vih_v" d >>= as_float
    ok (record { part = part; vdd_v = vdd_v; vih_v = vih_v })

  unfoldable pub protocol_of : Dict F → Result (Protocol F)
  protocol_of given = do
    d ← arguments ("name" ∷ "nominal" ∷ []) given
    name ← require "name" d >>= as_text
    nominal ← require "nominal" d >>= as_dict
    ok (record { name = name; nominal = nominal })

  unfoldable pub fault_injected_of : Dict F → Result (FaultInjected F)
  fault_injected_of given = do
    d ← arguments ("class_" ∷ "params" ∷ []) given
    class_ ← require "class_" d >>= as_text
    params ← require "params" d >>= as_dict
    ok (record { class_ = class_; params = params })

  unfoldable pub sweep_cell_of : Dict F → Result (SweepCell F)
  sweep_cell_of given = do
    d ← arguments ("name" ∷ "axis" ∷ "value" ∷ []) given
    name ← require "name" d >>= as_text
    axis ← require "axis" d >>= as_text
    value ← require "value" d >>= as_float
    ok (record { name = name; axis = axis; value = value })

  -- `data.get("fault_injected", {})`, copied.
  abbrev pub fault_injected_data : Option (Json F) → Result (Dict F)
  fault_injected_data none = ok []
  fault_injected_data (some j) = as_dict j

  unfoldable pub from_json : Dict F → Result (Sidecar F)
  from_json given = do
    fault_data ← fault_injected_data (lookup "fault_injected" given)
    instrument ← part "instrument" instrument_of given
    driver ← part "driver" driver_of given
    transport ← part "transport" transport_of given
    receiver ← part "receiver" receiver_of given
    protocol ← part "protocol" protocol_of given
    fault_injected ← fault_injected_of (rename_class fault_data)
    receiver_verdict ← optional_part "receiver_verdict" receiver_verdict_of given
    sweep_cell ← optional_part "sweep_cell" sweep_cell_of given
    referee ← optional_part "referee" ok given
    id ← require "id" given >>= as_text
    capture_file ← require "capture_file" given >>= as_text
    ok (record {
      id = id;
      capture_file = capture_file;
      instrument = instrument;
      driver = driver;
      transport = transport;
      receiver = receiver;
      protocol = protocol;
      fault_injected = fault_injected;
      receiver_verdict = receiver_verdict;
      sweep_cell = sweep_cell;
      referee = referee;
    })
