-- ===== src/Corpus/Sidecar/ToJson.antt =====
-- src/slidko/corpus/sidecar.py: `Sidecar.to_json`.
use slidko.Prelude.{Option, none, some, [], ◌∷◌, map}
use slidko.Json.{Json, Dict, null, boolean, int, float, text, dict_of}
use slidko.Corpus.Sidecar.{
  Instrument, Driver, Transport, Receiver, Protocol, FaultInjected, ReceiverVerdict, SweepCell,
  Sidecar,
}

abbrev pub or_null : {A F : Type 0} → (A → Dict F) → Option A → Json F
or_null to_dict none = null
or_null to_dict (some a) = dict_of (to_dict a)

module _ {F : Type 0} where
  abbrev pub instrument_dict : Instrument F → Dict F
  instrument_dict i =
      ("model", text i.model)
      ∷ ("samplerate_hz", int i.samplerate_hz)
      ∷ ("threshold_v", float i.threshold_v)
      ∷ ("channels", dict_of (map (λ c. (c.0, text c.1)) i.channels))
      ∷ []

  abbrev pub driver_dict : Driver F → Dict F
  driver_dict d =
      ("chip", text d.chip) ∷ ("vdd_v", float d.vdd_v) ∷ ("series_r_ohm", float d.series_r_ohm) ∷ []

  abbrev pub transport_dict : Transport F → Dict F
  transport_dict t =
      ("cable", text t.cable)
      ∷ ("length_m", float t.length_m)
      ∷ ("twisted", boolean t.twisted)
      ∷ ("shielded", boolean t.shielded)
      ∷ ("termination", text t.termination)
      ∷ []

  abbrev pub receiver_dict : Receiver F → Dict F
  receiver_dict r = ("part", text r.part) ∷ ("vdd_v", float r.vdd_v) ∷ ("vih_v", float r.vih_v) ∷ []

  abbrev pub protocol_dict : Protocol F → Dict F
  protocol_dict p = ("name", text p.name) ∷ ("nominal", dict_of p.nominal) ∷ []

  -- `asdict`, and then "class_" taken out and put back as "class".
  abbrev pub fault_injected_dict : FaultInjected F → Dict F
  fault_injected_dict f = ("params", dict_of f.params) ∷ ("class", text f.class_) ∷ []

  abbrev pub receiver_verdict_dict : ReceiverVerdict → Dict F
  receiver_verdict_dict v =
      ("observed", text v.observed)
      ∷ ("notes", text v.notes)
      ∷ ("contemporaneous", boolean v.contemporaneous)
      ∷ []

  abbrev pub sweep_cell_dict : SweepCell F → Dict F
  sweep_cell_dict c = ("name", text c.name) ∷ ("axis", text c.axis) ∷ ("value", float c.value) ∷ []

  unfoldable pub to_json : Sidecar F → Dict F
  to_json sidecar =
      ("id", text sidecar.id)
      ∷ ("capture_file", text sidecar.capture_file)
      ∷ ("instrument", dict_of (instrument_dict sidecar.instrument))
      ∷ ("driver", dict_of (driver_dict sidecar.driver))
      ∷ ("transport", dict_of (transport_dict sidecar.transport))
      ∷ ("receiver", dict_of (receiver_dict sidecar.receiver))
      ∷ ("protocol", dict_of (protocol_dict sidecar.protocol))
      ∷ ("fault_injected", dict_of (fault_injected_dict sidecar.fault_injected))
      ∷ ("receiver_verdict", or_null receiver_verdict_dict sidecar.receiver_verdict)
      ∷ ("sweep_cell", or_null sweep_cell_dict sidecar.sweep_cell)
      ∷ ("referee", or_null (λ d. d) sidecar.referee)
      ∷ []
