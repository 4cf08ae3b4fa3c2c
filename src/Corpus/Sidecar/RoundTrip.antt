-- ===== src/Corpus/Sidecar/RoundTrip.antt =====
-- A sidecar that is written is read back.
use slidko.Prelude.{String, ◌≡◌, refl, Option, none, some, map, Float}
use slidko.Result.{Result, ok, ◌>>=◌}
use slidko.Json.{
  erase, put, Json, Dict, text, as_dict, some_value, if_present, entries-fields_of, each-map,
  has_exactly,
}
use slidko.Corpus.Sidecar.{
  Instrument, Driver, Transport, Receiver, Protocol, FaultInjected, ReceiverVerdict, SweepCell,
  Sidecar,
}
use slidko.Corpus.Sidecar.ToJson.{
  to_json, instrument_dict, driver_dict, transport_dict, receiver_dict, protocol_dict,
  fault_injected_dict, receiver_verdict_dict, sweep_cell_dict, or_null,
}
use slidko.Corpus.Sidecar.FromJson.{
  from_json, instrument_of, driver_of, transport_of, receiver_of, protocol_of, fault_injected_of,
  receiver_verdict_of, sweep_cell_of, rename_class, read_channel,
}

-- A part that may be missing.
if_present-or_null :
    {A F : Type 0} (write : A → Dict F) (read : Dict F → Result A)
    → ((a : A) → read (write a) ≡ ok a)
    → (part : Option A)
    → if_present (λ j. as_dict j >>= read) (some_value (some (or_null write part))) ≡ ok part
if_present-or_null write read law none = refl
if_present-or_null write read law (some a) = rw (entries-fields_of (write a), law a) refl

optional_verdict :
    (F : Type 0) (v : Option ReceiverVerdict)
    → if_present
        (λ (j : Json F). as_dict j >>= receiver_verdict_of)
        (some_value (some (or_null receiver_verdict_dict v)))
      ≡ ok v
unfolding receiver_verdict_of has_exactly
optional_verdict F v =
    if_present-or_null receiver_verdict_dict (receiver_verdict_of {F = F}) (λ a. refl) v

module _ {F : Type 0} ⦃fl : Float F⦄ where
  abbrev channel_item : String × String → String × Json F
  channel_item c = (c.0, text c.1)

  instrument_of-instrument_dict : (i : Instrument F) → instrument_of (instrument_dict i) ≡ ok i
  unfolding instrument_of has_exactly
  instrument_of-instrument_dict i =
      rw
        (
          entries-fields_of (map channel_item i.channels),
          each-map channel_item read_channel (λ c. refl) i.channels,
        )
        refl

  driver_of-driver_dict : (d : Driver F) → driver_of (driver_dict d) ≡ ok d
  unfolding driver_of has_exactly
  driver_of-driver_dict d = refl

  transport_of-transport_dict : (t : Transport F) → transport_of (transport_dict t) ≡ ok t
  unfolding transport_of has_exactly
  transport_of-transport_dict t = refl

  receiver_of-receiver_dict : (r : Receiver F) → receiver_of (receiver_dict r) ≡ ok r
  unfolding receiver_of has_exactly
  receiver_of-receiver_dict r = refl

  protocol_of-protocol_dict : (p : Protocol F) → protocol_of (protocol_dict p) ≡ ok p
  unfolding protocol_of has_exactly
  protocol_of-protocol_dict p = rw (entries-fields_of p.nominal) refl

  fault_injected_of-fault_injected_dict :
      (f : FaultInjected F) → fault_injected_of (rename_class (fault_injected_dict f)) ≡ ok f
  unfolding fault_injected_of has_exactly erase put
  fault_injected_of-fault_injected_dict f = rw (entries-fields_of f.params) refl

  optional_sweep_cell :
      (c : Option (SweepCell F))
      → if_present
          (λ j. as_dict j >>= sweep_cell_of)
          (some_value (some (or_null sweep_cell_dict c)))
        ≡ ok c
  unfolding sweep_cell_of has_exactly
  optional_sweep_cell c = if_present-or_null sweep_cell_dict sweep_cell_of (λ a. refl) c

  optional_referee :
      (r : Option (Dict F))
      → if_present (λ j. as_dict j >>= ok) (some_value (some (or_null (λ d. d) r))) ≡ ok r
  optional_referee none = refl
  optional_referee (some d) = rw (entries-fields_of d) refl

  -- Every sidecar is read back as it was written: `from_json` of `to_json` gives the sidecar, with no exception.
  pub from_json-to_json : (sidecar : Sidecar F) → from_json (to_json sidecar) ≡ ok sidecar
  unfolding from_json to_json
  from_json-to_json s =
      rw
        (
          instrument_of-instrument_dict s.instrument,
          driver_of-driver_dict s.driver,
          transport_of-transport_dict s.transport,
          receiver_of-receiver_dict s.receiver,
          protocol_of-protocol_dict s.protocol,
          fault_injected_of-fault_injected_dict s.fault_injected,
          optional_verdict F s.receiver_verdict,
          optional_sweep_cell s.sweep_cell,
          optional_referee s.referee,
        )
        refl
