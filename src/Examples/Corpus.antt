-- ===== src/Examples/Corpus.antt =====
-- Concrete inputs for corpus captures.
use slidko.Prelude.{
  ℕ, String, ◌≡◌, refl, true, false, Option, none, some, List, [], ◌∷◌, str_eq, ◌==◌, if◌then◌else◌,
  length, show,
}
use slidko.Prelude.Ratio.{Ratio, ratio, ratio_float}
use slidko.Result.{Result, Error, ok, err, driver_error}
use slidko.Json.{Json, Dict, int, text, boolean, dict_of, has_exactly, put, erase}
use slidko.Corpus.Sidecar.{Sidecar, validate}
use slidko.Corpus.Sidecar.ToJson.{to_json}
use slidko.Corpus.Sidecar.FromJson.{
  from_json, instrument_of, driver_of, transport_of, receiver_of, protocol_of, fault_injected_of,
  receiver_verdict_of, sweep_cell_of,
}
use slidko.Corpus.Sidecar.RoundTrip.{from_json-to_json}
use slidko.Corpus.CaptureCli.{Write, write_bytes, write_text, cell_dir, entry_paths, capture_entry}
use slidko.Corpus.CaptureCli.Labelled.{IsLabelled, capture_entry-IsLabelled}
use slidko.Corpus.CaptureCli.Sweep.{entry_name, run_sweep}
use slidko.Corpus.CaptureCli.Sweep.Laws.{IsSwept, run_sweep-IsSwept}

abbrev fields : Dict Ratio
fields =
    (
      "instrument",
      dict_of (
          ("model", text "fx2lafw")
          ∷ ("samplerate_hz", int 24000000)
          ∷ ("threshold_v", Json.float (ratio 3 2))
          ∷ ("channels", dict_of (("D0", text "data") ∷ []))
          ∷ []),
    )
    ∷ (
      "driver",
      dict_of (
          ("chip", text "rp2040")
          ∷ ("vdd_v", Json.float (ratio 33 10))
          ∷ ("series_r_ohm", int 330)
          ∷ []),
    )
    ∷ (
      "transport",
      dict_of (
          ("cable", text "ribbon")
          ∷ ("length_m", Json.float (ratio 1 2))
          ∷ ("twisted", boolean false)
          ∷ ("shielded", boolean false)
          ∷ ("termination", text "none")
          ∷ []),
    )
    ∷ (
      "receiver",
      dict_of
          (("part", text "WS2812B") ∷ ("vdd_v", int 5) ∷ ("vih_v", Json.float (ratio 35 10)) ∷ []),
    )
    ∷ (
      "protocol",
      dict_of (("name", text "ws2812") ∷ ("nominal", dict_of (("bits", int 24) ∷ [])) ∷ []),
    )
    ∷ ("fault_injected", dict_of (("class", text "none") ∷ ("params", dict_of []) ∷ []))
    ∷ []

-- The instrument gives two bytes, but fails for a cable of three metres.
abbrev runner : Ratio → Result (List ℕ)
runner length_m = if length_m.num == 3 then err (driver_error "lost") else ok (1 ∷ 2 ∷ [])

abbrev works : Dict Ratio
works = ("observed", text "works") ∷ ("notes", text "") ∷ ("contemporaneous", boolean true) ∷ []

abbrev verdict : Ratio → Option (Dict Ratio)
verdict length_m = some works

abbrev dumps : Json Ratio → Result String
dumps j = ok "{}"

-- No write raises.
abbrev disk : Write → Option Error
disk w = none

-- The sidecar of the second entry cannot be written.
abbrev full_disk : Write → Option Error
full_disk (write_text path t) =
    if str_eq path "corpus/cells/ws2812-cable/entry-0001.json"
    then some (driver_error "full")
    else none
full_disk (write_bytes path bytes) = none

abbrev lengths : List Ratio
lengths = ratio 1 1 ∷ ratio 2 1 ∷ ratio 3 1 ∷ ratio 4 1 ∷ []

run_sweep-IsSwept_example :
    IsSwept dumps disk "ws2812-cable" "length_m" fields runner verdict 0 lengths []
      (run_sweep "ws2812-cable" "length_m" fields dumps disk runner verdict 0 lengths [])
run_sweep-IsSwept_example =
    run_sweep-IsSwept dumps disk "ws2812-cable" "length_m" fields runner verdict 0 lengths []

-- The third capture fails: two entries are written.
sweep_stops :
    length (run_sweep "ws2812-cable" "length_m" fields dumps disk runner verdict 0 lengths []).1 ≡ 4
unfolding run_sweep capture_entry from_json instrument_of driver_of transport_of receiver_of
    protocol_of fault_injected_of receiver_verdict_of sweep_cell_of erase put has_exactly validate
sweep_stops = refl

-- The second sidecar is lost: its capture stays alone.
sidecar_lost :
    length
      (run_sweep "ws2812-cable" "length_m" fields dumps full_disk runner verdict 0 lengths []).1
    ≡ 3
unfolding run_sweep capture_entry from_json instrument_of driver_of transport_of receiver_of
    protocol_of fault_injected_of receiver_verdict_of sweep_cell_of erase put has_exactly validate
    entry_paths entry_name cell_dir show
sidecar_lost = refl

capture_entry-IsLabelled_example :
    IsLabelled "ws2812-cable" "entry-0000" fields dumps disk
      (ok (7 ∷ []))
      (some works)
      []
      (capture_entry dumps disk "ws2812-cable" "entry-0000" fields (ok (7 ∷ [])) (some works) [])
capture_entry-IsLabelled_example =
    capture_entry-IsLabelled "ws2812-cable" "entry-0000" fields dumps disk (ok (7 ∷ []))
      (some works) []

abbrev bench : Sidecar Ratio
bench = record {
  id = "ws2812-cable/entry-0000";
  capture_file = "entry-0000.sr";
  instrument = record {
    model = "fx2lafw";
    samplerate_hz = 24000000;
    threshold_v = ratio 3 2;
    channels = ("D0", "data") ∷ [];
  };
  driver = record { chip = "rp2040"; vdd_v = ratio 33 10; series_r_ohm = ratio 330 1 };
  transport = record {
    cable = "ribbon";
    length_m = ratio 1 2;
    twisted = false;
    shielded = true;
    termination = "none";
  };
  receiver = record { part = "WS2812B"; vdd_v = ratio 5 1; vih_v = ratio 35 10 };
  protocol = record { name = "ws2812"; nominal = ("bits", int 24) ∷ [] };
  fault_injected = record { class_ = "runt"; params = [] };
  receiver_verdict = some (record { observed = "flicker"; notes = ""; contemporaneous = true });
  sweep_cell = none;
  referee = some (("model", text "scope") ∷ []);
}

from_json-to_json_example : from_json (to_json bench) ≡ ok bench
from_json-to_json_example = from_json-to_json bench
