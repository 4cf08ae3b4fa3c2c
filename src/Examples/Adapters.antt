-- ===== src/Examples/Adapters.antt =====
-- Concrete inputs for the adapter of claims and the pinned decoders.
use slidko.Prelude.{
  ℕ, String, ◌≡◌, refl, sym, ap, ◌↔◌, List, [], ◌∷◌, str_eq, ◌==◌, if◌then◌else◌, length, All,
  lower,
}
use slidko.Prelude.Ratio.{Ratio, ratio, ratio_float}
use slidko.Json.{Json}
use slidko.Decode.DecoderPin.Files.{
  manifest_json, load_manifest, save_manifest, sorted_items, check_drift-load_manifest,
}
use slidko.Result.{Result, ok, err, file_not_found}
use slidko.Decode.Backend.{Value, ProtocolHypothesis}
use slidko.Measure.Classify.{Claim}
use slidko.Decode.FromMeasure.{hypothesis_from_claim, i2c_hypothesis}
use slidko.Decode.DecoderPin.{used_decoders, hash_decoder, build_manifest, check_drift}

abbrev bus_claim : Claim Ratio
bus_claim = record {
  protocol = "I2C";
  channels = ("scl", "D0") ∷ ("sda", "D1") ∷ [];
  confidence = ratio 9 10;
  parameters = [];
}

abbrev bus : ProtocolHypothesis Ratio
bus = record {
  protocol = "i2c";
  parameters = ("scl_channel", Value.text "D0") ∷ ("sda_channel", Value.text "D1") ∷ [];
  channel_assignments = ("scl", "D0") ∷ ("sda", "D1") ∷ [];
}

bus_adapted : hypothesis_from_claim bus_claim ≡ ok bus
unfolding hypothesis_from_claim i2c_hypothesis lower
bus_adapted = refl

-- Every decoder has two short files, and a hash that tells how long they are.
abbrev read_bytes : String → String → Result (List ℕ)
read_bytes name filename =
    if str_eq name "can"
    then err file_not_found
    else ok (if str_eq filename "pd.py" then 1 ∷ 2 ∷ [] else 3 ∷ [])

abbrev sha256 : List ℕ → String
sha256 bytes = if length bytes == 3 then "three" else "other"

abbrev pinned : List (String × String)
pinned = ("uart", "three") ∷ ("i2c", "three") ∷ ("spi", "three") ∷ []

pinned_built : build_manifest read_bytes sha256 used_decoders ≡ ok pinned
unfolding build_manifest hash_decoder
pinned_built = refl

-- The texts of the manifest, and what they are read as.
abbrev dumps : Json Ratio → String
dumps j = "{...}"

abbrev sorted_pins : List (String × String)
sorted_pins = ("i2c", "three") ∷ ("spi", "three") ∷ ("uart", "three") ∷ []

abbrev loads : String → Result (Json Ratio)
loads content = ok (manifest_json sorted_pins)

pins_sorted : sorted_items pinned ≡ sorted_pins
unfolding sorted_items
pins_sorted = refl

-- An installation in which one decoder has grown.
abbrev installed : String → String → Result (List ℕ)
installed name filename =
    if str_eq name "spi" then ok (1 ∷ 2 ∷ 3 ∷ []) else read_bytes name filename

check_drift-load_manifest_example :
    (load_manifest loads "decoder_manifest.json"
        (save_manifest dumps pinned "decoder_manifest.json" [])
      ≡ ok (sorted_items pinned))
    × ((check_drift installed sha256 (sorted_items pinned) ≡ ok [])
        ↔ All
            (λ name. hash_decoder installed sha256 name ≡ hash_decoder read_bytes sha256 name)
            used_decoders)
check_drift-load_manifest_example =
    check_drift-load_manifest read_bytes installed sha256 dumps loads used_decoders pinned []
      "decoder_manifest.json" pinned_built (ap (λ m. ok (manifest_json m)) (sym pins_sorted))

check_drift_runs :
    check_drift read_bytes sha256 (("can", "three") ∷ ("spi", "old") ∷ pinned)
    ≡ ok ("can" ∷ "spi" ∷ [])
unfolding check_drift hash_decoder
check_drift_runs = refl
